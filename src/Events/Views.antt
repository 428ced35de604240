-- ===== src/Events/Views.antt =====
-- events/simple.go: what a subscriber is given.
use defradg.Prelude.{
  ℕ, zero, suc, ◌≡◌, refl, ap, sym, ◌∙◌, Bool, true, false, not, ◌&&◌, ◌||◌, List, append_assoc, [],
  ◌∷◌, ◌++◌, map, Option, none, some, ◌==◌, if◌then◌else◌, arith, Bool-cases, inl, inr,
}
use defradg.Events.{
  Command, close_command, subscribe_command, unsubscribe_command, publish_command, Effect, sent,
  closed, find_index, removed, is_close, handle, handle_channel,
}
use defradg.Events.Removal.{count, count-append, Finds, missing, find_index-Finds, count-swap_found}

-- What a subscriber sees of its channel: items, and that it is closed.
pub data View (T : Type 0) : Type 0 where
  item : T → View T
  done : View T

-- A channel before, while and after it is subscribed.
pub data Phase : Type 0 where
  waiting active gone : Phase

abbrev pub is_waiting : Phase → Bool
is_waiting waiting = true
is_waiting _ = false

abbrev pub leave : Phase → Phase
leave active = gone
leave p = p

-- How often a channel is among the subscribers.
abbrev pub times : Phase → ℕ
times active = 1
times _ = 0

module _ {T : Type 0} where
  abbrev seen : ℕ → Effect T → List (View T)
  seen ch (sent s x) = if s == ch then item x ∷ [] else []
  seen ch (closed s) = if s == ch then done ∷ [] else []

  -- The part of a log that is about one channel.
  abbrev pub view : ℕ → List (Effect T) → List (View T)
  view ch [] = []
  view ch (e ∷ es) = seen ch e ++ view ch es

  abbrev pub next : ℕ → Phase → Command T → Phase
  next ch p (subscribe_command c) = if c == ch then active else p
  next ch p (unsubscribe_command c) = if c == ch then leave p else p
  next ch p _ = p

  -- What a channel is promised at a command: while it is subscribed, what is published, and at the
  -- end that it is closed.
  abbrev pub now : ℕ → Phase → Command T → List (View T)
  now ch active close_command = done ∷ []
  now ch active (unsubscribe_command c) = if c == ch then done ∷ [] else []
  now ch active (publish_command x) = item x ∷ []
  now ch p cmd = []

  abbrev pub promised : ℕ → Phase → List (Command T) → List (View T)
  promised ch p [] = []
  promised ch p (cmd ∷ cmds) =
      if is_close cmd then now ch p cmd else now ch p cmd ++ promised ch (next ch p cmd) cmds

  -- A channel is subscribed once.
  abbrev pub allowed : ℕ → Phase → Command T → Bool
  allowed ch p (subscribe_command c) = not (c == ch) || is_waiting p
  allowed ch p _ = true

  abbrev pub orderly : ℕ → Phase → List (Command T) → Bool
  orderly ch p [] = true
  orderly ch p (cmd ∷ cmds) = allowed ch p cmd && orderly ch (next ch p cmd) cmds

  abbrev repeat : ℕ → View T → List (View T)
  repeat zero v = []
  repeat (suc n) v = v ∷ repeat n v

  view-append : (ch : ℕ) (es fs : List (Effect T)) → view ch (es ++ fs) ≡ view ch es ++ view ch fs
  view-append ch [] fs = refl
  view-append ch (e ∷ es) fs =
      ap (λ v. seen ch e ++ v) (view-append ch es fs)
      ∙ sym (append_assoc (seen ch e) (view ch es) (view ch fs))

  view-sent :
      (ch : ℕ) (x : T) (xs : List ℕ)
      → view ch (map (λ s. sent s x) xs) ≡ repeat (count ch xs) (item x)
  view-sent ch x [] = refl
  view-sent ch x (y ∷ ys) = elim (Bool-cases (y == ch)) [
    | inl e ↦ rw e (ap (λ v. item x ∷ v) (view-sent ch x ys))
    | inr e ↦ rw e (view-sent ch x ys)
  ]

  view-closed : (ch : ℕ) (xs : List ℕ) → view ch (map closed xs) ≡ repeat (count ch xs) done
  view-closed ch [] = refl
  view-closed ch (y ∷ ys) = elim (Bool-cases (y == ch)) [
    | inl e ↦ rw e (ap (λ v. done ∷ v) (view-closed ch ys))
    | inr e ↦ rw e (view-closed ch ys)
  ]

  -- One command: what the channel sees of it, and that the subscribers stay in step with the phase.
  record Keeps (ch : ℕ) (p : Phase) (cmd : Command T) (r : List ℕ × List (Effect T)) : Type 0 where
    seen_now : view ch r.1 ≡ now ch p cmd
    in_step : count ch r.0 ≡ times (next ch p cmd)

  repeat-close : (ch : ℕ) (p : Phase) → repeat (times p) done ≡ now ch p close_command
  repeat-close ch waiting = refl
  repeat-close ch active = refl
  repeat-close ch gone = refl

  repeat-publish :
      (ch : ℕ) (p : Phase) (x : T) → repeat (times p) (item x) ≡ now ch p (publish_command x)
  repeat-publish ch waiting x = refl
  repeat-publish ch active x = refl
  repeat-publish ch gone x = refl

  subscribe-Keeps :
      (ch c : ℕ) (p : Phase) (xs : List ℕ)
      → count ch xs ≡ times p
      → allowed ch p (subscribe_command c) ≡ true
      → Keeps ch p (subscribe_command c) (xs ++ (c ∷ []), [])
  subscribe-Keeps ch c waiting xs h a = record {
    seen_now = refl;
    in_step = ground (arith, h, count-append ch xs (c ∷ []));
  }
  subscribe-Keeps ch c active xs h a = record {
    seen_now = refl;
    in_step = ground (arith, h, a, count-append ch xs (c ∷ []));
  }
  subscribe-Keeps ch c gone xs h a = record {
    seen_now = refl;
    in_step = ground (arith, h, a, count-append ch xs (c ∷ []));
  }

  unsubscribe-Keeps :
      (ch c : ℕ) (p : Phase) (xs : List ℕ) (o : Option ℕ)
      → Finds c xs 0 o
      → count ch xs ≡ times p
      → Keeps ch p (unsubscribe_command c) (removed c xs o)
  unsubscribe-Keeps ch c waiting xs none (missing z) h = record {
    seen_now = refl;
    in_step = ground (arith, h);
  }
  unsubscribe-Keeps ch c active xs none (missing z) h = elim (Bool-cases (c == ch)) [
    | inl e ↦ absurd (ground (arith, e, z, h))
    | inr e ↦ record { seen_now = rw e refl; in_step = rw e h }
  ]
  unsubscribe-Keeps ch c gone xs none (missing z) h = record {
    seen_now = refl;
    in_step = ground (arith, h);
  }
  unsubscribe-Keeps ch c waiting xs (some k) f h = elim (Bool-cases (c == ch)) [
    | inl e ↦ absurd (ground (arith, e, h, count-swap_found ch c k xs f))
    | inr e ↦ record {
      seen_now = rw e refl;
      in_step = ground (arith, e, h, count-swap_found ch c k xs f);
    }
  ]
  unsubscribe-Keeps ch c active xs (some k) f h = record {
    seen_now = ground arith;
    in_step = ground (arith, h, count-swap_found ch c k xs f);
  }
  unsubscribe-Keeps ch c gone xs (some k) f h = elim (Bool-cases (c == ch)) [
    | inl e ↦ absurd (ground (arith, e, h, count-swap_found ch c k xs f))
    | inr e ↦ record {
      seen_now = rw e refl;
      in_step = ground (arith, e, h, count-swap_found ch c k xs f);
    }
  ]

  handle-Keeps :
      (ch : ℕ) (p : Phase) (cmd : Command T) (xs : List ℕ)
      → count ch xs ≡ times p
      → allowed ch p cmd ≡ true
      → Keeps ch p cmd (handle cmd xs)
  unfolding handle
  handle-Keeps ch p close_command xs h a = record {
    seen_now = view-closed ch xs ∙ (ap (λ n. repeat n done) h ∙ repeat-close ch p);
    in_step = h;
  }
  handle-Keeps ch p (subscribe_command c) xs h a = subscribe-Keeps ch c p xs h a
  handle-Keeps ch p (unsubscribe_command c) xs h a =
      unsubscribe-Keeps ch c p xs (find_index c xs 0) (find_index-Finds c xs 0) h
  handle-Keeps ch p (publish_command x) xs h a = record {
    seen_now = view-sent ch x xs ∙ (ap (λ n. repeat n (item x)) h ∙ repeat-publish ch p x);
    in_step = h;
  }

  -- From a list of subscribers in step with a phase, a channel that is subscribed at most once sees
  -- what it is promised.
  pub view-handle_channel :
      (ch : ℕ) (p : Phase) (cmds : List (Command T)) (xs : List ℕ)
      → count ch xs ≡ times p
      → orderly ch p cmds ≡ true
      → view ch (handle_channel cmds xs) ≡ promised ch p cmds
  unfolding handle_channel
  view-handle_channel ch p [] xs h o = refl
  view-handle_channel ch p (cmd ∷ cmds) xs h o =
      let k = handle-Keeps ch p cmd xs h (ground (arith, o)) in
      let rest =
        view-handle_channel ch (next ch p cmd) cmds (handle cmd xs).0 k.in_step
          (ground (arith, o)) in
      elim (Bool-cases (is_close cmd)) [
        | inl e ↦ rw e k.seen_now
        | inr e ↦ rw e (
            view-append ch (handle cmd xs).1 (handle_channel cmds (handle cmd xs).0)
            ∙ rw (k.seen_now, rest) refl)
      ]
