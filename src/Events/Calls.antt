-- ===== src/Events/Calls.antt =====
-- events/simple.go: calls of the methods, one after another, and what each subscriber is given.
use defradg.Prelude.{
  ℕ, ◌+◌, ◌≡◌, refl, ap, sym, ◌∙◌, true, false, ◌||◌, List, [], ◌∷◌, ◌++◌, append_assoc, append-nil,
  ltb, ◌==◌, arith, Bool-cases, inl, inr,
}
use defradg.Events.{
  Command, close_command, subscribe_command, unsubscribe_command, publish_command, SimpleChannel,
  new_simple_channel, subscribe, unsubscribe, publish, close, handle_channel, Effect,
}
use defradg.Events.Views.{
  Phase, waiting, active, gone, is_waiting, leave, view, promised, orderly, view-handle_channel,
}

pub data Call (T : Type 0) : Type 0 where
  subscribe_call close_call : Call T
  unsubscribe_call : ℕ → Call T
  publish_call : T → Call T

is_waiting-leave : (p : Phase) → is_waiting (leave p) ≡ is_waiting p
is_waiting-leave waiting = refl
is_waiting-leave active = refl
is_waiting-leave gone = refl

module _ {T : Type 0} where
  unfoldable pub call : Call T → SimpleChannel T → SimpleChannel T
  call subscribe_call c = (subscribe c).1
  call (unsubscribe_call ch) c = unsubscribe ch c
  call (publish_call x) c = publish x c
  call close_call c = close c

  unfoldable pub run_calls : List (Call T) → SimpleChannel T → SimpleChannel T
  run_calls [] c = c
  run_calls (k ∷ ks) c = run_calls ks (call k c)

  -- What happens to the channels of the subscribers.
  abbrev pub log_of : List (Call T) → List (Effect T)
  log_of ks = handle_channel (run_calls ks new_simple_channel).commands []

  -- The commands of calls, until the first Close, if so many channels were made before.
  abbrev pub commands_of : ℕ → List (Call T) → List (Command T)
  commands_of n [] = []
  commands_of n (subscribe_call ∷ ks) = subscribe_command n ∷ commands_of (n + 1) ks
  commands_of n (unsubscribe_call c ∷ ks) = unsubscribe_command c ∷ commands_of n ks
  commands_of n (publish_call x ∷ ks) = publish_command x ∷ commands_of n ks
  commands_of n (close_call ∷ ks) = close_command ∷ []

  closed_call : (k : Call T) (c : SimpleChannel T) → c.is_closed ≡ true → call k c ≡ c
  unfolding call subscribe unsubscribe publish close
  closed_call subscribe_call c h = rw h refl
  closed_call (unsubscribe_call ch) c h = rw h refl
  closed_call (publish_call x) c h = rw h refl
  closed_call close_call c h = rw h refl

  closed_run_calls :
      (ks : List (Call T)) (c : SimpleChannel T) → c.is_closed ≡ true → run_calls ks c ≡ c
  unfolding run_calls
  closed_run_calls [] c h = refl
  closed_run_calls (k ∷ ks) c h = rw (closed_call k c h) (closed_run_calls ks c h)

  abbrev Sends : List (Call T) → SimpleChannel T → Type 0
  Sends ks c = (run_calls ks c).commands ≡ c.commands ++ commands_of c.made ks

  open_run_calls :
      (ks : List (Call T)) (cmds : List (Command T)) (n : ℕ)
      → Sends ks (record { commands = cmds; made = n; is_closed = false })
  unfolding run_calls call subscribe unsubscribe publish close
  open_run_calls [] cmds n = sym (append-nil cmds)
  open_run_calls (subscribe_call ∷ ks) cmds n =
      open_run_calls ks (cmds ++ (subscribe_command n ∷ [])) (n + 1) ∙ append_assoc cmds _ _
  open_run_calls (unsubscribe_call ch ∷ ks) cmds n =
      open_run_calls ks (cmds ++ (unsubscribe_command ch ∷ [])) n ∙ append_assoc cmds _ _
  open_run_calls (publish_call x ∷ ks) cmds n =
      open_run_calls ks (cmds ++ (publish_command x ∷ [])) n ∙ append_assoc cmds _ _
  open_run_calls (close_call ∷ ks) cmds n =
      ap (λ c. c.commands)
        (closed_run_calls ks
          (record { commands = cmds ++ (close_command ∷ []); made = n; is_closed = true }) refl)

  -- A channel is subscribed when it is made, and never again.
  orderly-commands_of :
      (ch : ℕ) (p : Phase) (n : ℕ) (ks : List (Call T))
      → (is_waiting p || ltb ch n) ≡ true
      → orderly ch p (commands_of n ks) ≡ true
  orderly-commands_of ch p n [] h = refl
  orderly-commands_of ch p n (subscribe_call ∷ ks) h = elim (Bool-cases (n == ch)) [
    | inl e ↦ ground (arith, e, h, orderly-commands_of ch active (n + 1) ks (ground (arith, e)))
    | inr e ↦ ground (arith, e, h, orderly-commands_of ch p (n + 1) ks (ground (arith, e, h)))
  ]
  orderly-commands_of ch p n (unsubscribe_call c ∷ ks) h = elim (Bool-cases (c == ch)) [
    | inl e ↦
        rw e
          (orderly-commands_of ch (leave p) n ks (ap (λ w. w || ltb ch n) (is_waiting-leave p) ∙ h))
    | inr e ↦ rw e (orderly-commands_of ch p n ks h)
  ]
  orderly-commands_of ch p n (publish_call x ∷ ks) h = orderly-commands_of ch p n ks h
  orderly-commands_of ch p n (close_call ∷ ks) h = refl

  -- Where every subscriber takes what it is sent: whatever calls are made, one after another, each channel sees what it is promised for the commands
  -- of the calls until the first Close: the items that are published between its Subscribe and its
  -- Unsubscribe or Close, in order, and then once that it is closed.
  pub view-log_of :
      (ch : ℕ) (ks : List (Call T)) → view ch (log_of ks) ≡ promised ch waiting (commands_of 0 ks)
  view-log_of ch ks =
      view-handle_channel ch waiting (run_calls ks new_simple_channel).commands [] refl (
        ap (orderly ch waiting) (open_run_calls ks [] 0) ∙ orderly-commands_of ch waiting 0 ks refl)
      ∙ ap (promised ch waiting) (open_run_calls ks [] 0)
