-- ===== src/Limit/Window.antt =====
-- planner/limit.go: the rows that a limit node passes on, and that their end is reached.
use defradg.Prelude.{
  ℕ, zero, suc, ◌+◌, ◌-◌, ◌%◌, ◌^◌, ◌≤◌, ◌<◌, ◌≡◌, ◌≢◌, ◌⊎◌, refl, ap, sym, ◌∙◌, false, List, [],
  ◌∷◌, arith, length, take, drop, Option, none, some, Bool-cases, inl, inr, ltb, ◌==◌,
}
use defradg.Limit.{Rows, done, new_limit_node, next}
use defradg.Limit.Calls.{
  Open-before, rows_of, add, collect, node, next-Open, next-closed, advance-done, advance-skip,
  advance-take, advance_over, collect-next, collect-true, collect-false,
}

lt_or_eq : (i n : ℕ) → i ≤ n → (i < n) ⊎ (i ≡ n)
lt_or_eq i n h = omega arith

module _ {R : Type 0} where
  -- The window: what is behind the offset, and of this as much as the limit, if it is not 0.
  abbrev pub window : ℕ → ℕ → List R → List R
  window zero offset rs = drop offset rs
  window (suc limit) offset rs = take (suc limit) (drop offset rs)

  -- Behind the offset, what the limit leaves.
  abbrev left : ℕ → ℕ → ℕ → List R → List R
  left zero offset i rs = rs
  left (suc limit) offset i rs = take (suc limit + offset - i) rs

  take-nil : (n : ℕ) → take {A = R} n [] ≡ []
  take-nil zero = refl
  take-nil (suc n) = refl

  take_none : (m i : ℕ) (rs : List R) → m ≤ i → take (m - i) rs ≡ []
  take_none m i rs h = let e : m - i ≡ 0 = omega arith in ap (λ n. take n rs) e

  take_next :
      (m i : ℕ) (r : R) (rs : List R) → i < m → take (m - i) (r ∷ rs) ≡ r ∷ take (m - (i + 1)) rs
  take_next m i r rs h =
      let e : m - i ≡ suc (m - (i + 1)) = omega arith in ap (λ n. take n (r ∷ rs)) e

  drop_next :
      (m i : ℕ) (r : R) (rs : List R) → i < m → drop (m - i) (r ∷ rs) ≡ drop (m - (i + 1)) rs
  drop_next m i r rs h =
      let e : m - i ≡ suc (m - (i + 1)) = omega arith in ap (λ n. drop n (r ∷ rs)) e

  collect_past :
      (limit offset i it k : ℕ) (rs : List R) (at : Option R)
      → offset ≤ i
      → length rs ≤ k
      → i + length rs < 2 ^ 64
      → limit + offset < 2 ^ 64
      → collect (suc k) (node limit offset (rows_of rs) at i it) ≡ some (left limit offset i rs)
  collect_past zero offset i it k [] at o l s b =
      collect-false k _ _ (next-Open zero offset i it done at tt b ∙ advance-done _ _ _ _ _)
  collect_past zero offset i it (suc k) (r ∷ rs) at o l s b =
      collect-true (suc k) _ _ (
        next-Open zero offset i it (rows_of (r ∷ rs)) at tt b
        ∙ advance-take zero offset i ((it + 1) % 2 ^ 64) r (rows_of rs) (rows_of (r ∷ rs)) at o
            (omega arith))
      ∙ ap (add (some r)) (
          collect_past zero offset (i + 1) ((it + 1) % 2 ^ 64) k rs (some r) (omega arith)
            (omega arith) (omega arith) b)
  collect_past zero offset i it zero (r ∷ rs) at o l s b = ground arith
  collect_past (suc limit) offset i it zero (r ∷ rs) at o l s b = ground arith
  collect_past (suc limit) offset i it k [] at o l s b =
      elim (Bool-cases (ltb i (suc limit + offset))) [
        | inl e ↦
            collect-false k _ _
              (next-Open (suc limit) offset i it done at (ground arith) b ∙ advance-done _ _ _ _ _)
            ∙ ap some (sym (take-nil (suc limit + offset - i)))
        | inr e ↦
            collect-false k _ _ (next-closed limit offset i it done at (ground arith) b)
            ∙ ap some (sym (take-nil (suc limit + offset - i)))
      ]
  collect_past (suc limit) offset i it (suc k) (r ∷ rs) at o l s b =
      let ih =
        collect_past (suc limit) offset (i + 1) ((it + 1) % 2 ^ 64) k rs (some r) (omega arith)
          (omega arith) (omega arith) b in
      elim (Bool-cases (ltb i (suc limit + offset))) [
        | inl e ↦
            collect-true (suc k) _ _ (
              next-Open (suc limit) offset i it (rows_of (r ∷ rs)) at (ground arith) b
              ∙ advance-take (suc limit) offset i ((it + 1) % 2 ^ 64) r (rows_of rs)
                  (rows_of (r ∷ rs)) at o (omega arith))
            ∙ (ap (add (some r)) ih
                ∙ ap some (sym (take_next (suc limit + offset) i r rs (ground arith))))
        | inr e ↦
            collect-false (suc k) _ _
              (next-closed limit offset i it (rows_of (r ∷ rs)) at (ground arith) b)
            ∙ ap some (sym (take_none (suc limit + offset) i (r ∷ rs) (ground arith)))
      ]

  -- Up to the offset a row is skipped: Next does what it does behind the row.
  next-skip :
      (limit offset i it : ℕ) (r : R) (rs : List R) (at : Option R)
      → i < offset
      → limit + offset < 2 ^ 64
      → next (node limit offset (rows_of (r ∷ rs)) at i it)
        ≡ next (node limit offset (rows_of rs) (some r) (i + 1) it)
  next-skip limit offset i it r rs at h b =
      next-Open limit offset i it (rows_of (r ∷ rs)) at (Open-before limit offset i (omega arith)) b
      ∙ (advance-skip limit offset i ((it + 1) % 2 ^ 64) r (rows_of rs) (rows_of (r ∷ rs)) at h
            (omega arith)
          ∙ (advance_over limit offset (i + 1) ((it + 1) % 2 ^ 64) (rows_of rs) (rows_of (r ∷ rs))
                (rows_of rs) (some r)
              ∙ sym (
                  next-Open limit offset (i + 1) it (rows_of rs) (some r)
                    (Open-before limit offset (i + 1) (omega arith)) b)))

  window-step :
      (limit offset i : ℕ) (r : R) (rs : List R)
      → i < offset
      → window limit (offset - (i + 1)) rs ≡ window limit (offset - i) (r ∷ rs)
  window-step zero offset i r rs h = sym (drop_next offset i r rs h)
  window-step (suc limit) offset i r rs h = ap (take (suc limit)) (sym (drop_next offset i r rs h))

  left-window :
      (limit offset : ℕ) (rs : List R)
      → left limit offset offset rs ≡ window limit (offset - offset) rs
  left-window zero offset rs = let e : offset - offset ≡ 0 = omega arith in rw e refl
  left-window (suc limit) offset rs =
      let e : offset - offset ≡ 0 = omega arith in
      let f : suc limit + offset - offset ≡ suc limit = omega arith in rw (e, f) refl

  window-nil : (limit n : ℕ) → window limit n [] ≡ []
  window-nil zero zero = refl
  window-nil zero (suc n) = refl
  window-nil (suc limit) zero = refl
  window-nil (suc limit) (suc n) = refl

  collect_before :
      (limit offset i it k : ℕ) (rs : List R) (at : Option R)
      → i ≤ offset
      → length rs ≤ k
      → i + length rs < 2 ^ 64
      → limit + offset < 2 ^ 64
      → collect (suc k) (node limit offset (rows_of rs) at i it)
        ≡ some (window limit (offset - i) rs)
  collect_before limit offset i it k [] at h l s b =
      collect-false k _ _ (
        next-Open limit offset i it done at (Open-before limit offset i h) b
        ∙ advance-done _ _ _ _ _)
      ∙ ap some (sym (window-nil limit (offset - i)))
  collect_before limit offset i it k (r ∷ rs) at h l s b = elim (lt_or_eq i offset h) [
    | inl e ↦
        collect-next k _ _ (next-skip limit offset i it r rs at e b)
        ∙ (collect_before limit offset (i + 1) it k rs (some r) (omega arith) (omega arith)
              (omega arith) b
            ∙ ap some (window-step limit offset i r rs e))
    | inr e ↦ rw e (
        collect_past limit offset offset it k (r ∷ rs) at (omega arith) l (omega arith) b
        ∙ ap some (left-window limit offset (r ∷ rs)))
  ]

-- A limit node over a plan of fewer than 2^64 rows, with a limit and an offset whose sum is less than
-- that, gives the rows behind the offset, up to the limit if this is not 0, and then its end: within
-- one call of Next more than the plan has rows.
pub collect-window :
    {R : Type 0} (limit offset : ℕ) (rs : List R)
    → length rs < 2 ^ 64
    → limit + offset < 2 ^ 64
    → collect (suc (length rs)) (new_limit_node limit offset (rows_of rs))
      ≡ some (window limit offset rs)
unfolding new_limit_node
collect-window limit offset rs s b =
    collect_before limit offset 0 0 (length rs) rs none (omega arith) (omega arith) (omega arith) b
    ∙ (let e : offset - 0 ≡ offset = omega arith in ap (λ n. some (window limit n rs)) e)

-- Where the limit, which is not 0, and the offset add up to 2^64, the sum of 64 bits is 0, and the
-- node gives no row at all of any plan.
pub collect_wraps :
    {R : Type 0} (limit offset : ℕ) (rows : Rows R)
    → limit ≢ 0
    → limit + offset ≡ 2 ^ 64
    → collect 1 (new_limit_node limit offset rows) ≡ some []
unfolding new_limit_node next
collect_wraps limit offset rows h b =
    collect-false 0 (new_limit_node limit offset rows)
      (record (new_limit_node limit offset rows) { iterations = 1 })
      (let e : (limit + offset) % 2 ^ 64 ≡ 0 = omega arith in
        let f : (limit == 0) ≡ false = ground arith in rw (e, f) (ground arith))
