-- ===== src/Limit/Calls.antt =====
-- planner/limit.go: single calls of Next, and the values of a node between them.
use defradg.Prelude.{
  ℕ, zero, suc, ◌+◌, ◌%◌, ◌^◌, ◌≤◌, ◌<◌, ◌≡◌, refl, ap, Bool, true, false, List, [], ◌∷◌, arith,
  Option, none, some, ltb, if◌then◌else◌, Result, ok, err,
}
use defradg.Limit.{Rows, done, failed, row, LimitNode, advance, next}

-- Whether the limit admits another row at an index.
abbrev pub Open : ℕ → ℕ → ℕ → Type 0
Open zero offset i = Unit
Open (suc limit) offset i = i < suc limit + offset

pub Open-before : (limit offset i : ℕ) → i ≤ offset → Open limit offset i
Open-before zero offset i h = tt
Open-before (suc limit) offset i h = omega arith

module _ {R : Type 0} where
  -- A plan that gives the rows of a list and then ends.
  abbrev pub rows_of : List R → Rows R
  rows_of [] = done
  rows_of (r ∷ rs) = row r (rows_of rs)

  abbrev pub add : Option R → Option (List R) → Option (List R)
  add (some r) (some rs) = some (r ∷ rs)
  add _ _ = none

  abbrev pub gather : Result Bool × LimitNode R → (LimitNode R → Option (List R)) → Option (List R)
  gather (ok true, n) f = add n.at (f n)
  gather (ok false, n) f = some []
  gather (err e, n) f = none

  -- The values of a node between calls of Next, up to the call that gives false: none, if this needs
  -- more calls, or if one fails.
  unfoldable pub collect : ℕ → LimitNode R → Option (List R)
  collect zero n = none
  collect (suc k) n = gather (next n) (collect k)

  abbrev pub node : ℕ → ℕ → Rows R → Option R → ℕ → ℕ → LimitNode R
  node limit offset rows at i it = record {
    ahead = rows;
    at = at;
    limit = limit;
    offset = offset;
    row_index = i;
    iterations = it;
  }

  pub next-Open :
      (limit offset i it : ℕ) (rows : Rows R) (at : Option R)
      → Open limit offset i
      → limit + offset < 2 ^ 64
      → next (node limit offset rows at i it)
        ≡ advance rows (node limit offset rows at i ((it + 1) % 2 ^ 64))
  unfolding next
  next-Open zero offset i it rows at o b = ground arith
  next-Open (suc limit) offset i it rows at o b = ground arith

  pub next-closed :
      (limit offset i it : ℕ) (rows : Rows R) (at : Option R)
      → suc limit + offset ≤ i
      → suc limit + offset < 2 ^ 64
      → next (node (suc limit) offset rows at i it)
        ≡ (ok false, node (suc limit) offset rows at i ((it + 1) % 2 ^ 64))
  unfolding next
  next-closed limit offset i it rows at o b = ground arith

  pub advance-done :
      (limit offset i it : ℕ) (at : Option R)
      → advance done (node limit offset done at i it) ≡ (ok false, node limit offset done at i it)
  unfolding advance
  advance-done limit offset i it at = refl

  pub advance-skip :
      (limit offset i it : ℕ) (r : R) (rows rows' : Rows R) (at : Option R)
      → i < offset
      → offset < 2 ^ 64
      → advance (row r rows) (node limit offset rows' at i it)
        ≡ advance rows (node limit offset rows' (some r) (i + 1) it)
  unfolding advance
  advance-skip limit offset i it r rows rows' at l b =
      let e : (i + 1) % 2 ^ 64 ≡ i + 1 = omega arith in
      let f : ltb offset (i + 1) ≡ false = ground arith in rw (e, f) refl

  pub advance-take :
      (limit offset i it : ℕ) (r : R) (rows rows' : Rows R) (at : Option R)
      → offset ≤ i
      → i + 1 < 2 ^ 64
      → advance (row r rows) (node limit offset rows' at i it)
        ≡ (ok true, node limit offset rows (some r) (i + 1) it)
  unfolding advance
  advance-take limit offset i it r rows rows' at l b =
      let e : (i + 1) % 2 ^ 64 ≡ i + 1 = omega arith in
      let f : ltb offset (i + 1) ≡ true = ground arith in rw (e, f) refl

  pub collect-next :
      (k : ℕ) (n m : LimitNode R) → next n ≡ next m → collect (suc k) n ≡ collect (suc k) m
  unfolding collect
  collect-next k n m h = ap (λ p. gather p (collect k)) h

  pub collect-true :
      (k : ℕ) (n n' : LimitNode R)
      → next n ≡ (ok true, n')
      → collect (suc k) n ≡ add n'.at (collect k n')
  unfolding collect
  collect-true k n n' h = ap (λ p. gather p (collect k)) h

  pub collect-false :
      (k : ℕ) (n n' : LimitNode R) → next n ≡ (ok false, n') → collect (suc k) n ≡ some []
  unfolding collect
  collect-false k n n' h = ap (λ p. gather p (collect k)) h

  pub advance_over :
      (limit offset i it : ℕ) (rows x y : Rows R) (at : Option R)
      → advance rows (node limit offset x at i it) ≡ advance rows (node limit offset y at i it)
  unfolding advance
  advance_over limit offset i it done x y at = refl
  advance_over limit offset i it (failed e) x y at = refl
  advance_over limit offset i it (row r rows) x y at =
      ap
        (λ rest.
          if ltb offset ((i + 1) % 2 ^ 64)
          then (ok true, node limit offset rows (some r) ((i + 1) % 2 ^ 64) it)
          else rest)
        (advance_over limit offset ((i + 1) % 2 ^ 64) it rows x y (some r))
