-- ===== src/Limit.antt =====
-- planner/limit.go: the node of a plan that passes on a window of the rows of the plan below it. That
-- plan is what its Next gives, one call after another.
pub mod Calls
pub mod Window
pub mod Tests
use defradg.Prelude.{
  ℕ, suc, ◌+◌, ◌%◌, ◌^◌, Bool, true, false, not, ◌&&◌, Option, none, some, ltb, leb, ◌==◌,
  if◌then◌else◌, Error, Result, ok, err,
}

-- The rows of a plan that are still ahead, up to its end or its failure.
pub data Rows (R : Type 0) : Type 0 where
  done : Rows R
  failed : Error → Rows R
  row : R → Rows R → Rows R

-- `at` is the plan's Value.
pub record LimitNode (R : Type 0) : Type 0 where
  pub ahead : Rows R
  pub at : Option R
  pub limit : ℕ
  pub offset : ℕ
  pub row_index : ℕ
  pub iterations : ℕ

module _ {R : Type 0} where
  -- `Limit`, over a plan.
  unfoldable pub new_limit_node : ℕ → ℕ → Rows R → LimitNode R
  new_limit_node limit offset rows = record {
    ahead = rows;
    at = none;
    limit = limit;
    offset = offset;
    row_index = 0;
    iterations = 0;
  }

  -- The loop of Next: rows are taken from the plan until one is behind the offset.
  unfoldable pub advance : Rows R → LimitNode R → Result Bool × LimitNode R
  advance done n = (ok false, record n { ahead = done })
  advance (failed e) n = (err e, record n { ahead = failed e })
  advance (row r rows) n =
      let i = (n.row_index + 1) % 2 ^ 64 in
      let rest = advance rows (record n { row_index = i; at = some r }) in
      if ltb n.offset i
      then (ok true, record n { ahead = rows; at = some r; row_index = i })
      else rest

  unfoldable pub next : LimitNode R → Result Bool × LimitNode R
  next n =
      let n' = record n { iterations = (n.iterations + 1) % 2 ^ 64 } in
      if not (n.limit == 0) && leb ((n.limit + n.offset) % 2 ^ 64) n.row_index
      then (ok false, n')
      else advance n.ahead n'
