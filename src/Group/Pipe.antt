-- ===== src/Group/Pipe.antt =====
-- planner/pipe.go: the node that keeps the rows of a plan for those that read them more than once, and, of
-- planner/arbitrary_join.go, the places of its readers. A row is the fields of a document, of which the pipe
-- gives a copy; Hidden and Status, which Clone leaves out of the copy, are no part of it. The index of the
-- current row, which starts at -1, is kept as one more.
use defradg.Prelude.{
  ℕ, zero, suc, Bool, true, false, Option, none, some, List, [], ◌∷◌, ◌++◌, length, leb,
  if◌then◌else◌, Result, ok, err, panic, ◌>>=◌,
}
use defradg.Limit.{Rows, done, failed, row}

pub record PipeNode (R : Type 0) : Type 0 where
  pub source : Rows R
  pub rows : List R
  pub doc_index : ℕ

-- `lastParentDocIndex` and `lastChildDocIndex`, each one more than in the code.
pub record Places : Type 0 where
  pub last_parent : ℕ
  pub last_child : ℕ

module _ {R : Type 0} where
  unfoldable pub new_pipe_node : Rows R → PipeNode R
  new_pipe_node rs = record { source = rs; rows = []; doc_index = 0 }

  -- `n.docs.At(i)`
  unfoldable pub at : List R → ℕ → Result R
  at [] i = err panic
  at (r ∷ rs) zero = ok r
  at (r ∷ rs) (suc i) = at rs i

  -- The loop of Next: rows are kept until there is one behind the index.
  unfoldable pub load : ℕ → List R → Rows R → Result Bool × (List R × Rows R)
  load i ds done = (ok (if leb (length ds) i then false else true), (ds, done))
  load i ds (failed e) =
      if leb (length ds) i then (err e, (ds, failed e)) else (ok true, (ds, failed e))
  load i ds (row r rs) =
      let rest = load i (ds ++ (r ∷ [])) rs in
      if leb (length ds) i then rest else (ok true, (ds, row r rs))

  -- The end of Next, behind the loop: the row that Value is, or none at the end.
  unfoldable pub give : ℕ → Result Bool × (List R × Rows R) → Result (Option R) × PipeNode R
  give i (err e, (ds, rs)) = (err e, record { source = rs; rows = ds; doc_index = i })
  give i (ok false, (ds, rs)) = (ok none, record { source = rs; rows = ds; doc_index = i })
  give i (ok true, (ds, rs)) =
      (at ds i >>= (λ r. ok (some r)), record { source = rs; rows = ds; doc_index = suc i })

  unfoldable pub pipe_next : PipeNode R → Result (Option R) × PipeNode R
  pipe_next n = give n.doc_index (load n.doc_index n.rows n.source)

  -- The start of a source's mergeParent and appendChild, where the plan it reads is the pipe.
  unfoldable pub next_parent : Places → PipeNode R → Result (Option R) × (Places × PipeNode R)
  next_parent s n =
      let (r, m) = pipe_next (record n { doc_index = s.last_parent }) in
      (r, (record s { last_parent = m.doc_index }, m))

  unfoldable pub next_child : Places → PipeNode R → Result (Option R) × (Places × PipeNode R)
  next_child s n =
      let (r, m) = pipe_next (record n { doc_index = s.last_child }) in
      (r, (record s { last_child = m.doc_index }, m))
