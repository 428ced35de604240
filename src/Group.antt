-- ===== src/Group.antt =====
-- planner/arbitrary_join.go: the groups of a group node. A value of a row is any, with the text that
-- fmt's %v gives it; a row of a group holds lists of child rows besides. A plan is the sequence of its
-- results, and a source that is nil one without rows.
pub mod Cells
pub mod Children
pub mod Keys
pub mod Pipe
pub mod Readers
pub mod Tests
use defradg.Prelude.{
  ℕ, zero, suc, ◌+◌, Bytes, Bool, true, false, ◌||◌, List, [], ◌∷◌, ◌++◌, length, ◌==◌, leb,
  bytes_eq, if◌then◌else◌, Result, ok, err, panic, ◌>>=◌,
}
use defradg.Prelude.Decimal.{sprint}
use defradg.Limit.{Rows, done, failed, row}

pub data Cell (V : Type 0) : Type 0 where
  value : V → Cell V
  docs : List (List V) → Cell V

abbrev pub underscore : Bytes
underscore = 95 ∷ []

module _ {V : Type 0} (nil : V) (is_nil : V → Bool) (text_of : V → Bytes) where
  -- `doc.Fields[i]`
  unfoldable pub field_at : List V → ℕ → Result V
  field_at [] i = err panic
  field_at (v ∷ vs) zero = ok v
  field_at (v ∷ vs) (suc i) = field_at vs i

  -- `%d` of an index, and `_%v_` of its value.
  unfoldable pub generate_key : List V → List ℕ → Result Bytes
  generate_key doc [] = ok []
  generate_key doc (i ∷ is) = do
    v ← field_at doc i
    rest ← generate_key doc is
    ok (sprint i ++ (underscore ++ (text_of v ++ (underscore ++ rest))))

  -- The values in their order, each with its key in `indexesByKey`.
  abbrev pub OrderedMap : Type 0
  OrderedMap = List (Bytes × List (Cell V))

  -- `cells[i] = c`
  unfoldable pub set_cell : ℕ → Cell V → List (Cell V) → Result (List (Cell V))
  set_cell i c [] = err panic
  set_cell zero c (x ∷ xs) = ok (c ∷ xs)
  set_cell (suc i) c (x ∷ xs) = set_cell i c xs >>= (λ ys. ok (x ∷ ys))

  unfoldable pub is_child : ℕ → List ℕ → Bool
  is_child i [] = false
  is_child i (j ∷ js) = i == j || is_child i js

  -- The loop of mergeParent over the fields, from an index on.
  unfoldable pub copy_cells : ℕ → List ℕ → List V → List (Cell V) → Result (List (Cell V))
  copy_cells i js [] existing = ok existing
  copy_cells i js (v ∷ vs) [] = if is_child i js then copy_cells (suc i) js vs [] else err panic
  copy_cells i js (v ∷ vs) (c ∷ cs) =
      copy_cells (suc i) js vs cs >>= (λ ds. ok ((if is_child i js then c else value v) ∷ ds))

  unfoldable pub cells_of : List V → List (Cell V)
  cells_of [] = []
  cells_of (v ∷ vs) = value v ∷ cells_of vs

  unfoldable pub nils : ℕ → List (Cell V)
  nils zero = []
  nils (suc n) = value nil ∷ nils n

  -- `value.Fields[childAddress] = []core.Doc{}`, with the slice extended where it is too short.
  unfoldable pub clear_child : ℕ → List (Cell V) → List (Cell V)
  clear_child zero [] = docs [] ∷ []
  clear_child zero (c ∷ cs) = docs [] ∷ cs
  clear_child (suc i) [] = value nil ∷ clear_child i []
  clear_child (suc i) (c ∷ cs) = c ∷ clear_child i cs

  unfoldable pub clear_children : List ℕ → List (Cell V) → List (Cell V)
  clear_children [] cs = cs
  clear_children (i ∷ is) cs = clear_children is (clear_child i cs)

  -- orderedMap.mergeParent
  unfoldable pub merge_parent : Bytes → List ℕ → List V → OrderedMap → Result OrderedMap
  merge_parent k js doc [] = ok ((k, clear_children js (cells_of doc)) ∷ [])
  merge_parent k js doc ((l, cells) ∷ m) =
      let rest = merge_parent k js doc m in
      if bytes_eq l k
      then copy_cells 0 js doc cells >>= (λ ds. ok ((l, ds) ∷ m))
      else rest >>= (λ m'. ok ((l, cells) ∷ m'))

  unfoldable pub cell_at : List (Cell V) → ℕ → Result (Cell V)
  cell_at [] i = err panic
  cell_at (c ∷ cs) zero = ok c
  cell_at (c ∷ cs) (suc i) = cell_at cs i

  -- A value that is no list of documents and not nil panics.
  abbrev appended : List V → Cell V → Result (Cell V)
  appended doc (docs ds) = ok (docs (ds ++ (doc ∷ [])))
  appended doc (value v) = if is_nil v then ok (docs (doc ∷ [])) else err panic

  unfoldable pub append_doc : ℕ → List V → List (Cell V) → Result (List (Cell V))
  append_doc i doc cells = do c ← cell_at cells i; d ← appended doc c; set_cell i d cells

  -- orderedMap.appendChild; a new document has `width` fields.
  unfoldable pub append_child : ℕ → Bytes → ℕ → List V → OrderedMap → Result OrderedMap
  append_child width k i doc [] = append_doc i doc (nils width) >>= (λ ds. ok ((k, ds) ∷ []))
  append_child width k i doc ((l, cells) ∷ m) =
      let rest = append_child width k i doc m in
      if bytes_eq l k
      then append_doc i doc cells >>= (λ ds. ok ((l, ds) ∷ m))
      else rest >>= (λ m'. ok ((l, cells) ∷ m'))

  module _ (key_fields : List ℕ) (width : ℕ) (child_indexes : List ℕ) where
    -- dataSource.mergeParent and appendChild, of a row that Next gives.
    unfoldable pub merge_row : List V → OrderedMap → Result OrderedMap
    merge_row doc m = generate_key doc key_fields >>= (λ k. merge_parent k child_indexes doc m)

    unfoldable pub append_row : ℕ → List V → OrderedMap → Result OrderedMap
    append_row i doc m = generate_key doc key_fields >>= (λ k. append_child width k i doc m)

    -- The inner loop of join: a row of the parent, and one of the child, while there are some.
    unfoldable pub join_source : ℕ → Rows (List V) → Rows (List V) → OrderedMap → Result OrderedMap
    join_source i (failed e) cs m = err e
    join_source i done done m = ok m
    join_source i done (failed e) m = err e
    join_source i done (row c cs) m = append_row i c m >>= (λ n. join_source i done cs n)
    join_source i (row p ps) done m = merge_row p m >>= (λ n. join_source i ps done n)
    join_source i (row p ps) (failed e) m = merge_row p m >>= (λ n. err e)
    join_source i (row p ps) (row c cs) m =
        merge_row p m >>= (λ n. append_row i c n >>= (λ o. join_source i ps cs o))

    -- The loop of join over the sources.
    unfoldable pub join_sources :
        List (ℕ × Rows (List V) × Rows (List V)) → OrderedMap → Result OrderedMap
    join_sources [] m = ok m
    join_sources ((i, ps, cs) ∷ ss) m = join_source i ps cs m >>= (λ n. join_sources ss n)

  unfoldable pub child_indexes_of : List (ℕ × Rows (List V) × Rows (List V)) → List ℕ
  child_indexes_of [] = []
  child_indexes_of ((i, ps, cs) ∷ ss) = i ∷ child_indexes_of ss

  -- Sources, each with its child index, its parents and its children.
  unfoldable pub join : List ℕ → ℕ → List (ℕ × Rows (List V) × Rows (List V)) → Result OrderedMap
  join key_fields width ss = join_sources key_fields width (child_indexes_of ss) ss []
