-- ===== src/Group/Cells.antt =====
-- planner/arbitrary_join.go: reads and writes of the cells of a group.
use defradg.Prelude.{
  ℕ, zero, suc, ◌+◌, ◌<◌, ◌≡◌, refl, ap, Bytes, Bool, true, List, [], ◌∷◌, ◌++◌, length, arith,
  if◌then◌else◌, ok,
}
use defradg.Group.{
  Cell, value, docs, set_cell, is_child, copy_cells, cells_of, nils, clear_child, cell_at,
  append_doc,
}

module _ {V : Type 0} (nil : V) (is_nil : V → Bool) (text_of : V → Bytes) where
  copy_cells-length :
      (s : ℕ) (js : List ℕ) (vs : List V) (cells : List (Cell V))
      → length vs ≡ length cells
      → (ds : List (Cell V)) × (copy_cells nil is_nil text_of s js vs cells ≡ ok ds)
        × (length ds ≡ length cells)
  unfolding copy_cells
  copy_cells-length s js [] cells h = (cells, refl, refl)
  copy_cells-length s js (v ∷ vs) [] h = absurd (omega (arith, h))
  copy_cells-length s js (v ∷ vs) (c ∷ cells) h =
      let (ds, e, l) = copy_cells-length (suc s) js vs cells (omega (arith, h)) in
      ((if is_child nil is_nil text_of s js then c else value v) ∷ ds, rw e refl, omega (arith, l))

  pub copy_cells-keeps :
      (s i t : ℕ) (vs : List V) (cells : List (Cell V))
      → t ≡ s + i
      → length vs ≡ length cells
      → (ds : List (Cell V)) × (copy_cells nil is_nil text_of s (t ∷ []) vs cells ≡ ok ds)
        × (length ds ≡ length cells)
        × (cell_at nil is_nil text_of ds i ≡ cell_at nil is_nil text_of cells i)
  unfolding copy_cells cell_at is_child
  copy_cells-keeps s i t [] cells e h = (cells, refl, refl, refl)
  copy_cells-keeps s i t (v ∷ vs) [] e h = absurd (omega (arith, h))
  copy_cells-keeps s zero t (v ∷ vs) (c ∷ cells) e h =
      let (ds, f, l) = copy_cells-length (suc s) (t ∷ []) vs cells (omega (arith, h)) in
      (c ∷ ds, rw f (ground (arith, e)), omega (arith, l), refl)
  copy_cells-keeps s (suc i) t (v ∷ vs) (c ∷ cells) e h =
      let (ds, f, l, g) =
        copy_cells-keeps (suc s) i t vs cells (omega (arith, e)) (omega (arith, h)) in
      (value v ∷ ds, rw f (ground (arith, e)), omega (arith, l), g)

  pub clear_child-docs :
      (i : ℕ) (cells : List (Cell V))
      → i < length cells
      → (length (clear_child nil is_nil text_of i cells) ≡ length cells)
        × (cell_at nil is_nil text_of (clear_child nil is_nil text_of i cells) i ≡ ok (docs []))
  unfolding clear_child cell_at
  clear_child-docs i [] h = absurd (omega (arith, h))
  clear_child-docs zero (c ∷ cells) h = (refl, refl)
  clear_child-docs (suc i) (c ∷ cells) h =
      let (l, e) = clear_child-docs i cells (omega (arith, h)) in (omega (arith, l), e)

  pub length-cells_of : (vs : List V) → length (cells_of nil is_nil text_of vs) ≡ length vs
  unfolding cells_of
  length-cells_of [] = refl
  length-cells_of (v ∷ vs) = ap suc (length-cells_of vs)

  pub nils-nil :
      (w i : ℕ)
      → i < w
      → (length (nils nil is_nil text_of w) ≡ w)
        × (cell_at nil is_nil text_of (nils nil is_nil text_of w) i ≡ ok (value nil))
  unfolding nils cell_at
  nils-nil zero i h = absurd (omega (arith, h))
  nils-nil (suc w) zero h = (ap suc (length-nils w), refl)
    where
      length-nils : (n : ℕ) → length (nils nil is_nil text_of n) ≡ n
      length-nils zero = refl
      length-nils (suc n) = ap suc (length-nils n)
  nils-nil (suc w) (suc i) h = let (l, e) = nils-nil w i (omega (arith, h)) in (omega (arith, l), e)

  pub set_cell-cell_at :
      (i : ℕ) (c d : Cell V) (cells : List (Cell V))
      → cell_at nil is_nil text_of cells i ≡ ok d
      → (es : List (Cell V)) × (set_cell nil is_nil text_of i c cells ≡ ok es)
        × (length es ≡ length cells)
        × (cell_at nil is_nil text_of es i ≡ ok c)
  unfolding set_cell cell_at
  set_cell-cell_at i c d [] h = cc h
  set_cell-cell_at zero c d (x ∷ cells) h = (c ∷ cells, refl, refl, refl)
  set_cell-cell_at (suc i) c d (x ∷ cells) h =
      let (es, e, l, f) = set_cell-cell_at i c d cells h in (x ∷ es, rw e refl, omega (arith, l), f)

  -- A child goes behind those that are there, or is the first.
  pub append_doc-docs :
      (i : ℕ) (doc : List V) (ds : List (List V)) (cells : List (Cell V))
      → cell_at nil is_nil text_of cells i ≡ ok (docs ds)
      → (es : List (Cell V)) × (append_doc nil is_nil text_of i doc cells ≡ ok es)
        × (length es ≡ length cells)
        × (cell_at nil is_nil text_of es i ≡ ok (docs (ds ++ (doc ∷ []))))
  unfolding append_doc
  append_doc-docs i doc ds cells h =
      let (es, e, l, f) = set_cell-cell_at i (docs (ds ++ (doc ∷ []))) (docs ds) cells h in
      (es, rw (h, e) refl, l, f)

  pub append_doc-nil :
      (i : ℕ) (doc : List V) (cells : List (Cell V))
      → is_nil nil ≡ true
      → cell_at nil is_nil text_of cells i ≡ ok (value nil)
      → (es : List (Cell V)) × (append_doc nil is_nil text_of i doc cells ≡ ok es)
        × (length es ≡ length cells)
        × (cell_at nil is_nil text_of es i ≡ ok (docs (doc ∷ [])))
  unfolding append_doc
  append_doc-nil i doc cells n h =
      let (es, e, l, f) = set_cell-cell_at i (docs (doc ∷ [])) (value nil) cells h in
      (es, rw (h, n, e) refl, l, f)
