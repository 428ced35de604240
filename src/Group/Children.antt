-- ===== src/Group/Children.antt =====
-- planner/arbitrary_join.go: the children of each group are the rows of its key.
use defradg.Prelude.{
  ℕ, ◌<◌, ◌≡◌, refl, ap, sym, ◌∙◌, Bytes, Bool, true, false, ◌||◌, List, [], ◌∷◌, ◌++◌,
  append_assoc, append-nil, length, All, arith, bytes_eq, bytes_eq_iff, if◌then◌else◌, Result, ok,
  err, ◌>>=◌, Bool-cases, inl, inr,
}
use defradg.Limit.{Rows, done, row}
use defradg.Group.{
  Cell, docs, generate_key, OrderedMap, cells_of, nils, clear_child, clear_children, merge_parent,
  cell_at, append_child, merge_row, append_row, join_source, join_sources, child_indexes_of, join,
}
use defradg.Group.Cells.{
  copy_cells-keeps, clear_child-docs, length-cells_of, nils-nil, append_doc-docs, append_doc-nil,
}

module _ {V : Type 0} (nil : V) (is_nil : V → Bool) (text_of : V → Bytes) where
  abbrev pub rows_of : List (List V) → Rows (List V)
  rows_of [] = done
  rows_of (d ∷ ds) = row d (rows_of ds)

  abbrev listed : Result (Cell V) → List (List V)
  listed (ok (docs ds)) = ds
  listed _ = []

  -- The rows that the group of a key lists at an index.
  abbrev pub children_of : ℕ → Bytes → OrderedMap nil is_nil text_of → List (List V)
  children_of i k [] = []
  children_of i k ((l, cells) ∷ m) =
      if bytes_eq l k then listed (cell_at nil is_nil text_of cells i) else children_of i k m

  abbrev pub has_group : Bytes → OrderedMap nil is_nil text_of → Bool
  has_group k [] = false
  has_group k ((l, cells) ∷ m) = bytes_eq l k || has_group k m

  -- Each key has one group.
  abbrev pub Once : OrderedMap nil is_nil text_of → Type 0
  Once [] = Unit
  Once ((l, cells) ∷ m) = (has_group l m ≡ false) × Once m

  abbrev matches : Bytes → Result Bytes → Bool
  matches k (err e) = false
  matches k (ok l) = bytes_eq l k

  -- The rows of a key, in their order.
  abbrev pub having : List ℕ → Bytes → List (List V) → List (List V)
  having fs k [] = []
  having fs k (d ∷ ds) =
      let rest = having fs k ds in
      if matches k (generate_key nil is_nil text_of d fs) then d ∷ rest else rest

  abbrev pub some_has : List ℕ → Bytes → List (List V) → Bool
  some_has fs k [] = false
  some_has fs k (d ∷ ds) = matches k (generate_key nil is_nil text_of d fs) || some_has fs k ds

  module _ (nil_is : is_nil nil ≡ true) (fs : List ℕ) (w i : ℕ) (within : i < w) where
    -- A group has `w` cells, and a list at `i`.
    abbrev IsGroup : Bytes × List (Cell V) → Type 0
    IsGroup (k, cells) =
        (length cells ≡ w)
        × ((ds : List (List V)) × (cell_at nil is_nil text_of cells i ≡ ok (docs ds)))

    -- A row that has a key, and `w` values.
    abbrev pub IsRow : List V → Type 0
    IsRow d = (length d ≡ w) × ((k : Bytes) × (generate_key nil is_nil text_of d fs ≡ ok k))

    -- What a step makes of a map: for each key, the rows that are added to its group.
    record Steps (p : Result (OrderedMap nil is_nil text_of)) (m : OrderedMap nil is_nil text_of)
        (more : Bytes → List (List V)) (seen : Bytes → Bool) : Type 0 where
      after : OrderedMap nil is_nil text_of
      gives : p ≡ ok after
      groups : All IsGroup after
      children : (k : Bytes) → children_of i k after ≡ children_of i k m ++ more k
      group : (k : Bytes) → has_group k after ≡ (has_group k m || seen k)
      once : Once m → Once after

    differs : (j l : Bytes) → bytes_eq j l ≡ false → bytes_eq l j ≡ false
    differs j l t = ground (arith, bytes_eq_iff l j, bytes_eq_iff j l, t)

    new :
        (j l : Bytes) (m : OrderedMap nil is_nil text_of)
        → bytes_eq j l ≡ false
        → has_group j m ≡ false
        → (has_group j m || bytes_eq l j) ≡ false
    new j l m t o = rw (o, differs j l t) refl

    merge_parent-Steps :
        (l : Bytes) (d : List V) (m : OrderedMap nil is_nil text_of)
        → length d ≡ w
        → All IsGroup m
        → Steps (merge_parent nil is_nil text_of l (i ∷ []) d m) m (λ k. []) (bytes_eq l)
    unfolding merge_parent clear_children
    merge_parent-Steps l d [] h g =
        let (n, e) =
          clear_child-docs nil is_nil text_of i (cells_of nil is_nil text_of d)
            (omega (arith, h, within, length-cells_of nil is_nil text_of d)) in
        record {
          after = (l, clear_child nil is_nil text_of i (cells_of nil is_nil text_of d)) ∷ [];
          gives = refl;
          groups = ((omega (arith, n, h, length-cells_of nil is_nil text_of d), ([], e)), tt);
          children = λ k. rw e (ground arith);
          group = λ k. ground arith;
          once = λ o. (refl, tt);
        }
    merge_parent-Steps l d ((j, cells) ∷ m) h g = elim (Bool-cases (bytes_eq j l)) [
      | inl t ↦
          let (ds, e, n, f) =
            copy_cells-keeps nil is_nil text_of 0 i i d cells (omega arith)
              (omega (arith, h, g.0.0)) in
          let same : j ≡ l = (bytes_eq_iff j l).0 t in
          record {
            after = (j, ds) ∷ m;
            gives = rw (t, e) refl;
            groups = ((omega (arith, n, g.0.0), (g.0.1.0, f ∙ g.0.1.1)), g.1);
            children = λ k. rw f (sym (append-nil _));
            group = λ k. rw (← same) (ground arith);
            once = λ o. o;
          }
      | inr t ↦
          let s = merge_parent-Steps l d m h g.1 in
          record {
            after = (j, cells) ∷ s.after;
            gives = rw (t, s.gives) refl;
            groups = (g.0, s.groups);
            children = λ k. elim (Bool-cases (bytes_eq j k)) [
              | inl e ↦ rw e (sym (append-nil _))
              | inr e ↦ rw e (s.children k)
            ];
            group = λ k. ground (arith, s.group k);
            once = λ o. (s.group j ∙ new j l m t o.0, s.once o.1);
          }
    ]

    -- The group of another key stays.
    other :
        (j l k : Bytes)
        → bytes_eq j l ≡ false
        → bytes_eq j k ≡ true
        → (ds : List (List V)) (d : List V) → ds ≡ ds ++ (if bytes_eq l k then d ∷ [] else [])
    other j l k t e ds d =
        let same : j ≡ k = (bytes_eq_iff j k).0 e in
        let differ : bytes_eq l k ≡ false =
          ground (arith, bytes_eq_iff l k, bytes_eq_iff j l, t, same) in
        rw differ (sym (append-nil ds))

    append_child-Steps :
        (l : Bytes) (d : List V) (m : OrderedMap nil is_nil text_of)
        → All IsGroup m
        → Steps
            (append_child nil is_nil text_of w l i d m)
            m
            (λ k. if bytes_eq l k then d ∷ [] else [])
            (bytes_eq l)
    unfolding append_child
    append_child-Steps l d [] g =
        let (n, e) = nils-nil nil is_nil text_of w i within in
        let (es, f, q, c) =
          append_doc-nil nil is_nil text_of i d (nils nil is_nil text_of w) nil_is e in
        record {
          after = (l, es) ∷ [];
          gives = rw f refl;
          groups = ((omega (arith, q, n), (d ∷ [], c)), tt);
          children = λ k. rw c (ground arith);
          group = λ k. ground arith;
          once = λ o. (refl, tt);
        }
    append_child-Steps l d ((j, cells) ∷ m) g = elim (Bool-cases (bytes_eq j l)) [
      | inl t ↦
          let (es, f, q, c) = append_doc-docs nil is_nil text_of i d g.0.1.0 cells g.0.1.1 in
          let same : j ≡ l = (bytes_eq_iff j l).0 t in
          record {
            after = (j, es) ∷ m;
            gives = rw (t, f) refl;
            groups = ((omega (arith, q, g.0.0), (g.0.1.0 ++ (d ∷ []), c)), g.1);
            children = λ k.
                rw (← same, c, g.0.1.1)
                  elim (Bool-cases (bytes_eq j k)) [
                    | inl e ↦ rw e refl
                    | inr e ↦ rw e (sym (append-nil _))
                  ];
            group = λ k. rw (← same) (ground arith);
            once = λ o. o;
          }
      | inr t ↦
          let s = append_child-Steps l d m g.1 in
          record {
            after = (j, cells) ∷ s.after;
            gives = rw (t, s.gives) refl;
            groups = (g.0, s.groups);
            children = λ k. elim (Bool-cases (bytes_eq j k)) [
              | inl e ↦ rw e (other j l k t e (listed (cell_at nil is_nil text_of cells i)) d)
              | inr e ↦ rw e (s.children k)
            ];
            group = λ k. ground (arith, s.group k);
            once = λ o. (s.group j ∙ new j l m t o.0, s.once o.1);
          }
    ]

    having-cons :
        (k : Bytes) (c : List V) (cs : List (List V))
        → having fs k (c ∷ []) ++ having fs k cs ≡ having fs k (c ∷ cs)
    having-cons k c cs = ground arith

    recast :
        {p : Result (OrderedMap nil is_nil text_of)} {m : OrderedMap nil is_nil text_of}
        {more more' : Bytes → List (List V)} {seen seen' : Bytes → Bool}
        → ((k : Bytes) → more k ≡ more' k)
        → ((k : Bytes) → seen k ≡ seen' k)
        → Steps p m more seen
        → Steps p m more' seen'
    recast {m} f g s = record {
      after = s.after;
      gives = s.gives;
      groups = s.groups;
      children = λ k. s.children k ∙ ap (λ ds. children_of i k m ++ ds) (f k);
      once = s.once;
      group = λ k. s.group k ∙ ap (λ b. has_group k m || b) (g k);
    }

    followed :
        {p : Result (OrderedMap nil is_nil text_of)} {m : OrderedMap nil is_nil text_of}
        {more more' : Bytes → List (List V)} {seen seen' : Bytes → Bool}
        (q : OrderedMap nil is_nil text_of → Result (OrderedMap nil is_nil text_of))
        (s : Steps p m more seen)
        → Steps (q s.after) s.after more' seen'
        → Steps (p >>= q) m (λ k. more k ++ more' k) (λ k. seen k || seen' k)
    followed {m} {more} {more'} q s t = record {
      after = t.after;
      gives = rw s.gives t.gives;
      groups = t.groups;
      children = λ k.
          t.children k
          ∙ (ap (λ ds. ds ++ more' k) (s.children k)
              ∙ append_assoc (children_of i k m) (more k) (more' k));
      group = λ k. ground (arith, s.group k, t.group k);
      once = λ o. t.once (s.once o);
    }

    merge_row-Steps :
        (d : List V) (m : OrderedMap nil is_nil text_of)
        → IsRow d
        → All IsGroup m
        → Steps
            (merge_row nil is_nil text_of fs w (i ∷ []) d m)
            m
            (λ k. [])
            (λ k. matches k (generate_key nil is_nil text_of d fs))
    unfolding merge_row
    merge_row-Steps d m r g = rw r.1.1 (merge_parent-Steps r.1.0 d m r.0 g)

    append_row-Steps :
        (d : List V) (m : OrderedMap nil is_nil text_of)
        → IsRow d
        → All IsGroup m
        → Steps
            (append_row nil is_nil text_of fs w (i ∷ []) i d m)
            m
            (λ k. having fs k (d ∷ []))
            (λ k. matches k (generate_key nil is_nil text_of d fs))
    unfolding append_row
    append_row-Steps d m r g = rw r.1.1 (append_child-Steps r.1.0 d m g)

    abbrev joined :
        List (List V)
        → List (List V)
        → OrderedMap nil is_nil text_of
        → Result (OrderedMap nil is_nil text_of)
    joined ps cs m = join_source nil is_nil text_of fs w (i ∷ []) i (rows_of ps) (rows_of cs) m

    join_source-Steps :
        (ps cs : List (List V)) (m : OrderedMap nil is_nil text_of)
        → All IsRow ps
        → All IsRow cs
        → All IsGroup m
        → Steps (joined ps cs m) m (λ k. having fs k cs) (λ k. some_has fs k ps || some_has fs k cs)
    unfolding join_source
    join_source-Steps [] [] m h j g = record {
      after = m;
      gives = refl;
      groups = g;
      children = λ k. sym (append-nil _);
      group = λ k. ground arith;
      once = λ o. o;
    }
    join_source-Steps [] (c ∷ cs) m h j g =
        let s = append_row-Steps c m j.0 g in
        recast (λ k. having-cons k c cs) (λ k. refl)
          (followed (λ n. joined [] cs n) s (join_source-Steps [] cs s.after h j.1 s.groups))
    join_source-Steps (p ∷ ps) [] m h j g =
        let s = merge_row-Steps p m h.0 g in
        recast (λ k. refl) (λ k. ground arith)
          (followed (λ n. joined ps [] n) s (join_source-Steps ps [] s.after h.1 j s.groups))
    join_source-Steps (p ∷ ps) (c ∷ cs) m h j g =
        let s = merge_row-Steps p m h.0 g in
        let t = append_row-Steps c s.after j.0 s.groups in
        recast (λ k. having-cons k c cs) (λ k. ground arith)
          (followed
            (λ n. append_row nil is_nil text_of fs w (i ∷ []) i c n >>= (λ o. joined ps cs o)) s
            (followed (λ o. joined ps cs o) t (join_source-Steps ps cs t.after h.1 j.1 t.groups)))

    -- Where the test for nil holds of nil, of rows of a group's width, each with all its key fields, and a
    -- child index below the width: a join of one source gives one group for each key that a parent or a
    -- child row has, and for no other, and the group lists, at the child index, the child rows with that
    -- key, in their order.
    pub join-groups :
        (ps cs : List (List V))
        → All IsRow ps
        → All IsRow cs
        → (m : OrderedMap nil is_nil text_of) × (join nil is_nil text_of fs w
              ((i, rows_of ps, rows_of cs) ∷ [])
            ≡ ok m)
          × Once m
          × ((k : Bytes)
              → (children_of i k m ≡ having fs k cs)
                × (has_group k m ≡ (some_has fs k ps || some_has fs k cs)))
    unfolding join join_sources child_indexes_of
    join-groups ps cs h j =
        let s = join_source-Steps ps cs [] h j tt in
        (s.after, rw s.gives refl, s.once tt, λ k. (s.children k, s.group k))
