-- ===== src/Group/Readers.antt =====
-- planner/pipe.go and planner/arbitrary_join.go: two readers of a pipe.
use defradg.Prelude.{
  ℕ, zero, suc, ◌≡◌, refl, ap, ◌∙◌, Bool, true, false, Option, none, some, List, [], ◌∷◌, ◌++◌,
  length, arith, leb, Result, ok, err, Bool-cases, inl, inr,
}
use defradg.Limit.{Rows, done, failed, row}
use defradg.Group.Pipe.{
  PipeNode, new_pipe_node, at, load, give, pipe_next, Places, next_parent, next_child,
}

-- The reads of a reader.
abbrev pub count : Bool → List Bool → ℕ
count b [] = 0
count true (true ∷ bs) = suc (count true bs)
count true (false ∷ bs) = count true bs
count false (true ∷ bs) = count false bs
count false (false ∷ bs) = suc (count false bs)

module _ {R : Type 0} where
  -- What a plan of some rows gives next, and what is ahead of it then.
  abbrev pub head : Rows R → Result (Option R)
  head done = ok none
  head (failed e) = err e
  head (row r rs) = ok (some r)

  abbrev pub tail : Rows R → Rows R
  tail done = done
  tail (failed e) = failed e
  tail (row r rs) = rs

  -- Some reads of a plan, one after another.
  abbrev pub reads : ℕ → Rows R → List (Result (Option R))
  reads zero rs = []
  reads (suc k) rs = head rs ∷ reads k (tail rs)

  -- Reads by two readers of a pipe in some order: by the parents' where it says true, else the children's.
  abbrev pub run : List Bool → Places → PipeNode R → List (Bool × Result (Option R))
  run [] s n = []
  run (true ∷ bs) s n = let (r, (t, m)) = next_parent s n in (true, r) ∷ run bs t m
  run (false ∷ bs) s n = let (r, (t, m)) = next_child s n in (false, r) ∷ run bs t m

  abbrev pub of_reader : Bool → List (Bool × Result (Option R)) → List (Result (Option R))
  of_reader b [] = []
  of_reader true ((true, r) ∷ rs) = r ∷ of_reader true rs
  of_reader true ((false, r) ∷ rs) = of_reader true rs
  of_reader false ((true, r) ∷ rs) = of_reader false rs
  of_reader false ((false, r) ∷ rs) = r ∷ of_reader false rs

  abbrev from : ℕ → Rows R → Rows R
  from zero rs = rs
  from (suc i) rs = tail (from i rs)

  abbrev prepend : List R → Rows R → Rows R
  prepend [] rs = rs
  prepend (d ∷ ds) rs = row d (prepend ds rs)

  from-row : (i : ℕ) (d : R) (rs : Rows R) → from (suc i) (row d rs) ≡ from i rs
  from-row zero d rs = refl
  from-row (suc i) d rs = ap tail (from-row i d rs)

  prepend-snoc :
      (ds : List R) (r : R) (rs : Rows R) → prepend (ds ++ (r ∷ [])) rs ≡ prepend ds (row r rs)
  prepend-snoc [] r rs = refl
  prepend-snoc (d ∷ ds) r rs = ap (row d) (prepend-snoc ds r rs)

  from-kept :
      (i : ℕ) (ds : List R) (rs : Rows R)
      → leb (length ds) i ≡ false
      → (r : R) × (at ds i ≡ ok r) × (head (from i (prepend ds rs)) ≡ ok (some r))
  unfolding at
  from-kept i [] rs h = absurd (ground (arith, h))
  from-kept zero (d ∷ ds) rs h = (d, refl, refl)
  from-kept (suc i) (d ∷ ds) rs h =
      let (r, e, f) = from-kept i ds rs (ground (arith, h)) in
      (r, e, ap head (from-row i d (prepend ds rs)) ∙ f)

  -- The end of a plan stays.
  from-end :
      (i : ℕ) (ds : List R) (rs : Rows R)
      → tail rs ≡ rs
      → leb (length ds) i ≡ true
      → from i (prepend ds rs) ≡ rs
  from-end zero [] rs t h = refl
  from-end (suc i) [] rs t h = rw (from-end i [] rs t (ground arith)) t
  from-end zero (d ∷ ds) rs t h = absurd (ground (arith, h))
  from-end (suc i) (d ∷ ds) rs t h =
      from-row i d (prepend ds rs) ∙ from-end i ds rs t (ground (arith, h))

  -- What a read of a pipe at an index gives, of a plan.
  record Given (i : ℕ) (whole : Rows R) (p : Result (Option R) × PipeNode R) : Type 0 where
    gives : p.0 ≡ head (from i whole)
    keeps : prepend p.1.rows p.1.source ≡ whole
    moves : from p.1.doc_index whole ≡ tail (from i whole)

  kept-Given :
      (i : ℕ) (ds : List R) (rs : Rows R)
      → leb (length ds) i ≡ false
      → Given i (prepend ds rs) (give i (ok true, (ds, rs)))
  unfolding give
  kept-Given i ds rs h =
      let (r, e, f) = from-kept i ds rs h in
      record { gives = rw (e, f) refl; keeps = refl; moves = refl }

  load-Given : (i : ℕ) (ds : List R) (rs : Rows R) → Given i (prepend ds rs) (give i (load i ds rs))
  unfolding load give
  load-Given i ds done = elim (Bool-cases (leb (length ds) i)) [
    | inl t ↦
        let e : from i (prepend ds done) ≡ done = from-end i ds done refl t in
        rw t record { gives = rw e refl; keeps = refl; moves = rw e refl }
    | inr t ↦ rw t (kept-Given i ds done t)
  ]
  load-Given i ds (failed e) = elim (Bool-cases (leb (length ds) i)) [
    | inl t ↦
        let f : from i (prepend ds (failed e)) ≡ failed e = from-end i ds (failed e) refl t in
        rw t record { gives = rw f refl; keeps = refl; moves = rw f refl }
    | inr t ↦ rw t (kept-Given i ds (failed e) t)
  ]
  load-Given i ds (row r rs) = elim (Bool-cases (leb (length ds) i)) [
    | inl t ↦ rw (t, ← prepend-snoc ds r rs) (load-Given i (ds ++ (r ∷ [])) rs)
    | inr t ↦ rw t (kept-Given i ds (row r rs) t)
  ]

  pipe_next-Given :
      (i : ℕ) (n : PipeNode R) (whole : Rows R)
      → prepend n.rows n.source ≡ whole
      → Given i whole (pipe_next (record n { doc_index = i }))
  unfolding pipe_next
  pipe_next-Given i n whole h = rw (← h) (load-Given i n.rows n.source)

  run-reads_from :
      (bs : List Bool) (s : Places) (n : PipeNode R) (whole : Rows R)
      → prepend n.rows n.source ≡ whole
      → (of_reader true (run bs s n) ≡ reads (count true bs) (from s.last_parent whole))
        × (of_reader false (run bs s n) ≡ reads (count false bs) (from s.last_child whole))
  unfolding next_parent next_child
  run-reads_from [] s n whole h = (refl, refl)
  run-reads_from (true ∷ bs) s n whole h =
      let (r, (t, m)) = next_parent s n in
      let g = pipe_next-Given s.last_parent n whole h in
      let (p, c) = run-reads_from bs t m whole g.keeps in (rw (g.gives, p, g.moves) refl, c)
  run-reads_from (false ∷ bs) s n whole h =
      let (r, (t, m)) = next_child s n in
      let g = pipe_next-Given s.last_child n whole h in
      let (p, c) = run-reads_from bs t m whole g.keeps in (p, rw (g.gives, c, g.moves) refl)

  -- In whatever order two readers of a new pipe take turns, each is given what the same number of reads of
  -- the plan below gives: its rows from the first on, and then its end, or its failure, at every read.
  pub run-reads :
      (bs : List Bool) (rs : Rows R)
      → (of_reader true (run bs (record { last_parent = 0; last_child = 0 }) (new_pipe_node rs))
          ≡ reads (count true bs) rs)
        × (of_reader false (run bs (record { last_parent = 0; last_child = 0 }) (new_pipe_node rs))
            ≡ reads (count false bs) rs)
  unfolding new_pipe_node
  run-reads bs rs =
      run-reads_from bs (record { last_parent = 0; last_child = 0 }) (new_pipe_node rs) rs refl
