-- ===== src/DagScan/Reached.antt =====
-- planner/commit.go: a scan without a limit visits what can be reached, once.
use defradg.Prelude.{
  ℕ, zero, suc, ◌+◌, ◌<◌, ◌≤◌, ◌≡◌, refl, ap, ◌∙◌, Bytes, true, false, ◌||◌, List, [], ◌∷◌, ◌++◌,
  reverse, map, none, arith, bytes_eq, bytes_eq_iff, length, length-append, if◌then◌else◌, Result,
  ok, Bool-cases, inl, inr,
}
use mathlib.Core.Bool.{false≢true}
use mathlib.Core.List.{reverse-cons}
use defradg.DagScan.{
  has, CommitSelect, DagScanNode, dag_scan, scanned, head_links, visit, next, scan,
}

has-append : (c : Bytes) (xs ys : List Bytes) → has c (xs ++ ys) ≡ (has c xs || has c ys)
unfolding has
has-append c [] ys = refl
has-append c (x ∷ xs) ys = ground (arith, has-append c xs ys)

has-reverse : (c : Bytes) (xs : List Bytes) → has c (reverse xs) ≡ has c xs
unfolding has
has-reverse c [] = refl
has-reverse c (x ∷ xs) =
    ap (has c) (reverse-cons x xs)
    ∙ (has-append c (reverse xs) (x ∷ []) ∙ ground (arith, has-reverse c xs))

length-reverse : (xs : List Bytes) → length (reverse xs) ≡ length xs
length-reverse [] = refl
length-reverse (x ∷ xs) =
    ap length (reverse-cons x xs)
    ∙ omega (arith, length-append (reverse xs) (x ∷ []), length-reverse xs)

-- No Cid twice, and none of those that have been visited.
abbrev pub Fresh : List Bytes → List Bytes → Type 0
Fresh seen [] = Unit
Fresh seen (c ∷ cs) = (has c seen ≡ false) × Fresh (c ∷ seen) cs

abbrev pub oks : List Bytes → List (Result Bytes)
oks [] = []
oks (c ∷ cs) = ok c ∷ oks cs

-- The steps that blocks which are not visited may still take.
abbrev pub weight : (Bytes → List Bytes) → List Bytes → List Bytes → ℕ
weight heads seen [] = 0
weight heads seen (u ∷ us) =
    (if has u seen then 0 else suc (length (heads u))) + weight heads seen us

weight-le :
    (heads : Bytes → List Bytes) (c : Bytes) (seen us : List Bytes)
    → weight heads (c ∷ seen) us ≤ weight heads seen us
unfolding has
weight-le heads c seen [] = omega arith
weight-le heads c seen (u ∷ us) = ground (arith, weight-le heads c seen us)

weight-lt :
    (heads : Bytes → List Bytes) (c : Bytes) (seen us : List Bytes)
    → has c us ≡ true
    → has c seen ≡ false
    → weight heads (c ∷ seen) us + suc (length (heads c)) ≤ weight heads seen us
unfolding has
weight-lt heads c seen [] h n = cc
weight-lt heads c seen (u ∷ us) h n = elim (Bool-cases (bytes_eq u c)) [
  | inl e ↦
      let same : u ≡ c = (bytes_eq_iff u c).0 e in
      let self : bytes_eq c c ≡ true = (bytes_eq_iff c c).1 refl in
      rw (same, self, n) (omega (arith, weight-le heads c seen us))
  | inr e ↦
      let more : has c us ≡ true = ground arith in
      let ih = weight-lt heads c seen us more n in ground (arith, ih)
]

-- Every commit is asked for.
abbrev pub all_commits : CommitSelect
all_commits = record { depth = none; cid = none }

abbrev node : ℕ → List Bytes → List Bytes → List Bytes → DagScanNode
node d v q f = record { depth_visited = d; visited_nodes = v; queued_cids = q; fetched = oks f }

module _ {Commit : Type 0} (read_block : Bytes → Result (Commit × List (Bytes × Bytes)))
    (commit : Bytes → Commit) (links : Bytes → List (Bytes × Bytes)) (known : List Bytes)
    (stored : (c : Bytes) → has c known ≡ true → read_block c ≡ ok (commit c, links c)) where
  abbrev pub heads : Bytes → List Bytes
  heads c = head_links (links c)

  -- What a scan gives from where some Cids have been visited and others are at hand.
  pub record Scanned (p : Result (List Commit)) (seen queued fetched : List Bytes) : Type 0 where
    pub cids : List Bytes
    pub gives : p ≡ ok (map commit cids)
    pub fresh : Fresh seen cids
    pub covers :
        (x : Bytes) → (has x queued || has x fetched) ≡ true → (has x cids || has x seen) ≡ true
    pub closed :
        (c x : Bytes)
        → has c cids ≡ true
        → has x (heads c) ≡ true
        → (has x cids || has x seen) ≡ true
    pub within : (x : Bytes) → has x cids ≡ true → has x known ≡ true

  skipped :
      (n d : ℕ) (c : Bytes) (v q f : List Bytes)
      → has c v ≡ true
      → Scanned (scan read_block all_commits n (node d v q f)) v q f
      → Scanned
          (scanned read_block all_commits
            (scan read_block all_commits n)
            (visit read_block all_commits c (node d v q f)))
          v
          (c ∷ q)
          f
  unfolding visit has
  skipped n d c v q f h s = record {
    cids = s.cids;
    gives = rw h s.gives;
    fresh = s.fresh;
    covers = λ x g. covered x g;
    closed = s.closed;
    within = s.within;
  }
    where
      covered : (x : Bytes) → (has x (c ∷ q) || has x f) ≡ true → (has x s.cids || has x v) ≡ true
      covered x g = elim (Bool-cases (bytes_eq c x)) [
        | inl e ↦
            let same : c ≡ x = (bytes_eq_iff c x).0 e in
            let here : has x v ≡ true = rw (← same) h in ground (arith, here)
        | inr e ↦ let there : (has x q || has x f) ≡ true = ground (arith, g, e) in s.covers x there
      ]

  taken :
      (n d : ℕ) (c : Bytes) (v q f : List Bytes)
      → has c v ≡ false
      → has c known ≡ true
      → Scanned
          (scan read_block all_commits n (node (suc d) (c ∷ v) (reverse (heads c) ++ q) f))
          (c ∷ v)
          (reverse (heads c) ++ q)
          f
      → Scanned
          (scanned read_block all_commits
            (scan read_block all_commits n)
            (visit read_block all_commits c (node d v q f)))
          v
          (c ∷ q)
          f
  unfolding visit has
  taken n d c v q f h k s = record {
    cids = c ∷ s.cids;
    gives = rw (h, stored c k, s.gives) refl;
    fresh = (h, s.fresh);
    covers = covered;
    closed = shut;
    within = known_too;
  }
    where
      covered :
          (x : Bytes) → (has x (c ∷ q) || has x f) ≡ true → (has x (c ∷ s.cids) || has x v) ≡ true
      covered x g = elim (Bool-cases (bytes_eq c x)) [
        | inl e ↦ rw e refl
        | inr e ↦
            let a = has-append x (reverse (heads c)) q in
            let there : (has x (reverse (heads c) ++ q) || has x f) ≡ true =
              ground (arith, g, e, a) in
            ground (arith, s.covers x there)
      ]

      shut :
          (b x : Bytes)
          → has b (c ∷ s.cids) ≡ true
          → has x (heads b) ≡ true
          → (has x (c ∷ s.cids) || has x v) ≡ true
      shut b x g j = elim (Bool-cases (bytes_eq c b)) [
        | inl e ↦
            let same : c ≡ b = (bytes_eq_iff c b).0 e in
            let j' : has x (heads c) ≡ true = rw same j in
            let a = has-append x (reverse (heads c)) q in
            let r = has-reverse x (heads c) in
            let there : (has x (reverse (heads c) ++ q) || has x f) ≡ true =
              ground (arith, a, r, j') in
            ground (arith, s.covers x there)
        | inr e ↦
            let i : has b s.cids ≡ true = ground (arith, g, e) in ground (arith, s.closed b x i j)
      ]

      known_too : (x : Bytes) → has x (c ∷ s.cids) ≡ true → has x known ≡ true
      known_too x g = elim (Bool-cases (bytes_eq c x)) [
        | inl e ↦ let same : c ≡ x = (bytes_eq_iff c x).0 e in rw (← same) k
        | inr e ↦ let i : has x s.cids ≡ true = ground (arith, g, e) in s.within x i
      ]

  -- The heads of known commits are known.
  module _
      (shut : (c x : Bytes)
        → has c known ≡ true
        → has x (heads c) ≡ true
        → has x known ≡ true) where
    behind :
        (c x : Bytes) (q f : List Bytes)
        → (has x q || has x f) ≡ true
        → (has x (c ∷ q) || has x f) ≡ true
    unfolding has
    behind c x q f g = ground (arith, g)

    queued-known :
        (c : Bytes) (q f : List Bytes) (x : Bytes)
        → has c known ≡ true
        → ((y : Bytes) → (has y q || has y f) ≡ true → has y known ≡ true)
        → (has x (reverse (heads c) ++ q) || has x f) ≡ true
        → has x known ≡ true
    queued-known c q f x k sub g = elim (Bool-cases (has x (heads c))) [
      | inl e ↦ shut c x k e
      | inr e ↦
          let a = has-append x (reverse (heads c)) q in
          let r = has-reverse x (heads c) in
          let there : (has x q || has x f) ≡ true = ground (arith, g, e, a, r) in sub x there
    ]

    as_head :
        (c x : Bytes) (f : List Bytes)
        → (has x (c ∷ []) || has x f) ≡ true
        → (has x [] || has x (c ∷ f)) ≡ true
    unfolding has
    as_head c x f g = ground (arith, g)

    from_head :
        {p : Result (List Commit)} (c : Bytes) (v f : List Bytes)
        → Scanned p v (c ∷ []) f
        → Scanned p v [] (c ∷ f)
    unfolding has
    from_head c v f s = record {
      cids = s.cids;
      gives = s.gives;
      fresh = s.fresh;
      covers = λ x g. s.covers x (ground (arith, g));
      closed = s.closed;
      within = s.within;
    }

    nothing_left : (v : List Bytes) → Scanned (ok []) v [] []
    unfolding has
    nothing_left v = record {
      cids = [];
      gives = refl;
      fresh = tt;
      covers = λ x g. absurd (false≢true g);
      closed = λ c x g h. absurd (false≢true g);
      within = λ x g. absurd (false≢true g);
    }

    visit-Scanned :
        (n d : ℕ) (c : Bytes) (v q f : List Bytes)
        → ((d' : ℕ) (v' q' f' : List Bytes)
            → ((x : Bytes) → (has x q' || has x f') ≡ true → has x known ≡ true)
            → length q' + length f' + weight heads v' known < n
            → Scanned (scan read_block all_commits n (node d' v' q' f')) v' q' f')
        → ((x : Bytes) → (has x (c ∷ q) || has x f) ≡ true → has x known ≡ true)
        → length q + length f + weight heads v known < n
        → Scanned
            (scanned read_block all_commits
              (scan read_block all_commits n)
              (visit read_block all_commits c (node d v q f)))
            v
            (c ∷ q)
            f
    unfolding has
    visit-Scanned n d c v q f ih sub l =
        let self : bytes_eq c c ≡ true = (bytes_eq_iff c c).1 refl in
        let k : has c known ≡ true = sub c (rw self refl) in
        let fewer : (x : Bytes) → (has x q || has x f) ≡ true → has x known ≡ true =
          λ x g. sub x (behind c x q f g) in
        elim (Bool-cases (has c v)) [
          | inl h ↦ skipped n d c v q f h (ih d v q f fewer l)
          | inr h ↦ taken n d c v q f h k (
              ih (suc d) (c ∷ v) (reverse (heads c) ++ q) f (λ x g. queued-known c q f x k fewer g)
                (omega (
                  arith,
                  l,
                  weight-lt heads c v known k h,
                  length-append (reverse (heads c)) q,
                  length-reverse (heads c),
                )))
        ]

    scan-Scanned :
        (n d : ℕ) (v q f : List Bytes)
        → ((x : Bytes) → (has x q || has x f) ≡ true → has x known ≡ true)
        → length q + length f + weight heads v known < n
        → Scanned (scan read_block all_commits n (node d v q f)) v q f
    unfolding scan next
    scan-Scanned zero d v q f sub l = absurd (omega (arith, l))
    scan-Scanned (suc n) d v (c ∷ q) f sub l =
        visit-Scanned n d c v q f (scan-Scanned n) sub (omega (arith, l))
    scan-Scanned (suc n) d v [] (c ∷ f) sub l = from_head c v f (
        visit-Scanned n 0 c v [] f (scan-Scanned n) (λ x g. sub x (as_head c x f g))
          (omega (arith, l)))
    scan-Scanned (suc n) d v [] [] sub l = nothing_left v

    -- Where the blocks of some commits, among them the heads that are fetched, can be read, and the
    -- heads that these link to are among them too, a scan for all commits ends, and gives no commit
    -- twice: it gives the heads, with each commit those that it links to as heads, and none but these
    -- commits.
    pub scan-reaches :
        (n : ℕ) (fetched : List Bytes)
        → ((x : Bytes) → has x fetched ≡ true → has x known ≡ true)
        → length fetched + weight heads [] known < n
        → Scanned (scan read_block all_commits n (dag_scan (oks fetched))) [] [] fetched
    unfolding has
    scan-reaches n fetched sub l =
        scan-Scanned n 0 [] [] fetched (λ x g. sub x g) (omega (arith, l))
