-- ===== src/DagScan/Tests.antt =====
-- planner/commit.go: a DAG of four commits, of which two are merged by the last.
use defradg.Prelude.{
  ◌+◌, ◌<◌, ◌≡◌, refl, length, Bytes, codes, true, ◌||◌, List, [], ◌∷◌, some, none, arith, bytes_eq,
  if◌then◌else◌, Result, ok, err, block_not_found, Bool-cases, inl, inr,
}
use defradg.DagScan.{has, scan, next, visit, head_links, dag_scan}
use defradg.DagScan.Reached.{Scanned, all_commits, oks, weight, scan-reaches}

abbrev head_to : Bytes → Bytes × Bytes
head_to c = (codes "_head", c)

-- "d" has the heads "b" and "c", whose head is "a"; "d" also links to a block of a field.
abbrev links : Bytes → List (Bytes × Bytes)
links c =
    if bytes_eq c (codes "d")
    then head_to (codes "b") ∷ (codes "name", codes "f") ∷ head_to (codes "c") ∷ []
    else if bytes_eq c (codes "b") || bytes_eq c (codes "c")
    then head_to (codes "a") ∷ []
    else []

abbrev known : List Bytes
known = codes "a" ∷ codes "b" ∷ codes "c" ∷ codes "d" ∷ []

unfoldable read_block : Bytes → Result (Bytes × List (Bytes × Bytes))
unfolding has
read_block c = if has c known then ok (c, links c) else err block_not_found

stored : (c : Bytes) → has c known ≡ true → read_block c ≡ ok (c, links c)
unfolding read_block
stored c h = rw h refl

visited_in_order :
    scan read_block all_commits 9 (dag_scan (ok (codes "d") ∷ []))
    ≡ ok (codes "d" ∷ codes "c" ∷ codes "a" ∷ codes "b" ∷ [])
unfolding scan next visit has head_links read_block
visited_in_order = refl

-- A limit of two commits: the second head is given all the same.
limited :
    scan read_block (record { depth = some 2; cid = none }) 9 (dag_scan (ok (codes "d") ∷ []))
    ≡ ok (codes "d" ∷ codes "c" ∷ codes "b" ∷ [])
unfolding scan next visit has head_links read_block
limited = refl

in_known : (x : Bytes) → has x (codes "b" ∷ codes "c" ∷ []) ≡ true → has x known ≡ true
unfolding has
in_known x g = elim (Bool-cases (bytes_eq (codes "b") x)) [
  | inl e ↦ rw e (ground arith)
  | inr e ↦ elim (Bool-cases (bytes_eq (codes "c") x)) [
    | inl f ↦ rw f (ground arith)
    | inr f ↦ cc (rw (e, f) at g)
  ]
]

in_known_too : (x : Bytes) → has x (codes "a" ∷ []) ≡ true → has x known ≡ true
unfolding has
in_known_too x g = elim (Bool-cases (bytes_eq (codes "a") x)) [
  | inl e ↦ rw e refl
  | inr e ↦ cc (rw e at g)
]

known_d : (x : Bytes) → has x (codes "d" ∷ []) ≡ true → has x known ≡ true
unfolding has
known_d x g = elim (Bool-cases (bytes_eq (codes "d") x)) [
  | inl e ↦ rw e (ground arith)
  | inr e ↦ cc (rw e at g)
]

enough : length (codes "d" ∷ []) + weight (λ c. head_links (links c)) [] known < 20
unfolding has head_links
enough = omega arith

shut : (c x : Bytes) → has c known ≡ true → has x (head_links (links c)) ≡ true → has x known ≡ true
unfolding has head_links
shut c x h g = elim (Bool-cases (bytes_eq c (codes "d"))) [
  | inl e ↦ in_known x (rw e at g)
  | inr e ↦ elim (Bool-cases (bytes_eq c (codes "b") || bytes_eq c (codes "c"))) [
    | inl f ↦ in_known_too x (rw (e, f) at g)
    | inr f ↦ cc (rw (e, f) at g)
  ]
]

scan-reaches_example :
    Scanned read_block
      (λ c. c)
      links
      known
      stored
      (scan read_block all_commits 20 (dag_scan (oks (codes "d" ∷ []))))
      []
      []
      (codes "d" ∷ [])
scan-reaches_example =
    scan-reaches read_block (λ c. c) links known stored shut 20 (codes "d" ∷ []) known_d enough
