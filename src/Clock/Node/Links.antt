-- ===== src/Clock/Node/Links.antt =====
-- merkle/clock/ipld.go, makeNode: what the new node links to.
use mathlib.Core.Logic.{∥∥₁_elim}
use mathlib.Core.List.{Perm, Permᴰ}
use defradg.Prelude.{
  ◌≡◌, ◌≢◌, refl, ap, ◌∙◌, Bytes, codes, Bool, false, ◌||◌, List, [], ◌∷◌, All, arith, bytes_eq,
  Option, map, Result, ok,
}
use defradg.Crdt.{DagLink, Delta}
use defradg.Clock.{has_heads, insert_head, sort_heads}
use defradg.Clock.Node.{Dag, data_of, links_of, add_heads, add_links, make_node}

Bool-set : IsSet Bool
Bool-set = hlevel

module _ {Cid : Type 0} where
  abbrev pub any_link : (DagLink Cid → Bool) → List (DagLink Cid) → Bool
  any_link q [] = false
  any_link q (l ∷ ls) = q l || any_link q ls

  abbrev pub head_link : Cid → DagLink Cid
  head_link c = record { name = codes "_head"; cid = c }

  any_link-permᴰ :
      (q : DagLink Cid → Bool) {ls ms : List (DagLink Cid)}
      → Permᴰ ls ms
      → any_link q ls ≡ any_link q ms
  any_link-permᴰ q Permᴰ.nil = refl
  any_link-permᴰ q (Permᴰ.cons {a = l} {b = m} {l₁ = ls} {l₂ = ms} p r) =
      ground (arith, ap q p, any_link-permᴰ q r)
  any_link-permᴰ q (Permᴰ.swap {a = l} {b = m} {a' = l'} {b' = m'} {l = ls} p r) =
      ground (arith, ap q p, ap q r)
  any_link-permᴰ q (Permᴰ.trans p r) = any_link-permᴰ q p ∙ any_link-permᴰ q r

  any_link-perm :
      (q : DagLink Cid → Bool) {ls ms : List (DagLink Cid)}
      → Perm ls ms
      → any_link q ls ≡ any_link q ms
  any_link-perm q {ls} {ms} p =
      ∥∥₁_elim p (Bool-set (any_link q ls) (any_link q ms)) (any_link-permᴰ q)

  any_link-insert_head :
      (cid_bytes : Cid → Bytes) (q : DagLink Cid → Bool) (c : Cid) (cs : List Cid)
      → any_link q (map head_link (insert_head cid_bytes c cs))
        ≡ (q (head_link c) || any_link q (map head_link cs))
  unfolding insert_head
  any_link-insert_head cid_bytes q c [] = refl
  any_link-insert_head cid_bytes q c (d ∷ ds) =
      ground (arith, any_link-insert_head cid_bytes q c ds)

  pub any_link-sort_heads :
      (cid_bytes : Cid → Bytes) (q : DagLink Cid → Bool) (cs : List Cid)
      → any_link q (map head_link (sort_heads cid_bytes cs)) ≡ any_link q (map head_link cs)
  unfolding sort_heads
  any_link-sort_heads cid_bytes q [] = refl
  any_link-sort_heads cid_bytes q (c ∷ cs) = ground (
    arith,
    any_link-insert_head cid_bytes q c (sort_heads cid_bytes cs),
    any_link-sort_heads cid_bytes q cs,
  )

  pub has_heads-any_link :
      (ls : List (DagLink Cid)) → has_heads ls ≡ any_link (λ l. bytes_eq l.name (codes "_head")) ls
  unfolding has_heads
  has_heads-any_link [] = refl
  has_heads-any_link (l ∷ ls) = ground (arith, has_heads-any_link ls)

-- What merkledag's documentation says of nodes: a node begins without links, the builder of Cids
-- leaves them, a link is added to them, in some order, and the Cid of a node, which is a hash of its
-- content, is none of those it links to.
pub record IsDag {Cid Node : Type 0} (dag : Dag Cid Node) : Type 0 where
  pub begins : (bytes : Bytes) → dag.links (dag.node_with_data bytes) ≡ []
  pub builds :
      (n : Node) → (m : Node) × (dag.set_cid_builder n ≡ ok m) × (dag.links m ≡ dag.links n)
  pub adds :
      (name : Bytes) (c : Cid) (n : Node)
      → (m : Node) × (dag.add_raw_link name c n ≡ ok m)
        × Perm (dag.links m) (record { name = name; cid = c } ∷ dag.links n)
  pub acyclic : (n : Node) → All (λ l. l.cid ≢ dag.cid_of n) (dag.links n)

module _ {Cid Node : Type 0} (dag : Dag Cid Node) (laws : IsDag dag)
    (marshal : Delta Cid → Result Bytes) where
  add_heads_links :
      (heads : List Cid) (n : Node)
      → (m : Node) × (add_heads dag marshal heads n ≡ ok m)
        × ((q : DagLink Cid → Bool)
            → any_link q (dag.links m)
              ≡ (any_link q (map head_link heads) || any_link q (dag.links n)))
  unfolding add_heads
  add_heads_links [] n = (n, refl, λ q. refl)
  add_heads_links (h ∷ heads) n =
      let (n', e, p) = laws.adds (codes "_head") h n in
      let (m, f, r) = add_heads_links heads n' in
      (m, rw (e, f) refl, λ q. ground (arith, r q, any_link-perm q p))

  add_links_links :
      (ls : List (DagLink Cid)) (n : Node)
      → (m : Node) × (add_links dag marshal ls n ≡ ok m)
        × ((q : DagLink Cid → Bool)
            → any_link q (dag.links m) ≡ (any_link q ls || any_link q (dag.links n)))
  unfolding add_links
  add_links_links [] n = (n, refl, λ q. refl)
  add_links_links (l ∷ ls) n =
      let (n', e, p) = laws.adds l.name l.cid n in
      let (m, f, r) = add_links_links ls n' in
      (m, rw (e, f) refl, λ q. ground (arith, r q, any_link-perm q p))

  -- A node is made of each delta that can be coded, and links to the heads and to what the delta
  -- links to.
  pub make_node_links :
      (delta : Option (Delta Cid)) (heads : List Cid) (bytes : Bytes)
      → data_of dag marshal delta ≡ ok bytes
      → (m : Node) × (make_node dag marshal delta heads ≡ ok m)
        × ((q : DagLink Cid → Bool)
            → any_link q (dag.links m)
              ≡ (any_link q (links_of dag marshal delta) || any_link q (map head_link heads)))
  unfolding make_node
  make_node_links delta heads bytes e =
      let (n, f, same) = laws.builds (dag.node_with_data bytes) in
      let (n', g, r) = add_heads_links heads n in
      let (m, h, t) = add_links_links (links_of dag marshal delta) n' in
      let none : dag.links n ≡ [] = same ∙ laws.begins bytes in
      (m, rw (e, f, g, h) refl, λ q. ground (arith, r q, t q, ap (any_link q) none))
