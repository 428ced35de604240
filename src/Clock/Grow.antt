-- ===== src/Clock/Grow.antt =====
-- merkle/clock/clock.go, AddDAGNode as a whole: list, make the node, store it, merge, replace the
-- heads.
use defradg.Prelude.{
  ℕ, ◌+◌, ◌^◌, ◌<◌, ◌%◌, ◌≡◌, refl, ap, ◌∙◌, Bytes, codes, Bool, true, false, ◌||◌, List, [], ◌∷◌,
  map, All, some, arith, bytes_eq, bytes_eq_refl, if◌then◌else◌, Lacks, Result, ok, Bool-cases, inl,
  inr,
}
use defradg.Prelude.Exec.{Exec}
use defradg.Keys.{HeadStoreKey, slash, head_to_string}
use defradg.Store.{Backend, Store, find, insert, below, is_some}
use defradg.Store.Laws.{IsHealthy, has_healthy, put_healthy, find-insert}
use defradg.Crdt.{DagLink, Delta, lww, composite, set_priority_of}
use defradg.Clock.{has_heads, sort_heads}
use defradg.Clock.Heads.{entries, cids, highest, IsReadable, list_works}
use defradg.Clock.Node.{Dag, links_of, make_node, data_of}
use defradg.Clock.Node.Links.{
  IsDag, any_link, head_link, has_heads-any_link, any_link-sort_heads, make_node_links,
}
use defradg.Clock.Add.{Stores, at_height, put_block, process, add_dag_node}
use defradg.Clock.Process.{process_heads-after_all, process_node_ok, children_of}
use defradg.Clock.Advance.{IsSound, fits, single_head}
use defradg.Blockstore

set_priority_twice :
    {Cid : Type 0} (delta : Delta Cid) (n : ℕ)
    → set_priority_of (set_priority_of delta n) n ≡ set_priority_of delta n
unfolding set_priority_of
set_priority_twice (lww d) n = refl
set_priority_twice (composite d) n = refl

module _ {Cid Node : Type 0} (dag : Dag Cid Node) (laws : IsDag dag)
    (marshal : Delta Cid → Result Bytes) (blocks : Backend) (hash_key : Cid → Bytes) where
  abbrev block_of : Node → Blockstore.Block Cid
  block_of n = record { cid = dag.cid_of n; raw_data = dag.raw_data n }

  -- The store of blocks with a new one, which is not written again where there is one of its hash.
  abbrev with_block : Node → Store → Store
  with_block n s =
      if is_some (find (hash_key (dag.cid_of n)) s)
      then s
      else insert (hash_key (dag.cid_of n)) (dag.raw_data n) s

  put_block_works :
      (cs : List Cid) (height : ℕ) (delta : Delta Cid) (n : Node) (s : Store)
      → ((c : Cid) → IsHealthy blocks (hash_key c))
      → make_node dag marshal (some (set_priority_of delta height)) cs ≡ ok n
      → put_block dag marshal blocks hash_key cs height (some (set_priority_of delta height)) s
        ≡ (ok n, with_block n s)
  unfolding put_block at_height Blockstore.put
  put_block_works cs height delta n s healthy e =
      let h = healthy (dag.cid_of n) in
      elim (Bool-cases (is_some (find (hash_key (dag.cid_of n)) s))) [
        | inl f ↦ rw (set_priority_twice delta height, e, has_healthy blocks _ s h, f) refl
        | inr f ↦
            rw
              (
                set_priority_twice delta height,
                e,
                has_healthy blocks _ s h,
                f,
                put_healthy blocks _ s h (dag.raw_data n),
              )
              refl
      ]

  with_block_kept :
      (n : Node) (s : Store) → is_some (find (hash_key (dag.cid_of n)) (with_block n s)) ≡ true
  unfolding is_some
  with_block_kept n s = ground (
    arith,
    find-insert (hash_key (dag.cid_of n)) (hash_key (dag.cid_of n)) (dag.raw_data n) s,
    bytes_eq_refl (hash_key (dag.cid_of n)),
  )

  module _ (cid_string : Cid → Bytes) (cid_decode : Bytes → Result Cid)
      (decode-string : (c : Cid) → cid_decode (cid_string c) ≡ ok c)
      (string-Lacks : (c : Cid) → Lacks slash (cid_string c)) (cid_bytes : Cid → Bytes)
      (heads : Backend) (ns : HeadStoreKey Cid) {D : Type 0}
      (merge : Delta Cid → Exec D (Unit {0})) where
    abbrev pub heads_in : List (Cid × ℕ) → Store
    heads_in = entries cid_string cid_decode decode-string string-Lacks heads ns cid_bytes

    -- A run of AddDAGNode that gives a node, of the delta at a height and of links to heads: the delta
    -- is merged, the node's block is here, and the node is the only head, at that height.
    pub record Advances (delta : Delta Cid) (hs : List (Cid × ℕ)) (height : ℕ) (st : Stores D)
        (r : Result (Node × Delta Cid) × Stores D) : Type 0 where
      pub node : Node
      pub done : r.0 ≡ ok (node, set_priority_of delta height)
      pub made :
          make_node dag marshal
            (some (set_priority_of delta height))
            (sort_heads cid_bytes (cids hs))
          ≡ ok node
      pub merged : r.1.data_part ≡ (merge (set_priority_of delta height) st.data_part).1
      pub single :
          below (head_to_string cid_string cid_decode ns) r.1.head_part
          ≡ heads_in ((dag.cid_of node, height) ∷ [])
      pub kept : is_some (find (hash_key (dag.cid_of node)) r.1.block_part) ≡ true

    links_of_priority :
        (delta : Delta Cid) (n : ℕ)
        → links_of dag marshal (some (set_priority_of delta n)) ≡ links_of dag marshal (some delta)
    unfolding links_of set_priority_of
    links_of_priority (lww d) n = refl
    links_of_priority (composite d) n = refl

    module _
        (sound : IsSound cid_string cid_decode decode-string string-Lacks heads ns blocks
          hash_key) where
      -- ProcessNode of the node: the delta is merged, and the node is the only head.
      record Settles (n : Node) (height : ℕ) (delta : Delta Cid) (st : Stores D)
          (r : Result (List Cid) × Stores D) : Type 0 where
        children : List Cid
        settled : r.0 ≡ ok children
        merged : r.1.data_part ≡ (merge delta st.data_part).1
        single :
            below (head_to_string cid_string cid_decode ns) r.1.head_part
            ≡ heads_in ((dag.cid_of n, height) ∷ [])
        blocks_kept : r.1.block_part ≡ st.block_part

      process-Settles :
          (n : Node) (height : ℕ) (delta : Delta Cid) (hs : List (Cid × ℕ)) (st : Stores D)
          → below (head_to_string cid_string cid_decode ns) st.head_part ≡ heads_in hs
          → has_heads (links_of dag marshal (some delta)) ≡ false
          → (merge delta st.data_part).0 ≡ ok tt
          → ((q : DagLink Cid → Bool)
              → any_link q (dag.links n) ≡ (
                  any_link q (links_of dag marshal (some delta))
                  || any_link q (map head_link (sort_heads cid_bytes (cids hs)))))
          → Settles n height delta st (
              process dag marshal blocks hash_key cid_string cid_decode cid_bytes heads ns merge n
                height delta st)
      unfolding process
      process-Settles n height delta hs st e own ok_merge links =
          let known : Cid → Result Bool = λ c. (Blockstore.has blocks hash_key c st.block_part).0 in
          let here : (c : Cid) → (h : Bool) × (known c ≡ ok h) = λ c. (
            is_some (find (hash_key c) st.block_part),
            unfold Blockstore.has in
                rw (has_healthy blocks (hash_key c) st.block_part (sound.at_block c)) refl,
          ) in
          let fit =
            fits cid_string cid_decode decode-string string-Lacks heads ns blocks hash_key sound
              known (dag.cid_of n) height here (dag.links n) (laws.acyclic n) in
          let named : DagLink Cid → Bool = λ l. bytes_eq l.name (codes "_head") in
          let covers : (q : DagLink Cid → Bool)
              → any_link q (map head_link (cids hs)) ≡ true
              → any_link q (dag.links n) ≡ true =
            λ q h. ground (arith, links q, any_link-sort_heads cid_bytes q (cids hs), h) in
          let same : has_heads (dag.links n) ≡ any_link named (map head_link (cids hs)) =
            has_heads-any_link (dag.links n)
            ∙ ground (
              arith,
              links named,
              any_link-sort_heads cid_bytes named (cids hs),
              own,
              has_heads-any_link (links_of dag marshal (some delta)),
            ) in
          let run =
            process_node_ok cid_string cid_decode heads ns known (dag.cid_of n) height
              (sound.at_head (dag.cid_of n)) (merge delta) (dag.links n) st.data_part st.head_part
              ok_merge in
          let gives =
            (process_heads-after_all cid_string cid_decode heads ns known (dag.cid_of n) height
              (sound.at_head (dag.cid_of n)) (dag.links n) st.head_part fit).0 in
          let (cs, p) =
            children_of cid_string cid_decode heads ns known (dag.cid_of n) height
              (sound.at_head (dag.cid_of n)) gives in
          rw (process, run)
            (record {
              children = cs;
              settled = p;
              merged = refl;
              single =
                  single_head cid_string cid_decode decode-string string-Lacks heads ns blocks
                    hash_key sound known (dag.cid_of n) height cid_bytes (dag.links n) st.head_part
                    hs fit covers same e;
              blocks_kept = refl;
            })

      -- Where the storage works, below the path of the heads stand heads and nothing else, and their
      -- greatest height has a next one of 64 bits: if the delta can be coded and merged at the next
      -- height, and none of its own links is named "_head", AddDAGNode succeeds with a node made of
      -- it and of the heads, whose block is then here, and the node is then the only head.
      pub add_dag_node_lem :
          (delta : Delta Cid) (bytes : Bytes) (hs : List (Cid × ℕ)) (st : Stores D)
          → All (IsReadable cid_string cid_decode decode-string string-Lacks heads ns cid_bytes) hs
          → below (head_to_string cid_string cid_decode ns) st.head_part ≡ heads_in hs
          → highest 0 hs + 1 < 2 ^ 64
          → marshal (set_priority_of delta (highest 0 hs + 1)) ≡ ok bytes
          → has_heads (links_of dag marshal (some delta)) ≡ false
          → (merge (set_priority_of delta (highest 0 hs + 1)) st.data_part).0 ≡ ok tt
          → Advances delta hs (highest 0 hs + 1) st (
              add_dag_node dag marshal blocks hash_key cid_string cid_decode cid_bytes heads ns
                merge delta st)
      unfolding add_dag_node data_of
      add_dag_node_lem delta bytes hs st readable e small coded own merged =
          let height = highest 0 hs + 1 in
          let (n, made, links) =
            make_node_links dag laws marshal (some (set_priority_of delta height))
              (sort_heads cid_bytes (cids hs)) bytes coded in
          let listed =
            list_works cid_string cid_decode decode-string string-Lacks heads ns cid_bytes hs
              st.head_part sound.doc sound.field sound.at_namespace readable e in
          let put =
            put_block_works (sort_heads cid_bytes (cids hs)) height delta n st.block_part
              sound.at_block made in
          let wrapped : (highest 0 hs + 1) % 2 ^ 64 ≡ height = omega arith in
          let blocked : Stores D = record st { block_part = with_block n st.block_part } in
          let made_at : Delta Cid = set_priority_of delta height in
          let end =
            process-Settles n height made_at hs blocked e
              (ap has_heads (links_of_priority delta height) ∙ own) merged links in
          rw (listed, wrapped, put, end.settled)
            (record {
              node = n;
              done = refl;
              made = made;
              merged = end.merged;
              single = end.single;
              kept =
                  ap (λ s. is_some (find (hash_key (dag.cid_of n)) s)) end.blocks_kept
                  ∙ with_block_kept n st.block_part;
            })
