-- ===== src/Merkle/Register.antt =====
-- merkle/crdt/lwwreg.go: a register that is set here reads what was set last.
use defradg.Prelude.{
  ℕ, ◌+◌, ◌^◌, ◌≤◌, ◌<◌, ◌≡◌, refl, subst, Bytes, true, List, [], ◌∷◌, length, All, Lacks, arith,
  Result, ok,
}
use defradg.Keys.{slash, head_to_string}
use defradg.Keys.Distinct.{IsAddress}
use defradg.Store.{Store, below, next_op}
use defradg.Crdt.{Delta, lww, LwwRegDelta, get_priority_of, set_priority_of}
use defradg.Crdt.Lww
use defradg.Crdt.Lww.Join.{Write, later, join}
use defradg.Crdt.Lww.Merge.{Works, Shows, merge-Shows}
use defradg.Crdt.Lww.Winner.{IsLive, value-merge, IsLive-merge}
use defradg.Clock.{has_heads}
use defradg.Clock.Heads.{entries, highest, IsReadable}
use defradg.Clock.Node.{links_of}
use defradg.Clock.Node.Links.{IsDag}
use defradg.Clock.Add.{Stores}
use defradg.Clock.Advance.{IsSound}
use defradg.Clock.Grow.{Advances, add_dag_node_lem}
use defradg.Merkle.{Setting, MerkleLwwRegister, publish, set, value}

module _ {Cid Node : Type 0} (x : Setting Cid Node) (m : MerkleLwwRegister Cid) where
  -- The storage works for the register and its heads, a Cid is read back from its text, nodes are as
  -- merkledag says, and deltas can be coded.
  pub record IsSettled : Type 0 where
    pub decode-string : (c : Cid) → x.cid_decode (x.cid_string c) ≡ ok c
    pub string-Lacks : (c : Cid) → Lacks slash (x.cid_string c)
    pub laws : IsDag x.dag
    pub sound :
        IsSound x.cid_string x.cid_decode decode-string string-Lacks x.heads m.namespace x.blocks
          x.hash_key
    pub works : Works x.values m.reg.key
    pub address : IsAddress m.reg.key
    pub coded : (d : Delta Cid) → (bytes : Bytes) × (x.marshal d ≡ ok bytes)

  module _ (ok_setting : IsSettled) where
    abbrev heads_in : List (Cid × ℕ) → Store
    heads_in =
        entries x.cid_string x.cid_decode ok_setting.decode-string ok_setting.string-Lacks x.heads
          m.namespace x.cid_bytes

    -- The heads of the register are these, and what it shows is at most as high as they are.
    pub record IsClocked (st : Stores Store) (hs : List (Cid × ℕ)) (w : Write) : Type 0 where
      pub shown : Shows m.reg.key st.data_part w
      pub live : IsLive m.reg.key st.data_part
      pub behind : w.0 ≤ highest 0 hs
      pub small : All (λ h. h.1 < 2 ^ 64) hs
      pub at_heads :
          below (head_to_string x.cid_string x.cid_decode m.namespace) st.head_part ≡ heads_in hs

    -- A set that gives a node at a height, which is then the only head, and whose value is read.
    pub record Wins (val : Bytes) (height : ℕ) (r : Result (Node × ℕ) × Stores Store) : Type 0 where
      pub node : Node
      pub done : r.0 ≡ ok (node, height)
      pub clocked : IsClocked r.1 ((x.dag.cid_of node, height) ∷ []) (height, val)
      pub reads : (value x m r.1.data_part).0 ≡ ok val

    readable :
        (hs : List (Cid × ℕ))
        → All (λ h. h.1 < 2 ^ 64) hs
        → All
            (IsReadable x.cid_string x.cid_decode ok_setting.decode-string ok_setting.string-Lacks
              x.heads m.namespace x.cid_bytes)
            hs
    readable [] h = tt
    readable (c ∷ hs) h = (
      record { small = h.0; works = (ok_setting.sound.at_head c.0).works next_op },
      readable hs h.1,
    )

    -- The delta of a set, at the height of its block.
    abbrev at : ℕ → Bytes → LwwRegDelta
    at n val = record (Lww.set m.reg val) { priority = n }

    later_above : (w : Write) (n : ℕ) (val : Bytes) → w.0 < n → later w (n, val) ≡ true
    unfolding later
    later_above (p, v) n val h = ground arith

    join_above : (w : Write) (n : ℕ) (val : Bytes) → w.0 < n → join w (n, val) ≡ (n, val)
    unfolding join
    join_above w n val h = rw (later_above w n val h) refl

    advances :
        (val : Bytes) (st : Stores Store) (hs : List (Cid × ℕ)) (w : Write)
        → IsClocked st hs w
        → highest 0 hs + 1 < 2 ^ 64
        → Advances x.dag ok_setting.laws x.marshal x.blocks x.hash_key x.cid_string x.cid_decode
            ok_setting.decode-string ok_setting.string-Lacks x.cid_bytes x.heads m.namespace
            (Lww.merge x.values m.reg)
            (lww (Lww.set m.reg val))
            hs
            (highest 0 hs + 1)
            st
            (publish x m.namespace (Lww.merge x.values m.reg) (lww (Lww.set m.reg val)) st)
    unfolding publish set_priority_of links_of has_heads
    advances val st hs w c small =
        let height = highest 0 hs + 1 in
        let (bytes, coded) = ok_setting.coded (lww (at height val)) in
        add_dag_node_lem x.dag ok_setting.laws x.marshal x.blocks x.hash_key x.cid_string
          x.cid_decode ok_setting.decode-string ok_setting.string-Lacks x.cid_bytes x.heads
          m.namespace (Lww.merge x.values m.reg) ok_setting.sound (lww (Lww.set m.reg val)) bytes hs
          st (readable hs c.small) c.at_heads small coded refl
          (merge-Shows x.values m.reg ok_setting.works ok_setting.address Cid st.data_part w
            (at height val) c.shown small).0

    -- Where the storage works for a register and its heads, nodes are as merkledag says and deltas
    -- can be coded: if the register shows a priority that is at most the greatest height of its
    -- heads, which has a next one of 64 bits, and its document is not marked as deleted, then Set of
    -- a value succeeds, at that next height; its node is then the only head, the register shows that
    -- height and the value, and Value reads it.
    pub set-Wins :
        (val : Bytes) (st : Stores Store) (hs : List (Cid × ℕ)) (w : Write)
        → IsClocked st hs w
        → highest 0 hs + 1 < 2 ^ 64
        → Wins val (highest 0 hs + 1) (set x m val st)
    unfolding set set_priority_of value Lww.set get_priority_of
    set-Wins val st hs w c small =
        let height = highest 0 hs + 1 in
        let adv = advances val st hs w c small in
        let above : w.0 < height = omega (arith, c.behind) in
        let won = later_above w height val above in
        let shows =
          (merge-Shows x.values m.reg ok_setting.works ok_setting.address Cid st.data_part w
            (at height val) c.shown small).1 in
        rw adv.done (record {
          node = adv.node;
          done = refl;
          clocked = record {
            shown = rw (adv.merged, ← join_above w height val above) shows;
            live = rw adv.merged (
                IsLive-merge x.values m.reg ok_setting.works ok_setting.address Cid st.data_part w
                  (at height val) c.shown won c.live);
            behind = ground arith;
            small = (small, tt);
            at_heads = adv.single;
          };
          reads = rw adv.merged (
              value-merge x.values m.reg ok_setting.works ok_setting.address Cid st.data_part w
                (at height val) c.shown won c.live);
        })

    -- Values set one after another.
    unfoldable pub set_all : List Bytes → Stores Store → Stores Store
    set_all [] st = st
    set_all (v ∷ vs) st = set_all vs (set x m v st).1

    abbrev pub last : Bytes → List Bytes → Bytes
    last v [] = v
    last v (u ∷ us) = last u us

    -- The register stands at one head, at a height, and reads a value.
    pub record Reads (st : Stores Store) (height : ℕ) (val : Bytes) : Type 0 where
      pub head : Cid
      pub clocked : IsClocked st ((head, height) ∷ []) (height, val)
      pub reads : (value x m st.data_part).0 ≡ ok val

    -- Under the same conditions, and while heights are of 64 bits, sets one after another leave a
    -- register that reads the last value, whose only head is as many steps above the greatest of the
    -- heads before as values were set.
    pub set_all-Reads :
        (v : Bytes) (vs : List Bytes) (st : Stores Store) (hs : List (Cid × ℕ)) (w : Write)
        → IsClocked st hs w
        → highest 0 hs + (1 + length vs) < 2 ^ 64
        → Reads (set_all (v ∷ vs) st) (highest 0 hs + (1 + length vs)) (last v vs)
    unfolding set_all
    set_all-Reads v [] st hs w c small =
        let win = set-Wins v st hs w c small in
        record { head = x.dag.cid_of win.node; clocked = win.clocked; reads = win.reads }
    set_all-Reads v (u ∷ us) st hs w c small =
        let win = set-Wins v st hs w c (omega (arith, small)) in
        let next = ((x.dag.cid_of win.node, highest 0 hs + 1) ∷ []) in
        let h : highest 0 next ≡ highest 0 hs + 1 = ground arith in
        let sum : highest 0 next + (1 + length us) ≡ highest 0 hs + (1 + length (u ∷ us)) =
          omega (arith, h) in
        subst (λ n. Reads (set_all (u ∷ us) (set x m v st).1) n (last u us)) sum
          (set_all-Reads u us (set x m v st).1 next (highest 0 hs + 1, v) win.clocked
            (omega (arith, small, h)))
