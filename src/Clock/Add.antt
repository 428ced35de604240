-- ===== src/Clock/Add.antt =====
-- merkle/clock/clock.go, putBlock and AddDAGNode: a delta that is written to the DAG as a new node
-- above the heads.
use defradg.Prelude.{
  ℕ, ◌+◌, ◌%◌, ◌^◌, Bytes, List, Option, none, some, Result, getting_heads, creating_block,
  writing_block,
}
use defradg.Prelude.Exec.{Exec, pure, wrap, ◌>>=◌, ◌>>◌}
use defradg.Keys.{HeadStoreKey}
use defradg.Store.{Backend, Store}
use defradg.Crdt.{Delta, set_priority_of}
use defradg.Clock.{list, process_node}
use defradg.Blockstore
use defradg.Clock.Node.{Dag, make_node}

-- What a clock works on: the state of the CRDT, the heads and the blocks.
pub record Stores (D : Type 0) : Type 0 where
  pub data_part : D
  pub head_part : Store
  pub block_part : Store

module _ {D A : Type 0} where
  abbrev put_heads : Stores D → Result A × Store → Result A × Stores D
  put_heads s (r, h) = (r, record s { head_part = h })

  abbrev on_heads : Exec Store A → Exec (Stores D) A
  on_heads m s = put_heads s (m s.head_part)

  abbrev put_blocks : Stores D → Result A × Store → Result A × Stores D
  put_blocks s (r, h) = (r, record s { block_part = h })

  abbrev on_blocks : Exec Store A → Exec (Stores D) A
  on_blocks m s = put_blocks s (m s.block_part)

  abbrev put_both : Stores D → Result A × (D × Store) → Result A × Stores D
  put_both s (r, p) = (r, record s { data_part = p.0; head_part = p.1 })

module _ {Cid Node : Type 0} (dag : Dag Cid Node) (marshal : Delta Cid → Result Bytes) where
  -- The delta with the height of its block.
  unfoldable pub at_height : ℕ → Option (Delta Cid) → Option (Delta Cid)
  at_height height none = none
  at_height height (some delta) = some (set_priority_of delta height)

  module _ (blocks : Backend) (hash_key : Cid → Bytes) where
    unfoldable pub put_block : List Cid → ℕ → Option (Delta Cid) → Exec Store Node
    put_block heads height delta = do
      node ← wrap creating_block (λ s. (make_node dag marshal (at_height height delta) heads, s))
      wrap writing_block (
          Blockstore.put blocks hash_key
            (record { cid = dag.cid_of node; raw_data = dag.raw_data node }))
      pure node

    module _ (cid_string : Cid → Bytes) (cid_decode : Bytes → Result Cid) (cid_bytes : Cid → Bytes)
        (heads : Backend) (namespace : HeadStoreKey Cid) {D : Type 0}
        (merge : Delta Cid → Exec D (Unit {0})) where
      -- ProcessNode of a new node, which asks the blockstore for the blocks.
      unfoldable pub process : Node → ℕ → Delta Cid → Exec (Stores D) (List Cid)
      process nd height delta s = put_both s (
          process_node cid_string cid_decode heads namespace
            (λ c. (Blockstore.has blocks hash_key c s.block_part).0) (dag.cid_of nd) height
            (merge delta) (dag.links nd) (s.data_part, s.head_part))

      -- The height is a 64-bit number. The delta that it has changed is returned beside the node.
      unfoldable pub add_dag_node : Delta Cid → Exec (Stores D) (Node × Delta Cid)
      add_dag_node delta = do
        found ← wrap getting_heads (on_heads (list cid_string cid_decode heads namespace cid_bytes))
        let height = (found.1 + 1) % 2 ^ 64
        nd ← on_blocks (put_block found.0 height (some (set_priority_of delta height)))
        process nd height (set_priority_of delta height)
        pure (nd, set_priority_of delta height)
