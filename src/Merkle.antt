-- ===== src/Merkle.antt =====
-- merkle/crdt: the CRDTs of a field and of a document over the clock of their own DAG.
pub mod Register
pub mod Factory
pub mod Tests
use defradg.Prelude.{ℕ, Bytes, List, [], Result}
use defradg.Prelude.Exec.{Exec, pure, ◌>>=◌}
use defradg.Keys.{DataStoreKey, HeadStoreKey, to_head_store_key}
use defradg.Store.{Backend, Store}
use defradg.Crdt.{DagLink, Delta, lww, composite, get_priority_of}
use defradg.Crdt.Lww
use defradg.Crdt.Composite
use defradg.Clock.Node.{Dag}
use defradg.Clock.Add.{Stores, add_dag_node}

-- client.Deleted
abbrev pub deleted : ℕ
deleted = 2

-- What the stores and other code are to a clock and its CRDT.
pub record Setting (Cid Node : Type 0) : Type 0 where
  pub dag : Dag Cid Node
  pub marshal : Delta Cid → Result Bytes
  pub blocks : Backend
  pub hash_key : Cid → Bytes
  pub cid_string : Cid → Bytes
  pub cid_decode : Bytes → Result Cid
  pub cid_bytes : Cid → Bytes
  pub heads : Backend
  pub values : Backend

pub record MerkleLwwRegister (Cid : Type 0) : Type 0 where
  pub reg : Lww.LwwRegister
  pub namespace : HeadStoreKey Cid

pub record MerkleCompositeDag (Cid : Type 0) : Type 0 where
  pub reg : Composite.CompositeDag
  pub namespace : HeadStoreKey Cid

module _ {Cid Node : Type 0} (x : Setting Cid Node) where
  -- `base.clock.AddDAGNode`, with the Merge of the CRDT.
  unfoldable pub publish :
      HeadStoreKey Cid
      → (Delta Cid → Exec Store (Unit {0}))
      → Delta Cid
      → Exec (Stores Store) (Node × Delta Cid)
  publish namespace merge delta =
      add_dag_node x.dag x.marshal x.blocks x.hash_key x.cid_string x.cid_decode x.cid_bytes x.heads
        namespace merge delta

  -- The node, and `delta.GetPriority()`.
  abbrev with_priority : Exec (Stores Store) (Node × Delta Cid) → Exec (Stores Store) (Node × ℕ)
  with_priority m = do made ← m; pure (made.0, get_priority_of made.1)

  unfoldable pub new_merkle_lww_register : Bytes → DataStoreKey → Bytes → MerkleLwwRegister Cid
  new_merkle_lww_register version key name = record {
    reg = Lww.new_lww_register version key name;
    namespace = to_head_store_key key;
  }

  unfoldable pub set : MerkleLwwRegister Cid → Bytes → Exec (Stores Store) (Node × ℕ)
  set m value =
      with_priority (publish m.namespace (Lww.merge x.values m.reg) (lww (Lww.set m.reg value)))

  unfoldable pub value : MerkleLwwRegister Cid → Exec Store Bytes
  value m = Lww.value x.values m.reg

  unfoldable pub merge : MerkleLwwRegister Cid → Delta Cid → Exec Store (Unit {0})
  merge m other = Lww.merge x.values m.reg other

  unfoldable pub new_merkle_composite_dag : Bytes → DataStoreKey → Bytes → MerkleCompositeDag Cid
  new_merkle_composite_dag version key name = record {
    reg = Composite.new_composite_dag version key name;
    namespace = to_head_store_key key;
  }

  unfoldable pub set_composite :
      MerkleCompositeDag Cid → Bytes → List (DagLink Cid) → Exec (Stores Store) (Node × ℕ)
  set_composite m patch links = with_priority (
      publish m.namespace (Composite.merge x.values m.reg)
        (composite (Composite.set x.cid_string m.reg patch links)))

  unfoldable pub delete_composite :
      MerkleCompositeDag Cid → List (DagLink Cid) → Exec (Stores Store) (Node × ℕ)
  delete_composite m links = with_priority (
      publish m.namespace (Composite.merge x.values m.reg)
        (composite (record (Composite.set x.cid_string m.reg [] links) { status = deleted })))

  unfoldable pub merge_composite : MerkleCompositeDag Cid → Delta Cid → Exec Store (Unit {0})
  merge_composite m other = Composite.merge x.values m.reg other
