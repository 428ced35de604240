-- ===== src/Clock/Node.antt =====
-- merkle/clock/ipld.go, makeNode: the node of a delta and of the heads below it.
pub mod Links
use defradg.Prelude.{Bytes, codes, List, [], ◌∷◌, Option, none, some, Result, ok, ◌>>=◌}
use defradg.Crdt.{DagLink, Delta, lww, composite}

-- The nodes of boxo's merkledag: `NodeWithData`, `SetCidBuilder` with version 1 of Cids, `AddRawLink`,
-- `Cid`, `Links` and `RawData`.
pub record Dag (Cid Node : Type 0) : Type 0 where
  pub node_with_data : Bytes → Node
  pub set_cid_builder : Node → Result Node
  pub add_raw_link : Bytes → Cid → Node → Result Node
  pub cid_of : Node → Cid
  pub links : Node → List (DagLink Cid)
  pub raw_data : Node → Bytes

module _ {Cid Node : Type 0} (dag : Dag Cid Node) (marshal : Delta Cid → Result Bytes) where
  -- The data of a node, which is nil without a delta; `marshal` is the CBOR coding of a delta.
  unfoldable pub data_of : Option (Delta Cid) → Result Bytes
  data_of none = ok []
  data_of (some delta) = marshal delta

  -- `comp.Links()`, of a composite only.
  unfoldable pub links_of : Option (Delta Cid) → List (DagLink Cid)
  links_of (some (composite d)) = d.sub_dags
  links_of _ = []

  unfoldable pub add_heads : List Cid → Node → Result Node
  add_heads [] nd = ok nd
  add_heads (h ∷ heads) nd = do nd' ← dag.add_raw_link (codes "_head") h nd; add_heads heads nd'

  unfoldable pub add_links : List (DagLink Cid) → Node → Result Node
  add_links [] nd = ok nd
  add_links (l ∷ ls) nd = do nd' ← dag.add_raw_link l.name l.cid nd; add_links ls nd'

  unfoldable pub make_node : Option (Delta Cid) → List Cid → Result Node
  make_node delta heads = do
    bytes ← data_of delta
    nd ← dag.set_cid_builder (dag.node_with_data bytes)
    nd' ← add_heads heads nd
    add_links (links_of delta) nd'
