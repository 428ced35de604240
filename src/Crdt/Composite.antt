-- ===== src/Crdt/Composite.antt =====
-- core/crdt/composite.go: the composite of a document's registers, which keeps the object marker and
-- moves the values of a deleted document.
pub mod Marker
pub mod Moves
pub mod Deletion
pub mod Registers
pub mod Tests
use defradg.Prelude.{
  ℕ, Bytes, codes, Bool, true, false, List, [], ◌∷◌, Error, Result, ok, err, panic, not_found,
  is_not_found, if◌then◌else◌, bytes_eq, bytes_lt, ◌++◌,
}
use defradg.Prelude.Exec.{Exec, pure, raise, attempt, ◌>>=◌, ◌>>◌}
use defradg.Keys.{
  DataStoreKey, to_string, value_key, with_value_flag, with_deleted_flag, with_field_id,
  to_primary_data_store_key, primary_to_string, new_data_store_key,
}
use defradg.Store.{Backend, Store, get, put, has, delete, query, next_op}
use defradg.Crdt.{
  CompositeDagDelta, DagLink, Delta, lww, composite, object_marker, deleted_object_marker,
  is_deleted,
}

pub record CompositeDag : Type 0 where
  pub key : DataStoreKey
  pub schema_version_id : Bytes
  pub field_name : Bytes

unfoldable pub new_composite_dag : Bytes → DataStoreKey → Bytes → CompositeDag
new_composite_dag version key name = record {
  key = key;
  schema_version_id = version;
  field_name = name;
}

module _ {Cid : Type 0} (cid_string : Cid → Bytes) where
  -- `sort.Slice` by the text of the Cid.
  unfoldable pub insert_link : DagLink Cid → List (DagLink Cid) → List (DagLink Cid)
  insert_link l [] = l ∷ []
  insert_link l (m ∷ ms) =
      let rest = insert_link l ms in
      if bytes_lt (cid_string m.cid) (cid_string l.cid) then m ∷ rest else l ∷ m ∷ ms

  unfoldable pub sort_links : List (DagLink Cid) → List (DagLink Cid)
  sort_links [] = []
  sort_links (l ∷ ls) = insert_link l (sort_links ls)

  unfoldable pub set : CompositeDag → Bytes → List (DagLink Cid) → CompositeDagDelta Cid
  set c patch links = record {
    schema_version_id = c.schema_version_id;
    priority = 0;
    payload = patch;
    doc_key = c.key.doc_key;
    sub_dags = sort_links links;
    status = 0;
    field_name = c.field_name;
  }

-- The loop of `DeltaDecode` over the links of a node, which leaves out those named "head".
unfoldable pub decoded_links : {Cid : Type 0} → List (DagLink Cid) → List (DagLink Cid)
decoded_links [] = []
decoded_links (l ∷ ls) =
    let rest = decoded_links ls in if bytes_eq l.name (codes "head") then rest else l ∷ rest

abbrev pub marker_text : CompositeDag → Bytes
marker_text c = primary_to_string (to_primary_data_store_key c.key)

module _ (b : Backend) where
  -- One result of the query, and those behind it. A result with an error ends the loop with the
  -- error of `Query`, which is nil there.
  unfoldable pub move_entries : Store → Exec Store (Unit {0})
  move_entries [] = pure tt
  move_entries ((j, v) ∷ entries) = if b.fails next_op j then pure tt else do
    key ← λ s. (new_data_store_key j, s)
    if bytes_eq key.instance_type value_key
        then put b (to_string (with_deleted_flag key)) v
        else pure tt
    delete b (to_string key)
    move_entries entries

  -- `res, err := Query` whose error is not looked at: without a result the loop dereferences nil.
  abbrev results_of : Result Store → Result Store
  results_of (ok entries) = ok entries
  results_of (err e) = err panic

  -- What `deleteWithPrefix` does with the value at the key itself.
  unfoldable pub move_value : CompositeDag → DataStoreKey → Result Bytes → Exec Store (Unit {0})
  move_value c key (ok val) = do
    put b (to_string (with_deleted_flag c.key)) val
    delete b (to_string key)
  move_value c key (err e) = if is_not_found e then pure tt else raise e

  unfoldable pub delete_with_prefix : CompositeDag → DataStoreKey → Exec Store (Unit {0})
  delete_with_prefix c key = do
    found ← attempt (get b (to_string key))
    move_value c key found
    res ← attempt (query b (to_string key))
    entries ← λ s. (results_of res, s)
    move_entries entries

  -- The object marker is written if there is none.
  unfoldable pub ensure_marker : CompositeDag → Exec Store (Unit {0})
  ensure_marker c = do
    exists ← has b (marker_text c)
    if exists then pure tt else put b (marker_text c) (object_marker ∷ [])

  unfoldable pub merge_deleted : CompositeDag → Exec Store (Unit {0})
  merge_deleted c = do
    put b (marker_text c) (deleted_object_marker ∷ [])
    delete_with_prefix c (with_field_id (with_value_flag c.key) [])

  unfoldable pub merge : {Cid : Type 0} → CompositeDag → Delta Cid → Exec Store (Unit {0})
  merge c (composite d) = if is_deleted d.status then merge_deleted c else ensure_marker c
  merge c (lww d) = ensure_marker c
