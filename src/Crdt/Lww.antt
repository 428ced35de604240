-- ===== src/Crdt/Lww.antt =====
-- core/crdt/lwwreg.go: the last-writer-wins register.
pub mod Join
pub mod Merge
pub mod Winner
pub mod Convergence
pub mod Tests
use defradg.Prelude.{
  ℕ, Bytes, Bool, List, [], ◌∷◌, Error, Result, ok, err, panic, is_not_found, mismatched_merge_type,
  failed_to_get_priority, failed_to_store_value, if◌then◌else◌, ltb, ◌==◌, bytes_eq, bytes_le,
}
use defradg.Prelude.Exec.{Exec, pure, raise, attempt, wrap, ◌>>=◌, ◌>>◌}
use defradg.Keys.{
  DataStoreKey, to_string, with_value_flag, with_deleted_flag, to_primary_data_store_key,
  primary_to_string,
}
use defradg.Store.{Backend, Store, get, put}
use defradg.Crdt.{
  LwwRegDelta, Delta, lww, composite, deleted_object_marker, lww_register, get_priority,
  set_priority,
}

pub record LwwRegister : Type 0 where
  pub key : DataStoreKey
  pub schema_version_id : Bytes
  pub field_name : Bytes

unfoldable pub new_lww_register : Bytes → DataStoreKey → Bytes → LwwRegister
new_lww_register version key name = record {
  key = key;
  schema_version_id = version;
  field_name = name;
}

unfoldable pub set : LwwRegister → Bytes → LwwRegDelta
set reg value = record {
  schema_version_id = reg.schema_version_id;
  priority = 0;
  payload = value;
  doc_key = reg.key.doc_key;
  field_name = reg.field_name;
}

-- `buf[1:]`, which panics on an empty slice.
abbrev skip_marker : Bytes → Result Bytes
skip_marker [] = err panic
skip_marker (m ∷ buf) = ok buf

-- `marker, err := Get`, where a missing marker is nil.
abbrev pub marker_of : Result Bytes → Result Bytes
marker_of (ok m) = ok m
marker_of (err e) = if is_not_found e then ok [] else err e

-- `curValue, _ := Get`, without its first byte.
abbrev pub current_value : Result Bytes → Bytes
current_value (ok []) = []
current_value (ok (m ∷ v)) = v
current_value (err e) = []

-- The key that the value stands at: the deleted one, if the document is marked as deleted.
abbrev pub place : DataStoreKey → Bytes → DataStoreKey
place key marker =
    if bytes_eq marker (deleted_object_marker ∷ [])
    then with_deleted_flag (with_value_flag key)
    else with_value_flag key

module _ (b : Backend) where
  unfoldable pub value : LwwRegister → Exec Store Bytes
  value reg = do buf ← get b (to_string (with_value_flag reg.key)); λ s. (skip_marker buf, s)

  -- The writes at the end of `setValue`.
  unfoldable pub store_value : LwwRegister → DataStoreKey → Bytes → ℕ → Exec Store (Unit {0})
  store_value reg key val priority = do
    wrap failed_to_store_value (put b (to_string key) (lww_register ∷ val))
    set_priority b reg.key priority

  unfoldable pub set_value : LwwRegister → Bytes → ℕ → Exec Store (Unit {0})
  set_value reg val priority = do
    cur_prio ← wrap failed_to_get_priority (get_priority b reg.key)
    found ← attempt (get b (primary_to_string (to_primary_data_store_key reg.key)))
    marker ← λ s. (marker_of found, s)
    let key = place reg.key marker
    if ltb priority cur_prio
        then pure tt
        else if priority == cur_prio
        then (do
          cur ← attempt (get b (to_string key))
          if bytes_le val (current_value cur) then pure tt else store_value reg key val priority)
        else store_value reg key val priority

  unfoldable pub merge : {Cid : Type 0} → LwwRegister → Delta Cid → Exec Store (Unit {0})
  merge reg (lww d) = set_value reg d.payload d.priority
  merge reg (composite d) = raise mismatched_merge_type
