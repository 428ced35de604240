-- ===== src/Crdt.antt =====
-- core/crdt: the deltas, and the priorities that base.go keeps beside a register.
pub mod Lww
pub mod Composite
pub mod Priority
use defradg.Prelude.{
  ℕ, Bytes, Bool, List, Option, none, some, Error, Result, ok, err, not_found, is_not_found,
  decoding_priority, if◌then◌else◌, ltb,
}
use defradg.Prelude.Exec.{Exec, pure, raise, attempt, ◌>>=◌}
use defradg.Keys.{DataStoreKey, to_string, with_priority_flag}
use defradg.Varint.{put_uvarint, uvarint}
use defradg.Store.{Backend, Store, get, put}

-- db/base/descriptions.go
abbrev pub object_marker : ℕ
object_marker = 0xff

abbrev pub deleted_object_marker : ℕ
deleted_object_marker = 0xfe

-- client/ctype.go
abbrev pub lww_register : ℕ
lww_register = 1

-- client/document.go, DocumentStatus: Active is 1, Deleted is 2.
abbrev pub is_deleted : ℕ → Bool
is_deleted status = ltb 1 status

pub record LwwRegDelta : Type 0 where
  pub schema_version_id : Bytes
  pub priority : ℕ
  pub payload : Bytes
  pub doc_key : Bytes
  pub field_name : Bytes

pub record DagLink (Cid : Type 0) : Type 0 where
  pub name : Bytes
  pub cid : Cid

pub record CompositeDagDelta (Cid : Type 0) : Type 0 where
  pub schema_version_id : Bytes
  pub priority : ℕ
  pub payload : Bytes
  pub doc_key : Bytes
  pub sub_dags : List (DagLink Cid)
  pub status : ℕ
  pub field_name : Bytes

-- The interface `core.Delta`, by the types that implement it.
pub data Delta (Cid : Type 0) : Type 0 where
  lww : LwwRegDelta → Delta Cid
  composite : CompositeDagDelta Cid → Delta Cid

module _ {Cid : Type 0} where
  unfoldable pub get_priority_of : Delta Cid → ℕ
  get_priority_of (lww d) = d.priority
  get_priority_of (composite d) = d.priority

  unfoldable pub set_priority_of : Delta Cid → ℕ → Delta Cid
  set_priority_of (lww d) prio = lww (record d { priority = prio })
  set_priority_of (composite d) prio = composite (record d { priority = prio })

-- The number that `getPriority` makes of what `Get` returned.
abbrev read_priority : Result Bytes → Result ℕ
read_priority (err e) = if is_not_found e then ok 0 else err e
read_priority (ok buf) = elim (uvarint buf) [ none ↦ err decoding_priority | some p ↦ ok p ]

module _ (b : Backend) where
  -- `PutUvarint` always writes a byte, so that ErrEncodingPriority is not reached.
  unfoldable pub set_priority : DataStoreKey → ℕ → Exec Store (Unit {0})
  set_priority key priority = put b (to_string (with_priority_flag key)) (put_uvarint priority)

  unfoldable pub get_priority : DataStoreKey → Exec Store ℕ
  get_priority key = do
    found ← attempt (get b (to_string (with_priority_flag key)))
    λ s. (read_priority found, s)
