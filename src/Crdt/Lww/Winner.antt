-- ===== src/Crdt/Lww/Winner.antt =====
-- core/crdt/lwwreg.go, Value behind a Merge that is later than what the register shows.
use defradg.Prelude.{
  ◌≡◌, refl, true, false, ◌∷◌, [], some, bytes_eq, bytes_eq_refl, bytes_eq_of_ne, ok,
}
use defradg.Keys.{DataStoreKey, to_string, with_value_flag}
use defradg.Keys.Distinct.{IsAddress}
use defradg.Store.{Backend, Store, find, lookup_result}
use defradg.Store.Laws.{get_healthy}
use defradg.Crdt.{LwwRegDelta, lww, lww_register, deleted_object_marker}
use defradg.Crdt.Lww.{LwwRegister, value, merge}
use defradg.Crdt.Lww.Join.{Write, later}
use defradg.Crdt.Lww.Merge.{
  Works, Shows, write_of, marker_bytes, marker_text, value_text, written, set_value_works,
  find-written, marker-written, place-ne-priority,
}

-- The document of the register is not marked as deleted.
pub record IsLive (k : DataStoreKey) (s : Store) : Type 0 where
  pub unmarked :
      bytes_eq (marker_bytes (find (marker_text k) s)) (deleted_object_marker ∷ []) ≡ false

module _ (b : Backend) (reg : LwwRegister) (works : Works b reg.key) (a : IsAddress reg.key) where
  live_text :
      (s : Store) → IsLive reg.key s → value_text reg.key s ≡ to_string (with_value_flag reg.key)
  live_text s live = rw live.unmarked refl

  find_live :
      (s : Store) (d : LwwRegDelta)
      → IsLive reg.key s
      → find (to_string (with_value_flag reg.key)) (written b reg s works d.payload d.priority)
        ≡ some (lww_register ∷ d.payload)
  find_live s d live =
      rw
        (
          find-written b reg works a s d.payload d.priority (to_string (with_value_flag reg.key)),
          bytes_eq_of_ne _ _ (place-ne-priority reg.key [] a),
          live_text s live,
          bytes_eq_refl (to_string (with_value_flag reg.key)),
        )
        refl

  -- The value that a later delta sets is the one that is read.
  pub value-merge :
      (Cid : Type 0) (s : Store) (w : Write) (d : LwwRegDelta)
      → Shows reg.key s w
      → later w (write_of d) ≡ true
      → IsLive reg.key s
      → (value b reg (merge b {Cid = Cid} reg (lww d) s).1).0 ≡ ok d.payload
  unfolding merge value
  value-merge Cid s w d h l live =
      rw (set_value_works b reg s works w d.payload d.priority h, l)
        (rw
          (
            get_healthy b _ (written b reg s works d.payload d.priority) works.at_value,
            find_live s d live,
          )
          (unfold lookup_result in refl))

  pub IsLive-merge :
      (Cid : Type 0) (s : Store) (w : Write) (d : LwwRegDelta)
      → Shows reg.key s w
      → later w (write_of d) ≡ true
      → IsLive reg.key s
      → IsLive reg.key (merge b {Cid = Cid} reg (lww d) s).1
  unfolding merge
  IsLive-merge Cid s w d h l live = record {
    unmarked =
        rw
          (
            set_value_works b reg s works w d.payload d.priority h,
            l,
            marker-written b reg works a s d.payload d.priority,
          )
          live.unmarked;
  }
