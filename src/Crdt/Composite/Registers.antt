-- ===== src/Crdt/Composite/Registers.antt =====
-- core/crdt: the deletion of a document and the registers of its fields.
use defradg.Prelude.{
  ◌≡◌, ◌≢◌, refl, ap, sym, Bytes, false, [], ◌∷◌, Option, none, some, bytes_eq, bytes_eq_of_ne,
  ne_of_bytes_eq, inl, inr,
}
use defradg.Keys.{
  DataStoreKey, value_key, priority_key, deleted_key, with_value_flag, with_deleted_flag,
  with_priority_flag, to_primary_data_store_key,
}
use defradg.Keys.RoundTrip.{IsSegment, to_string-injective}
use defradg.Keys.Distinct.{
  IsAddress, kind-ne-marker, value-IsSegment, priority-IsSegment, deleted-IsSegment,
}
use defradg.Store.{Backend, Store, find, below}
use defradg.Store.Laws.{IsHealthy}
use defradg.Crdt.{deleted_object_marker}
use defradg.Crdt.Lww.Join.{Write}
use defradg.Crdt.Lww.Merge.{Shows, priority_text, marker_bytes}
use defradg.Crdt.Composite.{CompositeDag, marker_text, merge_deleted}
use defradg.Crdt.Composite.Moves.{WorksAt, Values, or_old, key_at, text_at, key_at-IsWhole, IsOther}
use defradg.Crdt.Composite.Deletion.{values_text, merge_deleted_lem}

or_old-none : (o : Option Bytes) → or_old o none ≡ o
or_old-none none = refl
or_old-none (some v) = refl

module _ (b : Backend) (c : CompositeDag) (a : IsAddress c.key) where
  abbrev col : Bytes
  col = c.key.collection_id

  abbrev doc : Bytes
  doc = c.key.doc_key

  -- The key of the register of a field.
  abbrev pub field_key : Bytes → DataStoreKey
  field_key f = record c.key { field_id = f }

  priority-IsOther :
      (f : Bytes) → IsSegment f → IsOther col doc a.collection a.doc (priority_text (field_key f))
  unfolding with_priority_flag
  priority-IsOther f hf = record {
    apart = λ i g k hg. elim k [
      | inl e ↦ rw e (clash value_key g value-IsSegment hg (ne_of_bytes_eq _ _ refl))
      | inr e ↦ rw e (clash deleted_key g deleted-IsSegment hg (ne_of_bytes_eq _ _ refl))
    ];
  }
    where
      clash :
          (i g : Bytes)
          → IsSegment i
          → IsSegment g
          → i ≢ priority_key
          → bytes_eq
              (text_at col doc a.collection a.doc i g)
              (text_at col doc a.collection a.doc priority_key f)
            ≡ false
      clash i g hi hg n = bytes_eq_of_ne _ _ λ h. n (
          ap (λ (x : DataStoreKey). x.instance_type)
            (to_string-injective (key_at col doc a.collection a.doc i g)
              (key_at col doc a.collection a.doc priority_key f)
              (key_at-IsWhole col doc a.collection a.doc i g hi) hg.plain
              (key_at-IsWhole col doc a.collection a.doc priority_key f priority-IsSegment) hf.plain
              h))

  priority-ne-marker : (f : Bytes) → IsSegment f → priority_text (field_key f) ≢ marker_text c
  unfolding with_priority_flag to_primary_data_store_key
  priority-ne-marker f hf =
      kind-ne-marker (field_key f) priority_key
        (record { collection = a.collection; doc = a.doc; field = hf.plain }) priority-IsSegment
        (ne_of_bytes_eq _ _ refl)

  -- Of a document whose key is of path components and which is not marked as deleted, where the storage works
  -- at its marker, at the path of its values and at the keys of its fields, what stands below that path is at
  -- most one value for each field, and nothing stands at the path itself: the register of a field that has
  -- nothing at its deleted key shows the same priority and value after the merge of a deleted delta.
  pub merge_deleted-Shows :
      (s : Store) (f : Bytes) (w : Write)
      → WorksAt col doc a.collection a.doc b
      → IsHealthy b (marker_text c)
      → IsHealthy b (values_text b c a)
      → find (values_text b c a) s ≡ none
      → Values col doc a.collection a.doc (below (values_text b c a) s)
      → IsSegment f
      → bytes_eq (marker_bytes (find (marker_text c) s)) (deleted_object_marker ∷ []) ≡ false
      → find (text_at col doc a.collection a.doc deleted_key f) s ≡ none
      → Shows (field_key f) s w
      → Shows (field_key f) (merge_deleted b c s).1 w
  unfolding with_value_flag with_deleted_flag to_primary_data_store_key
  merge_deleted-Shows s f w works hm hv empty vals hf active fresh h =
      let (done, marked, fields, others) = merge_deleted_lem b c a s works hm hv empty vals in
      let apart =
        bytes_eq_of_ne (marker_text c) (priority_text (field_key f))
          (λ e. priority-ne-marker f hf (sym e)) in
      record {
        prio = rw (others (priority_text (field_key f)) (priority-IsOther f hf) apart) h.prio;
        val = rw marked (
            rw ((fields f hf).1) (
              rw fresh (
                rw (or_old-none (find (text_at col doc a.collection a.doc value_key f) s))
                  (rw active at h.val))));
      }
