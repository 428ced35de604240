-- ===== src/Crdt/Composite/Deletion.antt =====
-- core/crdt/composite.go, Merge of a deleted delta: the whole of it, on a document's store.
use defradg.Prelude.{
  ◌≡◌, refl, sym, ◌∙◌, Bytes, codes, true, false, [], ◌∷◌, ◌++◌, Option, none, some, arith,
  bytes_eq, bytes_eq_iff, bytes_eq_refl, bytes_eq_of_ne, ne_of_bytes_eq, inl, inr, ◌⊎◌, ok,
  has_prefix, has_prefix-append, append_assoc,
}
use defradg.Keys.{
  slash, value_key, deleted_key, with_value_flag, with_field_id, to_primary_data_store_key,
}
use defradg.Keys.RoundTrip.{IsSegment, to_string-three, to_string-field}
use defradg.Keys.Distinct.{
  IsAddress, kind-ne-marker, primary-eq-marker, pk-IsSegment, value-IsSegment, deleted-IsSegment,
}
use defradg.Store.{Backend, Store, find, insert, below, lookup_result}
use defradg.Store.Parts.{find-below}
use defradg.Store.Laws.{IsHealthy, get_healthy, query_healthy, put_healthy, find-insert}
use defradg.Crdt.{deleted_object_marker}
use defradg.Crdt.Composite.{
  CompositeDag, marker_text, merge_deleted, delete_with_prefix, move_value, move_entries,
}
use defradg.Crdt.Composite.Moves.{
  WorksAt, Values, move_entries-Moved, or_old, gone, text_at, IsOther,
}

gone_self : (o : Option Bytes) → gone o o ≡ none
gone_self none = refl
gone_self (some v) = refl

below-insert :
    (p k v : Bytes) (s : Store)
    → has_prefix k (p ++ slash ∷ []) ≡ false
    → below p (insert k v s) ≡ below p s
unfolding below insert
below-insert p k v [] h = ground arith
below-insert p k v ((i, w) ∷ s) h = ground (arith, below-insert p k v s, bytes_eq_iff i k)

module _ (b : Backend) (c : CompositeDag) (a : IsAddress c.key) where
  abbrev col : Bytes
  col = c.key.collection_id

  abbrev doc : Bytes
  doc = c.key.doc_key

  -- The path of the document's values.
  abbrev pub values_text : Bytes
  values_text = text_at col doc a.collection a.doc value_key []

  below-field :
      (f : Bytes)
      → IsSegment f
      → has_prefix (text_at col doc a.collection a.doc value_key f) (values_text ++ slash ∷ [])
        ≡ true
  below-field f hf =
      rw (to_string-field col value_key doc f hf.full)
        (rw (has_prefix-append values_text (slash ∷ f) (slash ∷ [])))

  marker-not-below : has_prefix (marker_text c) (values_text ++ slash ∷ []) ≡ false
  marker-not-below = rw (primary-eq-marker c.key a) (
      rw (to_string-three col (codes "pk") doc a.collection pk-IsSegment a.doc) (
        rw (to_string-three col value_key doc a.collection value-IsSegment a.doc)
          (rw append_assoc (rw (has_prefix-append col _ _)))))

  marker-IsOther : IsOther col doc a.collection a.doc (marker_text c)
  unfolding to_primary_data_store_key
  marker-IsOther = record {
    apart = λ i f k hf.
        let at : IsAddress (record c.key { field_id = f }) = record {
          collection = a.collection;
          doc = a.doc;
          field = hf.plain;
        } in
        bytes_eq_of_ne (text_at col doc a.collection a.doc i f) (marker_text c) (elim k [
          | inl e ↦ rw e (
              kind-ne-marker (record c.key { field_id = f }) value_key at value-IsSegment
                (ne_of_bytes_eq _ _ refl))
          | inr e ↦ rw e (
              kind-ne-marker (record c.key { field_id = f }) deleted_key at deleted-IsSegment
                (ne_of_bytes_eq _ _ refl))
        ]);
  }

  marker-ne-values : bytes_eq (marker_text c) values_text ≡ false
  unfolding to_primary_data_store_key
  marker-ne-values = bytes_eq_of_ne (marker_text c) values_text λ h.
      kind-ne-marker (record c.key { field_id = [] }) value_key
        (record { collection = a.collection; doc = a.doc; field = tt }) value-IsSegment
        (ne_of_bytes_eq _ _ refl) (sym h)

  -- The store after the marker is written.
  abbrev marked : Store → Store
  marked s = insert (marker_text c) (deleted_object_marker ∷ []) s

  marked_field :
      (i f : Bytes) (s : Store)
      → (i ≡ value_key) ⊎ (i ≡ deleted_key)
      → IsSegment f
      → find (text_at col doc a.collection a.doc i f) (marked s)
        ≡ find (text_at col doc a.collection a.doc i f) s
  marked_field i f s k hf =
      rw
        (find-insert (marker_text c) (text_at col doc a.collection a.doc i f)
          (deleted_object_marker ∷ []) s)
        (rw (bytes_eq_of_ne _ _ (λ h. ne_of_bytes_eq _ _ (marker-IsOther.apart i f k hf) (sym h))))

  merge_deleted_run :
      (s : Store)
      → IsHealthy b (marker_text c)
      → IsHealthy b values_text
      → find values_text s ≡ none
      → merge_deleted b c s ≡ move_entries b (below values_text s) (marked s)
  unfolding merge_deleted delete_with_prefix with_field_id with_value_flag move_value
  merge_deleted_run s hm hv empty =
      rw (put_healthy b (marker_text c) s hm (deleted_object_marker ∷ [])) (
        rw (get_healthy b values_text (marked s) hv) (
          rw (find-insert (marker_text c) values_text (deleted_object_marker ∷ []) s) (
            rw marker-ne-values (
              rw empty (
                unfold lookup_result in
                rw (query_healthy b values_text (marked s) hv) (
                  rw (
                    below-insert values_text (marker_text c) (deleted_object_marker ∷ []) s
                      marker-not-below)))))))

  -- Of a document whose key is of path components, where the storage works at its marker, at the path of its
  -- values and at the keys of its fields, what stands below that path is at most one value for each field,
  -- and nothing stands at the path itself: the merge of a deleted delta succeeds. It marks the document as
  -- deleted; each field has no value then, and at its deleted key stands the value that it had (what stood
  -- there stays, for a field with no value); no other key changes.
  pub merge_deleted_lem :
      (s : Store)
      → WorksAt col doc a.collection a.doc b
      → IsHealthy b (marker_text c)
      → IsHealthy b values_text
      → find values_text s ≡ none
      → Values col doc a.collection a.doc (below values_text s)
      → ((merge_deleted b c s).0 ≡ ok tt)
        × (find (marker_text c) (merge_deleted b c s).1 ≡ some (deleted_object_marker ∷ []))
        × ((f : Bytes)
            → IsSegment f
            → (find (text_at col doc a.collection a.doc value_key f) (merge_deleted b c s).1 ≡ none)
              × (find (text_at col doc a.collection a.doc deleted_key f) (merge_deleted b c s).1
                  ≡ or_old
                      (find (text_at col doc a.collection a.doc value_key f) s)
                      (find (text_at col doc a.collection a.doc deleted_key f) s)))
        × ((j : Bytes)
            → IsOther col doc a.collection a.doc j
            → bytes_eq (marker_text c) j ≡ false
            → find j (merge_deleted b c s).1 ≡ find j s)
  merge_deleted_lem s w hm hv empty vals =
      let (done, m) =
        move_entries-Moved col doc a.collection a.doc b w (below values_text s) (marked s) vals in
      rw (merge_deleted_run s hm hv empty) (
        done,
        m.at_other (marker_text c) marker-IsOther
            ∙ rw (find-insert (marker_text c) (marker_text c) (deleted_object_marker ∷ []) s)
                (rw (bytes_eq_refl (marker_text c))),
        λ f hf. (
          m.at_value f hf
              ∙ rw (find-below values_text _ s (below-field f hf)) (
                  rw (marked_field value_key f s (inl refl) hf)
                    (gone_self (find (text_at col doc a.collection a.doc value_key f) s))),
          m.at_deleted f hf
              ∙ rw (find-below values_text _ s (below-field f hf))
                  (rw (marked_field deleted_key f s (inr refl) hf)),
        ),
        λ j o n.
            m.at_other j o
            ∙ rw (find-insert (marker_text c) j (deleted_object_marker ∷ []) s) (rw n),
      )
