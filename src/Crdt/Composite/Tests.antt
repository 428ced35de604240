-- ===== src/Crdt/Composite/Tests.antt =====
-- core/crdt/composite.go: the deletion of a document with one field, and the theorems of Composite.
use defradg.Prelude.{◌≡◌, refl, false, Bytes, codes, [], ◌∷◌, some, none, arith, ok, bytes_eq}
use defradg.Keys.{
  DataStoreKey, slash, to_string, primary_to_string, to_primary_data_store_key, value_key,
  deleted_key, priority_key,
}
use defradg.Keys.RoundTrip.{IsSegment}
use defradg.Keys.Distinct.{IsAddress}
use defradg.Varint.{put_uvarint, uvarint-put_uvarint}
use defradg.Store.{Backend, Store, find, below, lookup_result}
use defradg.Store.Laws.{IsHealthy}
use defradg.Crdt.{deleted_object_marker, object_marker, read_priority}
use defradg.Crdt.Lww.Merge.{Shows, marker_bytes}
use defradg.Crdt.Composite.{CompositeDag, marker_text, merge_deleted}
use defradg.Crdt.Composite.Moves.{Values, text_at, or_old, IsOther}
use defradg.Crdt.Composite.Deletion.{values_text, merge_deleted_lem}
use defradg.Crdt.Composite.Registers.{field_key, merge_deleted-Shows}

abbrev calm : Backend
calm = record { new_key = λ s. s; fails = λ o k. false }

abbrev dag : CompositeDag
dag = record {
  key = record {
    collection_id = codes "1";
    instance_type = codes "v";
    doc_key = codes "bae";
    field_id = codes "C";
  };
  schema_version_id = codes "s";
  field_name = [];
}

address : IsAddress dag.key
address = record {
  collection = record { full = refl; plain = omega arith };
  doc = record { full = refl; plain = omega arith };
  field = omega arith;
}

IsHealthy-at : (k : Bytes) → IsHealthy calm k
IsHealthy-at k = record { works = λ o. refl; clean = refl }

-- A document with the value "a" of priority 3 in its field "2".
abbrev stored : Store
stored =
    (codes "/1/p/bae/2", put_uvarint 3)
    ∷ (codes "/1/pk/bae", object_marker ∷ [])
    ∷ (codes "/1/v/bae/2", 1 ∷ codes "a")
    ∷ []

abbrev two : Bytes
two = codes "2"

two-IsSegment : IsSegment two
two-IsSegment = record { full = refl; plain = omega arith }

no_own_value : find (values_text calm dag address) stored ≡ none
unfolding find to_string
no_own_value = refl

one_value :
    Values
      (codes "1")
      (codes "bae")
      address.collection
      address.doc
      (below (values_text calm dag address) stored)
unfolding below find to_string
one_value = ((two, two-IsSegment, refl, refl), tt)

merge_deleted_lem_example :
    let s' = (merge_deleted calm dag stored).1 in
    ((merge_deleted calm dag stored).0 ≡ ok tt)
    × (find (marker_text dag) s' ≡ some (deleted_object_marker ∷ []))
    × ((f : Bytes)
        → IsSegment f
        → (find (text_at (codes "1") (codes "bae") address.collection address.doc value_key f) s'
            ≡ none)
          × (find
                (text_at (codes "1") (codes "bae") address.collection address.doc deleted_key f)
                s'
              ≡ or_old
                  (find
                    (text_at (codes "1") (codes "bae") address.collection address.doc value_key f)
                    stored)
                  (find
                    (text_at (codes "1") (codes "bae") address.collection address.doc deleted_key f)
                    stored)))
    × ((j : Bytes)
        → IsOther (codes "1") (codes "bae") address.collection address.doc j
        → bytes_eq (marker_text dag) j ≡ false
        → find j s' ≡ find j stored)
merge_deleted_lem_example =
    merge_deleted_lem calm dag address stored (record { at_field = λ i f hi hf. IsHealthy-at _ })
      (IsHealthy-at (marker_text dag)) (IsHealthy-at _) no_own_value one_value

not_marked :
    bytes_eq (marker_bytes (find (marker_text dag) stored)) (deleted_object_marker ∷ []) ≡ false
unfolding find primary_to_string to_primary_data_store_key
not_marked = refl

none_deleted :
    find (text_at (codes "1") (codes "bae") address.collection address.doc deleted_key two) stored
    ≡ none
unfolding find to_string
none_deleted = refl

shown : Shows (field_key calm dag address two) stored (3, codes "a")
unfolding find lookup_result to_string to_primary_data_store_key primary_to_string
    defradg.Keys.with_priority_flag defradg.Keys.with_value_flag
shown = record { prio = rw (uvarint-put_uvarint 3 (omega arith), read_priority); val = refl }

merge_deleted-Shows_example :
    Shows (field_key calm dag address two) (merge_deleted calm dag stored).1 (3, codes "a")
merge_deleted-Shows_example =
    merge_deleted-Shows calm dag address stored two (3, codes "a")
      (record { at_field = λ i f hi hf. IsHealthy-at _ }) (IsHealthy-at (marker_text dag))
      (IsHealthy-at _) no_own_value one_value two-IsSegment not_marked none_deleted shown
