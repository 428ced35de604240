-- ===== src/Fetcher.antt =====
-- db/fetcher/fetcher.go: documents from the pairs of keys and values that an iterator gives. The
-- datastore's iterator is a `Source`. A document is given by value: the next call changes the code's
-- one document in place.
pub mod Pairs
pub mod Reference
pub mod Arrive
pub mod Documents
pub mod Merged
pub mod KeyOrder
pub mod Order
pub mod Yielded
pub mod Tests
use defradg.Prelude.{
  ℕ, zero, suc, Bytes, Bool, true, false, not, ◌&&◌, ◌||◌, List, [], ◌∷◌, length, reverse, Option,
  none, some, bytes_eq, is_empty, ◌==◌, if◌then◌else◌, Result, ok, err, panic,
  uninitialized_property, field_id_not_found, failed_to_get_field_id, ◌>>=◌,
}
use defradg.Prelude.Exec
use defradg.Prelude.Exec.{Exec, ◌>>◌}
use defradg.Prelude.Decimal.{atoi, to_uint32}
use defradg.Keys.{
  DataStoreKey, new_data_store_key, to_string, value_key, deleted_key, with_value_flag,
  with_deleted_flag, prefix_end,
}
use defradg.Crdt.{object_marker}
use defradg.Spans.{Span, new_span, merge_ascending}
use defradg.Collection.{
  CType, none_crdt, lww_register, object, composite, FieldDescription, CollectionDescription,
  is_empty_schema, make_collection_key, first_field,
}
use defradg.Merkle.Factory.{ctype_number}

-- `client.FieldDescription` as the key of a map: all its fields are compared.
unfoldable pub same_field : FieldDescription → FieldDescription → Bool
same_field f g =
    bytes_eq f.name g.name
    && (f.id == g.id
        && (f.kind == g.kind
            && (bytes_eq f.schema g.schema
                && (bytes_eq f.relation_name g.relation_name
                    && (ctype_number f.typ == ctype_number g.typ
                        && f.relation_type == g.relation_type)))))

pub record KeyValue : Type 0 where
  pub key : DataStoreKey
  pub value : Bytes

-- A nil key is none.
pub record EncodedDocument : Type 0 where
  pub key : Option Bytes
  pub properties : List (FieldDescription × Bytes)

-- A write to the map of properties.
unfoldable pub set_property :
    FieldDescription → Bytes → List (FieldDescription × Bytes) → List (FieldDescription × Bytes)
set_property f raw [] = (f, raw) ∷ []
set_property f raw ((g, r) ∷ ps) =
    if same_field g f then (f, raw) ∷ ps else (g, r) ∷ set_property f raw ps

-- The results of an iterator over the keys of a span; a result may be an error.
abbrev pub Results : Type 0
Results = List (Result (Bytes × Bytes))

-- `txn.Datastore()`: GetIterator, in descending order or not, IteratePrefix, and the two Close.
pub record Source : Type 0 where
  pub get_iterator : Bool → Result (Unit {0})
  pub iterate_prefix : Bool → DataStoreKey → DataStoreKey → Result Results
  pub close_results : Result (Unit {0})
  pub close_iterator : Result (Unit {0})

-- `left` are the spans behind the one at curSpanIndex, and `kv_iter` the order of an iterator that is
-- open.
pub record DocumentFetcher : Type 0 where
  pub col : Option CollectionDescription
  pub reverse : Bool
  pub left : List (Option Span)
  pub schema_fields : List FieldDescription
  pub doc : Option EncodedDocument
  pub initialized : Bool
  pub kv : Option KeyValue
  pub kv_iter : Option Bool
  pub kv_results_iter : Option Results
  pub kv_end : Bool
  pub is_reading_document : Bool

abbrev pub empty_doc : EncodedDocument
empty_doc = record { key = none; properties = [] }

-- `new(DocumentFetcher)`
abbrev pub blank : DocumentFetcher
blank = record {
  col = none;
  reverse = false;
  left = [];
  schema_fields = [];
  doc = none;
  initialized = false;
  kv = none;
  kv_iter = none;
  kv_results_iter = none;
  kv_end = false;
  is_reading_document = false;
}

-- `kv.Key.FieldID()`
unfoldable pub field_id_of : DataStoreKey → Result ℕ
field_id_of k = elim (atoi k.field_id) [
  | none ↦ err failed_to_get_field_id
  | some n ↦ ok (to_uint32 n)
]

-- `df.schemaFields[fieldID]`: the map holds the last field of the schema that has the id.
unfoldable pub schema_field : ℕ → List FieldDescription → Result FieldDescription
schema_field id fs = elim (first_field (λ f. f.id == id) (reverse fs)) [
  | none ↦ err field_id_not_found
  | some f ↦ ok f
]

-- The end of processKV: a pair that is no object marker is a property.
unfoldable pub add_property :
    List FieldDescription
    → KeyValue
    → List (FieldDescription × Bytes)
    → Result (List (FieldDescription × Bytes))
add_property fs kv ps = do
  id ← field_id_of kv.key
  f ← schema_field id fs
  ok (set_property f kv.value ps)

abbrev pub with_properties :
    Result (List (FieldDescription × Bytes))
    → Option Bytes
    → DocumentFetcher
    → Result (Unit {0}) × DocumentFetcher
with_properties (ok ps) k df =
    (ok tt, record df { doc = some (record { key = k; properties = ps }) })
with_properties (err e) k df = (err e, df)

-- The document that a pair is added to.
abbrev pub reading : KeyValue → DocumentFetcher → EncodedDocument → EncodedDocument
reading kv df d =
    if df.is_reading_document then d else record { key = some kv.key.doc_key; properties = [] }

-- `bytes.Equal(df.kv.Value, []byte{base.ObjectMarker})`
abbrev pub is_marker : KeyValue → Bool
is_marker kv = bytes_eq kv.value (object_marker ∷ [])

unfoldable pub process_kv : KeyValue → Exec DocumentFetcher (Unit {0})
process_kv kv df = elim df.doc [
  | none ↦ (err uninitialized_property, df)
  | some d ↦
      let df' = record df { doc = some (reading kv df d); is_reading_document = true } in
      elim df.kv [
        | none ↦ (err panic, df')
        | some current ↦
            if is_marker current
            then (ok tt, df')
            else with_properties (add_property df.schema_fields kv (reading kv df d).properties)
                (reading kv df d).key df'
      ]
]

-- `nextKV`: whether the results are exhausted, and the pair. A nil iterator panics.
abbrev keyed : Bytes → Result DataStoreKey → Result (Bool × Option KeyValue)
keyed v (err e) = err e
keyed v (ok key) = ok (false, some (record { key = key; value = v }))

abbrev read_entry : Result (Bytes × Bytes) → Result (Bool × Option KeyValue)
read_entry (err e) = err e
read_entry (ok (k, v)) = keyed v (new_data_store_key k)

abbrev read_results :
    Option Results → DocumentFetcher → Result (Bool × Option KeyValue) × DocumentFetcher
read_results none df = (err panic, df)
read_results (some []) df = (ok (true, none), df)
read_results (some (r ∷ rs)) df = (read_entry r, record df { kv_results_iter = some rs })

unfoldable pub next_kv : Exec DocumentFetcher (Bool × Option KeyValue)
next_kv df = read_results df.kv_results_iter df

-- A key of another instance type ends the span.
unfoldable pub escaped : Option KeyValue → Bool
escaped none = false
escaped (some kv) =
    not (bytes_eq kv.key.instance_type value_key) && not (bytes_eq kv.key.instance_type deleted_key)

abbrev is_other : Option Bytes → Option KeyValue → Bool
is_other (some d) (some kv) = not (bytes_eq kv.key.doc_key d)
is_other _ _ = false

abbrev key_of_doc : Option EncodedDocument → Option Bytes
key_of_doc none = none
key_of_doc (some d) = d.key

-- The end of nextKey, with startNextSpan as an argument.
abbrev ended : Result Bool × DocumentFetcher → Result Bool × DocumentFetcher
ended (ok started, df) = (ok true, df)
ended (err e, df) = (err e, df)

unfoldable pub crossed : Exec DocumentFetcher Bool → Exec DocumentFetcher Bool
crossed start df =
    if df.kv_end
    then ended (start df)
    else if is_other (key_of_doc df.doc) df.kv
    then (ok true, record df { is_reading_document = false })
    else (ok false, df)

abbrev after_kv :
    Exec DocumentFetcher Bool
    → Result (Bool × Option KeyValue) × DocumentFetcher
    → Result Bool × DocumentFetcher
after_kv start (err e, df) = (err e, record df { kv = none })
after_kv start (ok (span_done, kv), df) =
    crossed start (record df { kv = kv; kv_end = span_done || escaped kv })

unfoldable pub next_key_with : Exec DocumentFetcher Bool → Exec DocumentFetcher Bool
next_key_with start df = after_kv start (next_kv df)

module _ (src : Source) where
  abbrev opened : Result (Unit {0}) → Exec DocumentFetcher (Unit {0})
  opened (ok _) df = (ok tt, record df { kv_iter = some df.reverse })
  opened (err e) df = (err e, df)

  -- `if df.kvIter == nil`
  unfoldable pub open_iterator : Exec DocumentFetcher (Unit {0})
  open_iterator df = elim df.kv_iter [
    | some _ ↦ (ok tt, df)
    | none ↦ opened (src.get_iterator df.reverse) df
  ]

  -- `if df.kvResultsIter != nil`
  unfoldable pub close_results : Exec DocumentFetcher (Unit {0})
  close_results df = elim df.kv_results_iter [
    | none ↦ (ok tt, df)
    | some _ ↦ (src.close_results, df)
  ]

  abbrev iterator_order : Option Bool → Bool
  iterator_order none = false
  iterator_order (some order) = order

  abbrev iterating : List (Option Span) → Result Results → Exec DocumentFetcher (Unit {0})
  iterating left (ok rs) df = (ok tt, record df { kv_results_iter = some rs; left = left })
  iterating left (err e) df = (err e, record df { kv_results_iter = none })

  unfoldable pub iterate_span : Option Span → List (Option Span) → Exec DocumentFetcher (Unit {0})
  iterate_span none left df = (err panic, df)
  iterate_span (some s) left df =
      iterating left (src.iterate_prefix (iterator_order df.kv_iter) s.start s.end) df

  -- startNextSpan, with the spans that are left as an argument.
  unfoldable pub start_spans : List (Option Span) → Exec DocumentFetcher Bool
  start_spans [] = Exec.pure false
  start_spans (s ∷ left) =
      let start = start_spans left in
      open_iterator
      >> (close_results >> (iterate_span s left >> (next_key_with start >> Exec.pure true)))

  unfoldable pub start_next_span : Exec DocumentFetcher Bool
  start_next_span df = start_spans df.left df

  unfoldable pub next_key : Exec DocumentFetcher Bool
  next_key df = next_key_with (start_spans df.left) df

  abbrev pub after_next :
      Exec DocumentFetcher (Option EncodedDocument)
      → Result Bool × DocumentFetcher
      → Result (Option EncodedDocument) × DocumentFetcher
  after_next rest (err e, df) = (err e, df)
  after_next rest (ok true, df) = (ok df.doc, df)
  after_next rest (ok false, df) = rest df

  abbrev pub after_process :
      Exec DocumentFetcher (Option EncodedDocument)
      → Result (Unit {0}) × DocumentFetcher
      → Result (Option EncodedDocument) × DocumentFetcher
  after_process rest (err e, df) = (err e, df)
  after_process rest (ok _, df) = after_next rest (next_key df)

  -- The loop of FetchNext, in rounds.
  unfoldable pub fetch_loop : ℕ → Exec DocumentFetcher (Option EncodedDocument)
  fetch_loop zero df = (err panic, df)
  fetch_loop (suc rounds) df =
      let rest = fetch_loop rounds in
      elim df.kv [ none ↦ (err panic, df) | some kv ↦ after_process rest (process_kv kv df) ]

  abbrev results_left : Option Results → ℕ
  results_left none = 0
  results_left (some rs) = length rs

  -- Each round but the last takes a result, so that the rounds are enough.
  unfoldable pub fetch_next : Exec DocumentFetcher (Option EncodedDocument)
  fetch_next df = if df.kv_end then (ok none, df) else elim df.kv [
    | none ↦ (err uninitialized_property, df)
    | some _ ↦ fetch_loop (suc (results_left df.kv_results_iter)) df
  ]

  abbrev span_of : Bool → Span → Span
  span_of deleted s =
      if deleted
      then new_span (with_deleted_flag s.start) (with_deleted_flag s.end)
      else new_span (with_value_flag s.start) (with_value_flag s.end)

  abbrev flagged : Bool → DataStoreKey → DataStoreKey
  flagged deleted k = if deleted then with_deleted_flag k else with_value_flag k

  spans_of : Bool → List Span → List Span
  spans_of deleted [] = []
  spans_of deleted (s ∷ ss) = span_of deleted s ∷ spans_of deleted ss

  -- The spans of `start`: none are given, or some are, which are merged.
  unfoldable pub spans_for :
      CollectionDescription → Bool → Bool → Option (List Span) → Result (List (Option Span))
  unfolding spans_of
  spans_for c backward deleted none =
      let k = flagged deleted (make_collection_key c) in ok (some (new_span k (prefix_end k)) ∷ [])
  spans_for c backward deleted (some given) = do
    merged ← merge_ascending (spans_of deleted given)
    ok (if backward then reverse merged else merged)

  abbrev started : Result (List (Option Span)) → Exec DocumentFetcher (Unit {0})
  started (err e) df = (err e, df)
  started (ok spans) df = (start_next_span >> Exec.pure tt) (record df { left = spans })

  -- `start`
  unfoldable pub start_fetcher : Option (List Span) → Bool → Exec DocumentFetcher (Unit {0})
  start_fetcher given deleted df = elim df.col [
    | none ↦ (err uninitialized_property, df)
    | some c ↦ elim df.doc [
      | none ↦ (err uninitialized_property, df)
      | some d ↦ started (spans_for c df.reverse deleted given) df
    ]
  ]

  -- `if df.kvIter != nil`
  unfoldable pub close_iterator : Exec DocumentFetcher (Unit {0})
  close_iterator df = elim df.kv_iter [ none ↦ (ok tt, df) | some _ ↦ (src.close_iterator, df) ]

  -- `init`
  unfoldable pub init_fetcher : CollectionDescription → Bool → Exec DocumentFetcher (Unit {0})
  init_fetcher c backward df =
      ((close_results >> (λ d. (ok tt, record d { kv_results_iter = none })) >> close_iterator)
          >> (λ d. (ok tt, record d { kv_iter = none; schema_fields = c.schema.fields })))
        (record df {
          col = some c;
          reverse = backward;
          initialized = true;
          is_reading_document = false;
          doc = some empty_doc;
        })
