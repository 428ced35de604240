-- ===== src/Fetcher/Tests.antt =====
-- db/fetcher: two books and a deleted one, and the theorems of Fetcher at a source of their pairs.
use defradg.Prelude.{
  ℕ, ◌≡◌, refl, Bytes, codes, true, false, List, [], ◌∷◌, none, some, All, arith, bytes_eq, length,
  Lacks, if◌then◌else◌, Result, ok,
}
use defradg.Prelude.Exec.{◌>>◌}
use defradg.Prelude.Decimal.{atoi, to_uint32}
use defradg.Keys.{slash, DataStoreKey, value_key, with_value_flag, with_deleted_flag, prefix_end}
use defradg.Keys.RoundTrip.{IsSegment, key_of}
use defradg.Spans.{Span, new_span}
use defradg.Collection.{FieldDescription, make_collection_key, first_field}
use defradg.Collection.Tests.{books, age, author}
use defradg.Fetcher.{
  KeyValue, EncodedDocument, Source, add_property, field_id_of, schema_field, set_property,
  same_field, escaped, spans_for,
}
use defradg.Fetcher.Pairs.{IsReadable, entries, Holds}
use defradg.Fetcher.Reference.{documents_of, all_pairs}
use defradg.Fetcher.Documents.{fetch_documents, fetch_documents-eq-documents_of}
use defradg.Fetcher.Merged.{DocumentStatus, init, start, new_fetcher}
use defradg.Fetcher.Yielded.{Served}
use defradg.Fetcher.Order.{ran, decode_all, fetch_docs-in_order}
use defradg.Fetcher.KeyOrder.{merge, InKeyOrder, active_ones, deleted_ones}

abbrev pair_of : Bytes → Bytes → Bytes → Bytes → KeyValue
pair_of kind doc field value = record { key = key_of (codes "40") kind doc field; value = value }

-- The object marker of a document, and two fields; then another document.
abbrev actives : List KeyValue
actives =
    pair_of (codes "v") (codes "a") (codes "1") (codes "x")
    ∷ pair_of (codes "v") (codes "a") (codes "12") (codes "y")
    ∷ pair_of (codes "v") (codes "c") (codes "1") (codes "z")
    ∷ []

abbrev deleteds : List KeyValue
deleteds = pair_of (codes "d") (codes "b") (codes "1") (codes "w") ∷ []

abbrev src : Source
src = record {
  get_iterator = λ backward. ok tt;
  iterate_prefix = λ backward from to.
      ok (if bytes_eq from.instance_type value_key then entries actives else entries deleteds);
  close_results = ok tt;
  close_iterator = ok tt;
}

abbrev document : Bytes → List (FieldDescription × Bytes) → EncodedDocument
document k ps = record { key = some k; properties = ps }

abbrev active_documents : List EncodedDocument
active_documents =
    document (codes "a") ((age, codes "x") ∷ (author, codes "y") ∷ [])
    ∷ document (codes "c") ((age, codes "z") ∷ [])
    ∷ []

abbrev deleted_documents : List EncodedDocument
deleted_documents = document (codes "b") ((age, codes "w") ∷ []) ∷ []

documents-actives :
    documents_of books.schema.fields (all_pairs (actives ∷ [])) ≡ ok active_documents
unfolding add_property field_id_of schema_field set_property same_field first_field atoi to_uint32
documents-actives = refl

documents-deleteds :
    documents_of books.schema.fields (all_pairs (deleteds ∷ [])) ≡ ok deleted_documents
unfolding add_property field_id_of schema_field set_property same_field first_field atoi to_uint32
documents-deleteds = refl

segments :
    IsSegment (codes "40") × IsSegment (codes "a") × IsSegment (codes "b") × IsSegment (codes "c")
segments = (
  record { full = refl; plain = omega arith },
  record { full = refl; plain = omega arith },
  record { full = refl; plain = omega arith },
  record { full = refl; plain = omega arith },
)

active_pair : (d f x : Bytes) → IsSegment d → Lacks slash f → IsReadable (pair_of (codes "v") d f x)
unfolding escaped
active_pair d f x h l = record {
  whole = record {
    collection = segments.0;
    kind = record { full = refl; plain = omega arith };
    doc = h;
  };
  plain = l;
  kind = refl;
}

deleted_pair :
    (d f x : Bytes) → IsSegment d → Lacks slash f → IsReadable (pair_of (codes "d") d f x)
unfolding escaped
deleted_pair d f x h l = record {
  whole = record {
    collection = segments.0;
    kind = record { full = refl; plain = omega arith };
    doc = h;
  };
  plain = l;
  kind = refl;
}

abbrev span_from : DataStoreKey → Span
unfolding new_span
span_from k = new_span k (prefix_end k)

spans-none :
    (spans_for src books false false none
      ≡ ok (some (span_from (with_value_flag (make_collection_key books))) ∷ []))
    × (spans_for src books false true none
        ≡ ok (some (span_from (with_deleted_flag (make_collection_key books))) ∷ []))
unfolding spans_for new_span span_from
spans-none = (refl, refl)

actives-IsReadable : All IsReadable actives
actives-IsReadable = (
  active_pair (codes "a") (codes "1") (codes "x") segments.1 (omega arith),
  (
    active_pair (codes "a") (codes "12") (codes "y") segments.1 (omega arith),
    (active_pair (codes "c") (codes "1") (codes "z") segments.3 (omega arith), tt),
  ),
)

abbrev active_span : Span
active_span = span_from (with_value_flag (make_collection_key books))

Holds-actives : Holds src false (some active_span ∷ []) (actives ∷ [])
unfolding with_value_flag new_span span_from
Holds-actives = (refl, tt)

Served-actives : Served src books false none false active_documents
unfolding with_value_flag new_span span_from
Served-actives = record {
  span = span_from (with_value_flag (make_collection_key books));
  left = [];
  pairs = actives ∷ [];
  spans = spans-none.0;
  holds = (refl, tt);
  readable = (actives-IsReadable, tt);
  apart = ((tt, (tt, (tt, tt))), tt);
  documents = documents-actives;
}

Served-deleteds : Served src books false none true deleted_documents
unfolding with_deleted_flag new_span span_from
Served-deleteds = record {
  span = span_from (with_deleted_flag (make_collection_key books));
  left = [];
  pairs = deleteds ∷ [];
  spans = spans-none.1;
  holds = (refl, tt);
  readable = ((deleted_pair (codes "b") (codes "1") (codes "w") segments.2 (omega arith), tt), tt);
  apart = ((tt, tt), tt);
  documents = documents-deleteds;
}

fetch_documents-eq-documents_of_example :
    fetch_documents src 9 books false none false
    ≡ documents_of books.schema.fields (all_pairs (actives ∷ []))
fetch_documents-eq-documents_of_example =
    fetch_documents-eq-documents_of src 9 books false none false active_span [] (actives ∷ []) refl
      refl spans-none.0 Holds-actives (actives-IsReadable, tt) ((tt, (tt, (tt, tt))), tt)
      (omega arith)

-- A document stands for the number of its properties.
abbrev count_properties : EncodedDocument → Result ℕ
count_properties d = ok (length d.properties)

fetch_docs-in_order_example :
    (all : List (EncodedDocument × DocumentStatus)) × (ran src count_properties 9
        ((init src books false true >> start src none) new_fetcher)
      ≡ decode_all src count_properties all)
    × InKeyOrder false all
    × (active_ones all ≡ active_documents)
    × (deleted_ones all ≡ deleted_documents)
fetch_docs-in_order_example =
    fetch_docs-in_order src count_properties 9 books false none active_documents deleted_documents
      refl refl refl Served-actives Served-deleteds (omega arith) (refl, (tt, tt)) (tt, tt)

merged_keys :
    decode_all src count_properties (merge false active_documents deleted_documents)
    ≡ ok (
        (some (codes "a"), 2, DocumentStatus.active)
        ∷ (some (codes "b"), 1, DocumentStatus.deleted)
        ∷ (some (codes "c"), 1, DocumentStatus.active)
        ∷ [])
merged_keys = refl
