-- ===== src/Fetcher/Pairs.antt =====
-- db/fetcher/fetcher.go: what one step of a fetcher does with a pair that its source gives.
use defradg.Prelude.{
  ◌≡◌, refl, Bytes, Bool, true, false, List, [], ◌∷◌, Option, none, some, All, arith, bytes_eq,
  if◌then◌else◌, ok, Lacks,
}
use defradg.Prelude.Exec.{Exec}
use defradg.Keys.{slash, to_string}
use defradg.Keys.RoundTrip.{IsWhole, new_data_store_key-to_string}
use defradg.Spans.{Span}
use defradg.Collection.{FieldDescription}
use defradg.Fetcher.{
  KeyValue, EncodedDocument, Results, Source, DocumentFetcher, next_kv, escaped, crossed,
  next_key_with, ended,
}

-- A pair that a source may give: its key can be read back, and is of a value or a deleted one.
pub record IsReadable (kv : KeyValue) : Type 0 where
  pub whole : IsWhole kv.key
  pub plain : Lacks slash kv.key.field_id
  pub kind : escaped (some kv) ≡ false

-- The results of an iterator over some pairs.
abbrev pub entries : List KeyValue → Results
entries [] = []
entries (kv ∷ kvs) = ok (to_string kv.key, kv.value) ∷ entries kvs

-- What a source gives for spans.
abbrev pub Holds : Source → Bool → List (Option Span) → List (List KeyValue) → Type 0
Holds src backward [] [] = Unit
Holds src backward (some s ∷ left) (c ∷ cs) =
    (src.iterate_prefix backward s.start s.end ≡ ok (entries c)) × Holds src backward left cs
Holds src backward _ _ = ⊥

abbrev pub OfOther : Bytes → List (List KeyValue) → Type 0
OfOther k = All (All (λ kv. bytes_eq kv.key.doc_key k ≡ false))

module _ (b : DocumentFetcher) where
  -- A fetcher at a pair, with pairs and spans behind it.
  abbrev pub at :
      KeyValue → List KeyValue → List (Option Span) → EncodedDocument → Bool → DocumentFetcher
  at x xs left d r = record b {
    kv = some x;
    kv_results_iter = some (entries xs);
    left = left;
    doc = some d;
    is_reading_document = r;
    kv_end = false;
    kv_iter = some b.reverse;
  }

  -- A fetcher at the end of a span.
  abbrev pub between : Results → List (Option Span) → EncodedDocument → Bool → DocumentFetcher
  between rs left d r = record b {
    kv = none;
    kv_results_iter = some rs;
    left = left;
    doc = some d;
    is_reading_document = r;
    kv_end = true;
    kv_iter = some b.reverse;
  }

  -- Where the search for the next span stops.
  abbrev pub arrive :
      Results → List (Option Span) → List (List KeyValue) → EncodedDocument → Bool → DocumentFetcher
  arrive rs [] cs d r = between rs [] d r
  arrive rs (s ∷ left) [] d r = between rs (s ∷ left) d r
  arrive rs (s ∷ left) ([] ∷ cs) d r = arrive [] left cs d r
  arrive rs (s ∷ left) ((y ∷ ys) ∷ cs) d r = at y ys left d false

  module _ (start : Exec DocumentFetcher Bool) (left : List (Option Span)) (k : Bytes)
      (ps : List (FieldDescription × Bytes)) where
    abbrev doc : EncodedDocument
    doc = record { key = some k; properties = ps }

    pub next_key_with-at :
        (x y : KeyValue) (ys : List KeyValue) (r : Bool)
        → IsReadable y
        → next_key_with start (at x (y ∷ ys) left doc r) ≡ (
            if bytes_eq y.key.doc_key k
            then (ok false, at y ys left doc r)
            else (ok true, at y ys left doc false))
    unfolding next_key_with next_kv crossed
    next_key_with-at x y ys r h =
        let e = new_data_store_key-to_string y.key h.whole h.plain in rw (e, h.kind) (ground arith)

    pub next_key_with-between :
        (rs : Results) (y : KeyValue) (ys : List KeyValue) (r : Bool)
        → IsReadable y
        → bytes_eq y.key.doc_key k ≡ false
        → next_key_with start
            (record (between rs left doc r) { kv_results_iter = some (entries (y ∷ ys)) })
          ≡ (ok true, at y ys left doc false)
    unfolding next_key_with next_kv crossed
    next_key_with-between rs y ys r h o =
        let e = new_data_store_key-to_string y.key h.whole h.plain in rw (e, h.kind, o) refl

    pub next_key_with-end :
        (x : KeyValue) (r : Bool)
        → next_key_with start (at x [] left doc r) ≡ ended (start (between [] left doc r))
    unfolding next_key_with next_kv crossed
    next_key_with-end x r = refl
