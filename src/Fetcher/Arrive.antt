-- ===== src/Fetcher/Arrive.antt =====
-- db/fetcher/fetcher.go: how a fetcher gets from a span to the next, and one round of FetchNext.
use defradg.Prelude.{
  ℕ, suc, ◌≡◌, refl, ap, Bytes, Bool, true, false, List, [], ◌∷◌, Option, none, some, All, length,
  Result, ok, err, Bool-cases, inl, inr,
}
use defradg.Keys.RoundTrip.{new_data_store_key-to_string}
use defradg.Spans.{Span}
use defradg.Collection.{FieldDescription}
use defradg.Fetcher.{
  KeyValue, EncodedDocument, Results, Source, DocumentFetcher, add_property, is_marker, process_kv,
  next_key_with, next_key, start_spans, open_iterator, close_results, iterate_span, ended, crossed,
  next_kv, fetch_loop, empty_doc, after_next, after_process, with_properties,
}
use defradg.Fetcher.Pairs.{
  IsReadable, entries, Holds, OfOther, at, between, arrive, next_key_with-between,
}
use defradg.Fetcher.Reference.{doc, add_pair, Apart}

-- The pairs that are at hand, of which no document has some in two spans.
pub record IsGood (src : Source) (backward : Bool) (x : KeyValue) (xs : List KeyValue)
    (left : List (Option Span)) (cs : List (List KeyValue)) : Type 0 where
  pub holds : Holds src backward left cs
  pub here : All IsReadable xs
  pub there : All (All IsReadable) cs
  pub apart : Apart ((x ∷ xs) ∷ cs)

pub length-entries : (kvs : List KeyValue) → length (entries kvs) ≡ length kvs
length-entries [] = refl
length-entries (kv ∷ kvs) = ap suc (length-entries kvs)

pub rest :
    {src : Source} {backward : Bool} {x y : KeyValue} {ys : List KeyValue}
    {left : List (Option Span)} {cs : List (List KeyValue)}
    → IsGood src backward x (y ∷ ys) left cs
    → IsGood src backward y ys left cs
rest g = record {
  holds = g.holds;
  here = g.here.1;
  there = g.there;
  apart = (g.apart.0.1, g.apart.1);
}

module _ (src : Source) (closes : src.close_results ≡ ok tt) (b : DocumentFetcher) where
  pub start_spans-arrive :
      (left : List (Option Span)) (cs : List (List KeyValue)) (rs : Results) (k : Bytes)
      (ps : List (FieldDescription × Bytes)) (r : Bool)
      → Holds src b.reverse left cs
      → All (All IsReadable) cs
      → OfOther k cs
      → ended (start_spans src left (between b rs left (doc k ps) r))
        ≡ (ok true, arrive b rs left cs (doc k ps) r)
  unfolding start_spans open_iterator close_results iterate_span next_key_with next_kv crossed
  start_spans-arrive [] [] rs k ps r h g o = refl
  start_spans-arrive [] (c ∷ cs) rs k ps r h g o = elim h [ ]
  start_spans-arrive (none ∷ left) cs rs k ps r h g o = elim h [ ]
  start_spans-arrive (some s ∷ left) [] rs k ps r h g o = elim h [ ]
  start_spans-arrive (some s ∷ left) ([] ∷ cs) rs k ps r h g o =
      let ih = start_spans-arrive left cs [] k ps r h.1 g.1 o.1 in rw (closes, h.0, ih) refl
  start_spans-arrive (some s ∷ left) ((y ∷ ys) ∷ cs) rs k ps r h g o =
      let e = next_key_with-between b (start_spans src left) left k ps rs y ys r g.0.0 o.0.0 in
      rw (closes, h.0, e) refl

  -- The same before the first document.
  pub start_spans-first :
      (left : List (Option Span)) (cs : List (List KeyValue)) (rs : Results)
      → Holds src b.reverse left cs
      → All (All IsReadable) cs
      → ended (start_spans src left (between b rs left empty_doc false))
        ≡ (ok true, arrive b rs left cs empty_doc false)
  unfolding start_spans open_iterator close_results iterate_span next_key_with next_kv crossed
  start_spans-first [] [] rs h g = refl
  start_spans-first [] (c ∷ cs) rs h g = elim h [ ]
  start_spans-first (none ∷ left) cs rs h g = elim h [ ]
  start_spans-first (some s ∷ left) [] rs h g = elim h [ ]
  start_spans-first (some s ∷ left) ([] ∷ cs) rs h g =
      let ih = start_spans-first left cs [] h.1 g.1 in rw (closes, h.0, ih) refl
  start_spans-first (some s ∷ left) ((y ∷ ys) ∷ cs) rs h g =
      let e = new_data_store_key-to_string y.key g.0.0.whole g.0.0.plain in
      rw (closes, h.0, e, g.0.0.kind) refl

  pub arrive-doc :
      (left : List (Option Span)) (cs : List (List KeyValue)) (rs : Results) (d : EncodedDocument)
      (r : Bool)
      → (arrive b rs left cs d r).doc ≡ some d
  arrive-doc [] cs rs d r = refl
  arrive-doc (s ∷ left) [] rs d r = refl
  arrive-doc (s ∷ left) ([] ∷ cs) rs d r = arrive-doc left cs [] d r
  arrive-doc (s ∷ left) ((y ∷ ys) ∷ cs) rs d r = refl

  -- What a round of FetchNext does behind processKV.
  abbrev pub continued :
      ℕ
      → KeyValue
      → List KeyValue
      → List (Option Span)
      → Bytes
      → List (FieldDescription × Bytes)
      → Result (List (FieldDescription × Bytes))
      → Result (Option EncodedDocument) × DocumentFetcher
  continued rounds x xs left k ps (err e) = (err e, at b x xs left (doc k ps) true)
  continued rounds x xs left k ps (ok qs) =
      after_next src (fetch_loop src rounds) (next_key src (at b x xs left (doc k qs) true))

  pub fetch_loop-at :
      (rounds : ℕ) (x : KeyValue) (xs : List KeyValue) (left : List (Option Span)) (k : Bytes)
      (ps : List (FieldDescription × Bytes))
      → fetch_loop src (suc rounds) (at b x xs left (doc k ps) true)
        ≡ continued rounds x xs left k ps (add_pair b.schema_fields x ps)
  unfolding fetch_loop process_kv
  fetch_loop-at rounds x xs left k ps = elim (Bool-cases (is_marker x)) [
    | inl m ↦ rw m refl
    | inr m ↦ rw m (go (add_property b.schema_fields x ps))
  ]
    where
      go :
          (p : Result (List (FieldDescription × Bytes)))
          → after_process src
              (fetch_loop src rounds)
              (with_properties p (some k) (at b x xs left (doc k ps) true))
            ≡ continued rounds x xs left k ps p
      go (err e) = refl
      go (ok qs) = refl

  -- The first pair of a document resets it.
  pub first :
      (rounds : ℕ) (y : KeyValue) (ys : List KeyValue) (left : List (Option Span))
      (d : EncodedDocument)
      → fetch_loop src (suc rounds) (at b y ys left d false)
        ≡ fetch_loop src (suc rounds) (at b y ys left (doc y.key.doc_key []) true)
  unfolding fetch_loop process_kv
  first rounds y ys left d = refl
