-- ===== src/Fetcher/Documents.antt =====
-- db/fetcher/fetcher.go: the documents that a fetcher gives, one after another, are those of the pairs
-- of its spans.
use defradg.Prelude.{
  ℕ, zero, suc, ◌<◌, ◌≡◌, refl, ap, sym, ◌∙◌, Bytes, Bool, true, false, List, [], ◌∷◌, ◌++◌, Option,
  none, some, All, arith, bytes_eq, bytes_eq_iff, subst, Result-cases, length, Result, ok, err,
  panic, ◌>>=◌, Bool-cases, inl, inr,
}
use defradg.Prelude.Exec.{◌>>◌}
use defradg.Keys.RoundTrip.{new_data_store_key-to_string}
use defradg.Spans.{Span}
use defradg.Collection.{FieldDescription, CollectionDescription}
use defradg.Fetcher.{
  KeyValue, EncodedDocument, Results, Source, DocumentFetcher, next_key_with, next_key, start_spans,
  open_iterator, close_results, iterate_span, crossed, next_kv, fetch_loop, fetch_next,
  start_next_span, start_fetcher, init_fetcher, close_iterator, spans_for, blank, empty_doc,
}
use defradg.Fetcher.Pairs.{
  IsReadable, entries, Holds, OfOther, at, between, arrive, next_key_with-at, next_key_with-end,
}
use defradg.Fetcher.Reference.{
  doc, add_pair, documents_from, documents_of, all_pairs, Apart, Others-all_pairs, bind_assoc,
  documents_from-other,
}
use defradg.Fetcher.Arrive.{
  IsGood, rest, length-entries, start_spans-arrive, start_spans-first, arrive-doc, fetch_loop-at,
  first,
}

-- FetchNext until it gives no document.
abbrev gather :
    (DocumentFetcher → Result (List EncodedDocument))
    → Result (Option EncodedDocument) × DocumentFetcher
    → Result (List EncodedDocument)
gather rest (err e, df) = err e
gather rest (ok none, df) = ok []
gather rest (ok (some d), df) = rest df >>= (λ ds. ok (d ∷ ds))

pub fetch_all : Source → ℕ → DocumentFetcher → Result (List EncodedDocument)
fetch_all src zero df = err panic
fetch_all src (suc n) df = let rest = fetch_all src n in gather rest (fetch_next src df)

module _ (src : Source) (closes : src.close_results ≡ ok tt) (b : DocumentFetcher) where
  fetch_all-end :
      (n : ℕ) (rs : Results) (d : EncodedDocument) (r : Bool)
      → 0 < n
      → fetch_all src n (between b rs [] d r) ≡ ok []
  unfolding fetch_all fetch_next
  fetch_all-end zero rs d r h = absurd (omega (arith, h))
  fetch_all-end (suc n) rs d r h = refl

  module _ (n : ℕ)
      (more : (y : KeyValue) (ys : List KeyValue) (left : List (Option Span))
          (cs : List (List KeyValue)) (d : EncodedDocument)
        → IsGood src b.reverse y ys left cs
        → suc (length (ys ++ all_pairs cs)) < n
        → fetch_all src n (at b y ys left d false)
          ≡ documents_of b.schema_fields (y ∷ (ys ++ all_pairs cs))) where
    fetch_all-arrive :
        (left : List (Option Span)) (cs : List (List KeyValue)) (rs : Results) (d : EncodedDocument)
        (r : Bool)
        → Holds src b.reverse left cs
        → All (All IsReadable) cs
        → Apart cs
        → length (all_pairs cs) < n
        → 0 < n
        → fetch_all src n (arrive b rs left cs d r) ≡ documents_of b.schema_fields (all_pairs cs)
    fetch_all-arrive [] [] rs d r h g a l z = fetch_all-end n rs d r z
    fetch_all-arrive [] (c ∷ cs) rs d r h g a l z = elim h [ ]
    fetch_all-arrive (none ∷ left) cs rs d r h g a l z = elim h [ ]
    fetch_all-arrive (some s ∷ left) [] rs d r h g a l z = elim h [ ]
    fetch_all-arrive (some s ∷ left) ([] ∷ cs) rs d r h g a l z =
        fetch_all-arrive left cs [] d r h.1 g.1 a.1 l z
    fetch_all-arrive (some s ∷ left) ((y ∷ ys) ∷ cs) rs d r h g a l z =
        more y ys left cs d (record { holds = h.1; here = g.0.1; there = g.1; apart = a })
          (omega (arith, l))

    gather-arrive :
        (left : List (Option Span)) (cs : List (List KeyValue)) (k : Bytes)
        (qs : List (FieldDescription × Bytes))
        → Holds src b.reverse left cs
        → All (All IsReadable) cs
        → Apart cs
        → OfOther k cs
        → length (all_pairs cs) < n
        → gather
            (fetch_all src n)
            (ok (arrive b [] left cs (doc k qs) true).doc, arrive b [] left cs (doc k qs) true)
          ≡ documents_from b.schema_fields k qs (all_pairs cs)
    gather-arrive left cs k qs h g a o l = rw (arrive-doc src closes b left cs [] (doc k qs) true) (
        ap (λ r. r >>= (λ ds. ok (doc k qs ∷ ds)))
          (fetch_all-arrive left cs [] (doc k qs) true h g a (omega (arith, l)) (omega (arith, l)))
        ∙ sym (documents_from-other b.schema_fields k qs (all_pairs cs) (Others-all_pairs k cs o)))

    gather-loop :
        (rounds : ℕ) (x : KeyValue) (xs : List KeyValue) (left : List (Option Span))
        (cs : List (List KeyValue)) (k : Bytes) (ps : List (FieldDescription × Bytes))
        → bytes_eq x.key.doc_key k ≡ true
        → IsGood src b.reverse x xs left cs
        → length xs < rounds
        → length (xs ++ all_pairs cs) < n
        → gather (fetch_all src n) (fetch_loop src rounds (at b x xs left (doc k ps) true)) ≡ (
            add_pair b.schema_fields x ps
            >>= (λ qs. documents_from b.schema_fields k qs (xs ++ all_pairs cs)))
    unfolding next_key
    gather-loop zero x xs left cs k ps e g l m = absurd (omega (arith, l))
    gather-loop (suc rounds) x [] left cs k ps e g l m =
        rw (fetch_loop-at src closes b rounds x [] left k ps)
          elim (Result-cases (add_pair b.schema_fields x ps)) [
            | inl (_, f) ↦ rw f refl
            | inr (qs, f) ↦
                let other =
                  subst (λ j. OfOther j cs) ((bytes_eq_iff x.key.doc_key k).0 e) g.apart.0.0 in
                rw
                  (
                    f,
                    next_key_with-end b (start_spans src left) left k qs x true,
                    start_spans-arrive src closes b left cs [] k qs true g.holds g.there other,
                  )
                  (gather-arrive left cs k qs g.holds g.there g.apart.1 other m)
          ]
    gather-loop (suc rounds) x (y ∷ ys) left cs k ps e g l m =
        rw (fetch_loop-at src closes b rounds x (y ∷ ys) left k ps)
          elim (Result-cases (add_pair b.schema_fields x ps)) [
            | inl (_, f) ↦ rw f refl
            | inr (qs, f) ↦
                rw (f, next_key_with-at b (start_spans src left) left k qs x y ys true g.here.0)
                  elim (Bool-cases (bytes_eq y.key.doc_key k)) [
                    | inl t ↦ rw t (
                        gather-loop rounds y ys left cs k qs t (rest g) (omega (arith, l))
                          (omega (arith, m)))
                    | inr t ↦ rw t (
                        ap (λ r. r >>= (λ ds. ok (doc k qs ∷ ds)))
                          (more y ys left cs (doc k qs) (rest g) (omega (arith, m)))
                        ∙ sym (
                            bind_assoc (add_pair b.schema_fields y [])
                              (λ rs.
                                documents_from b.schema_fields y.key.doc_key rs
                                  (ys ++ all_pairs cs))
                              (λ ds. ok (doc k qs ∷ ds))))
                  ]
          ]

  fetch_all-at :
      (n : ℕ) (y : KeyValue) (ys : List KeyValue) (left : List (Option Span))
      (cs : List (List KeyValue)) (d : EncodedDocument)
      → IsGood src b.reverse y ys left cs
      → suc (length (ys ++ all_pairs cs)) < n
      → fetch_all src n (at b y ys left d false)
        ≡ documents_of b.schema_fields (y ∷ (ys ++ all_pairs cs))
  unfolding fetch_all fetch_next
  fetch_all-at zero y ys left cs d g l = absurd (omega (arith, l))
  fetch_all-at (suc n) y ys left cs d g l =
      ap (gather (fetch_all src n)) (first src closes b (length (entries ys)) y ys left d)
      ∙ gather-loop n (fetch_all-at n) (suc (length (entries ys))) y ys left cs y.key.doc_key []
          ((bytes_eq_iff y.key.doc_key y.key.doc_key).1 refl) g (omega (arith, length-entries ys))
          (omega (arith, l))

abbrev ran : Source → ℕ → Result (Unit {0}) × DocumentFetcher → Result (List EncodedDocument)
ran src n (err e, df) = err e
ran src n (ok _, df) = fetch_all src n df

-- Init and Start of a new fetcher, and FetchNext until it gives no document.
pub fetch_documents :
    Source
    → ℕ
    → CollectionDescription
    → Bool
    → Option (List Span)
    → Bool
    → Result (List EncodedDocument)
fetch_documents src n c backward given deleted =
    ran src n ((init_fetcher src c backward >> start_fetcher src given deleted) blank)

-- A fetcher after Init and before Start.
abbrev pub ready : CollectionDescription → Bool → DocumentFetcher
ready c backward = record blank {
  col = some c;
  reverse = backward;
  initialized = true;
  is_reading_document = false;
  doc = some empty_doc;
  schema_fields = c.schema.fields;
}

pub init_fetcher-blank :
    (src : Source) (c : CollectionDescription) (backward : Bool)
    → init_fetcher src c backward blank ≡ (ok tt, ready c backward)
unfolding init_fetcher close_results close_iterator
init_fetcher-blank src c backward = refl

-- Start reaches the first pair of the spans.
pub start_fetcher-ready :
    (src : Source) (c : CollectionDescription) (backward : Bool) (given : Option (List Span))
    (deleted : Bool) (s : Span) (left : List (Option Span)) (cs : List (List KeyValue))
    → src.close_results ≡ ok tt
    → src.get_iterator backward ≡ ok tt
    → spans_for src c backward deleted given ≡ ok (some s ∷ left)
    → Holds src backward (some s ∷ left) cs
    → All (All IsReadable) cs
    → start_fetcher src given deleted (ready c backward)
      ≡ (ok tt, arrive (ready c backward) [] (some s ∷ left) cs empty_doc false)
unfolding start_fetcher start_next_span start_spans open_iterator close_results iterate_span
    next_key_with next_kv crossed
start_fetcher-ready src c backward given deleted s left [] closes opens e h g = elim h [ ]
start_fetcher-ready src c backward given deleted s left ([] ∷ cs) closes opens e h g =
    rw (e, opens, h.0, start_spans-first src closes (ready c backward) left cs [] h.1 g.1) refl
start_fetcher-ready src c backward given deleted s left ((y ∷ ys) ∷ cs) closes opens e h g =
    let r = new_data_store_key-to_string y.key g.0.0.whole g.0.0.plain in
    rw (e, opens, h.0, r, g.0.0.kind) refl

-- A new fetcher of a collection, over a source that works and gives, for each of the spans that it is
-- started with, some pairs whose keys can be read, where no document has pairs in two spans, gives one
-- document for each run of pairs of one document key, with the properties of these pairs but the object
-- marker, in their order, and fails with the error that these properties fail with.
pub fetch_documents-eq-documents_of :
    (src : Source) (n : ℕ) (c : CollectionDescription) (backward : Bool)
    (given : Option (List Span)) (deleted : Bool) (s : Span) (left : List (Option Span))
    (cs : List (List KeyValue))
    → src.close_results ≡ ok tt
    → src.get_iterator backward ≡ ok tt
    → spans_for src c backward deleted given ≡ ok (some s ∷ left)
    → Holds src backward (some s ∷ left) cs
    → All (All IsReadable) cs
    → Apart cs
    → suc (length (all_pairs cs)) < n
    → fetch_documents src n c backward given deleted ≡ documents_of c.schema.fields (all_pairs cs)
unfolding fetch_documents
fetch_documents-eq-documents_of src n c backward given deleted s left cs closes opens e h g a l =
    rw
      (
        init_fetcher-blank src c backward,
        start_fetcher-ready src c backward given deleted s left cs closes opens e h g,
      )
      (fetch_all-arrive src closes (ready c backward) n
        (fetch_all-at src closes (ready c backward) n) (some s ∷ left) cs [] empty_doc false h g a
        (omega (arith, l)) (omega (arith, l)))
