-- ===== src/Fetcher/Yielded.antt =====
-- db/fetcher/fetcher.go: a fetcher that has been started gives the documents of its pairs one by one, as
-- FetchNextDoc wants them.
use defradg.Prelude.{
  ℕ, zero, suc, ◌<◌, ◌≤◌, ◌≡◌, refl, sym, ◌∙◌, Bytes, Bool, true, false, List, [], ◌∷◌, ◌++◌,
  Option, none, some, All, arith, bytes_eq, bytes_eq_iff, subst, length, Result, ok, err, ◌>>=◌,
  Bool-cases, inl, inr,
}
use defradg.Spans.{Span}
use defradg.Collection.{FieldDescription, CollectionDescription}
use defradg.Fetcher.{
  KeyValue, EncodedDocument, Results, Source, DocumentFetcher, next_key, start_spans, fetch_loop,
  fetch_next, start_fetcher, spans_for, empty_doc,
}
use defradg.Fetcher.Pairs.{
  IsReadable, entries, Holds, OfOther, at, arrive, next_key_with-at, next_key_with-end,
}
use defradg.Fetcher.Reference.{
  doc, add_pair, documents_from, documents_of, all_pairs, Apart, Others-all_pairs, bind_assoc,
  documents_from-other,
}
use defradg.Fetcher.Arrive.{
  IsGood, rest, length-entries, start_spans-arrive, arrive-doc, fetch_loop-at, first,
}
use defradg.Fetcher.Documents.{ready, start_fetcher-ready}
use defradg.Fetcher.Merged.{Yields}

-- What a chain of two steps that succeeds went through.
steps-succeed :
    {A B : Type 0} {last : B} (one : Result A) (two : A → Result B)
    → (one >>= two) ≡ ok last
    → (mid : A) × (one ≡ ok mid) × (two mid ≡ ok last)
steps-succeed (err e) two h = cc
steps-succeed (ok mid) two h = (mid, refl, h)

module _ (src : Source) (closes : src.close_results ≡ ok tt) (b : DocumentFetcher) where
  arrive-reverse :
      (left : List (Option Span)) (cs : List (List KeyValue)) (rs : Results) (d : EncodedDocument)
      (r : Bool)
      → (arrive b rs left cs d r).reverse ≡ b.reverse
  arrive-reverse [] cs rs d r = refl
  arrive-reverse (s ∷ left) [] rs d r = refl
  arrive-reverse (s ∷ left) ([] ∷ cs) rs d r = arrive-reverse left cs [] d r
  arrive-reverse (s ∷ left) ((y ∷ ys) ∷ cs) rs d r = refl

  module _ (n : ℕ)
      (more : (y : KeyValue) (ys : List KeyValue) (left : List (Option Span))
          (cs : List (List KeyValue)) (d : EncodedDocument) (ds : List EncodedDocument)
        → IsGood src b.reverse y ys left cs
        → length (ys ++ all_pairs cs) < n
        → documents_of b.schema_fields (y ∷ (ys ++ all_pairs cs)) ≡ ok ds
        → Yields src (at b y ys left d false) ds) where
    Yields-arrive :
        (left : List (Option Span)) (cs : List (List KeyValue)) (rs : Results) (d : EncodedDocument)
        (r : Bool) (ds : List EncodedDocument)
        → Holds src b.reverse left cs
        → All (All IsReadable) cs
        → Apart cs
        → length (all_pairs cs) ≤ n
        → documents_of b.schema_fields (all_pairs cs) ≡ ok ds
        → Yields src (arrive b rs left cs d r) ds
    Yields-arrive [] [] rs d r ds h g a l e = let f : [] ≡ ds = cc in rw (← f) refl
    Yields-arrive [] (c ∷ cs) rs d r ds h g a l e = elim h [ ]
    Yields-arrive (none ∷ left) cs rs d r ds h g a l e = elim h [ ]
    Yields-arrive (some s ∷ left) [] rs d r ds h g a l e = elim h [ ]
    Yields-arrive (some s ∷ left) ([] ∷ cs) rs d r ds h g a l e =
        Yields-arrive left cs [] d r ds h.1 g.1 a.1 l e
    Yields-arrive (some s ∷ left) ((y ∷ ys) ∷ cs) rs d r ds h g a l e =
        more y ys left cs d ds (record { holds = h.1; here = g.0.1; there = g.1; apart = a })
          (omega (arith, l)) e

    -- What FetchNext gives from a pair on, of a document that is being read.
    record Given (rounds : ℕ) (x : KeyValue) (xs : List KeyValue) (left : List (Option Span))
        (k : Bytes) (ps : List (FieldDescription × Bytes)) (ds : List EncodedDocument)
        : Type 0 where
      found : EncodedDocument
      others : List EncodedDocument
      after : DocumentFetcher
      both : ds ≡ found ∷ others
      keyed : found.key ≡ some k
      gives : fetch_loop src rounds (at b x xs left (doc k ps) true) ≡ (ok (some found), after)
      same : after.reverse ≡ b.reverse
      yields : Yields src after others

    given-end :
        (rounds : ℕ) (x : KeyValue) (left : List (Option Span)) (cs : List (List KeyValue))
        (k : Bytes) (ps qs : List (FieldDescription × Bytes)) (es ds : List EncodedDocument)
        → OfOther k cs
        → IsGood src b.reverse x [] left cs
        → length (all_pairs cs) ≤ n
        → add_pair b.schema_fields x ps ≡ ok qs
        → documents_of b.schema_fields (all_pairs cs) ≡ ok es
        → ds ≡ doc k qs ∷ es
        → Given (suc rounds) x [] left k ps ds
    unfolding next_key
    given-end rounds x left cs k ps qs es ds other g m f h e = record {
      found = doc k qs;
      others = es;
      after = arrive b [] left cs (doc k qs) true;
      both = e;
      keyed = refl;
      gives =
          fetch_loop-at src closes b rounds x [] left k ps
          ∙ rw
              (
                f,
                next_key_with-end b (start_spans src left) left k qs x true,
                start_spans-arrive src closes b left cs [] k qs true g.holds g.there other,
                arrive-doc src closes b left cs [] (doc k qs) true,
              )
              refl;
      same = arrive-reverse left cs [] (doc k qs) true;
      yields = Yields-arrive left cs [] (doc k qs) true es g.holds g.there g.apart.1 m h;
    }

    given-same :
        (rounds : ℕ) (x y : KeyValue) (ys : List KeyValue) (left : List (Option Span)) (k : Bytes)
        (ps qs : List (FieldDescription × Bytes)) (ds : List EncodedDocument)
        → IsReadable y
        → add_pair b.schema_fields x ps ≡ ok qs
        → bytes_eq y.key.doc_key k ≡ true
        → Given rounds y ys left k qs ds
        → Given (suc rounds) x (y ∷ ys) left k ps ds
    unfolding next_key
    given-same rounds x y ys left k ps qs ds i f t r = record {
      found = r.found;
      others = r.others;
      after = r.after;
      both = r.both;
      keyed = r.keyed;
      gives =
          fetch_loop-at src closes b rounds x (y ∷ ys) left k ps
          ∙ rw (f, next_key_with-at b (start_spans src left) left k qs x y ys true i, t) r.gives;
      same = r.same;
      yields = r.yields;
    }

    given-other :
        (rounds : ℕ) (x y : KeyValue) (ys : List KeyValue) (left : List (Option Span)) (k : Bytes)
        (ps qs : List (FieldDescription × Bytes)) (es ds : List EncodedDocument)
        → IsReadable y
        → add_pair b.schema_fields x ps ≡ ok qs
        → bytes_eq y.key.doc_key k ≡ false
        → ds ≡ doc k qs ∷ es
        → Yields src (at b y ys left (doc k qs) false) es
        → Given (suc rounds) x (y ∷ ys) left k ps ds
    unfolding next_key
    given-other rounds x y ys left k ps qs es ds i f t e v = record {
      found = doc k qs;
      others = es;
      after = at b y ys left (doc k qs) false;
      both = e;
      keyed = refl;
      gives =
          fetch_loop-at src closes b rounds x (y ∷ ys) left k ps
          ∙ rw (f, next_key_with-at b (start_spans src left) left k qs x y ys true i, t) refl;
      same = refl;
      yields = v;
    }

    documents-next :
        (k : Bytes) (qs : List (FieldDescription × Bytes)) (y : KeyValue) (zs : List KeyValue)
        (ds : List EncodedDocument)
        → bytes_eq y.key.doc_key k ≡ false
        → documents_from b.schema_fields k qs (y ∷ zs) ≡ ok ds
        → (es : List EncodedDocument) × (documents_of b.schema_fields (y ∷ zs) ≡ ok es)
          × (ok (doc k qs ∷ es) ≡ ok ds)
    documents-next k qs y zs ds t h =
        steps-succeed (documents_of b.schema_fields (y ∷ zs)) (λ es. ok (doc k qs ∷ es))
          (sym (
              bind_assoc (add_pair b.schema_fields y [])
                (λ rs. documents_from b.schema_fields y.key.doc_key rs zs)
                (λ es. ok (doc k qs ∷ es)))
            ∙ (rw t at h))

    split :
        (rounds : ℕ) (x y : KeyValue) (ys : List KeyValue) (left : List (Option Span))
        (cs : List (List KeyValue)) (k : Bytes) (ps qs : List (FieldDescription × Bytes))
        (ds : List EncodedDocument)
        → IsGood src b.reverse x (y ∷ ys) left cs
        → length ((y ∷ ys) ++ all_pairs cs) ≤ n
        → add_pair b.schema_fields x ps ≡ ok qs
        → documents_from b.schema_fields k qs ((y ∷ ys) ++ all_pairs cs) ≡ ok ds
        → (bytes_eq y.key.doc_key k ≡ true
            → (add_pair b.schema_fields y qs
                >>= (λ rs. documents_from b.schema_fields k rs (ys ++ all_pairs cs)))
              ≡ ok ds
            → Given rounds y ys left k qs ds)
        → Given (suc rounds) x (y ∷ ys) left k ps ds
    split rounds x y ys left cs k ps qs ds g m f h' again =
        elim (Bool-cases (bytes_eq y.key.doc_key k)) [
          | inl t ↦ given-same rounds x y ys left k ps qs ds g.here.0 f t (again t (rw t at h'))
          | inr t ↦
              let (es, h2, h3) = documents-next k qs y (ys ++ all_pairs cs) ds t h' in
              given-other rounds x y ys left k ps qs es ds g.here.0 f t (cc)
                (more y ys left cs (doc k qs) es (rest g) (omega (arith, m)) h2)
        ]

    given :
        (rounds : ℕ) (x : KeyValue) (xs : List KeyValue) (left : List (Option Span))
        (cs : List (List KeyValue)) (k : Bytes) (ps : List (FieldDescription × Bytes))
        (ds : List EncodedDocument)
        → bytes_eq x.key.doc_key k ≡ true
        → IsGood src b.reverse x xs left cs
        → length xs < rounds
        → length (xs ++ all_pairs cs) ≤ n
        → (add_pair b.schema_fields x ps
            >>= (λ qs. documents_from b.schema_fields k qs (xs ++ all_pairs cs)))
          ≡ ok ds
        → Given rounds x xs left k ps ds
    given zero x xs left cs k ps ds e g l m h = absurd (omega (arith, l))
    given (suc rounds) x [] left cs k ps ds e g l m h =
        let (qs, f, h') =
          steps-succeed (add_pair b.schema_fields x ps)
            (λ qs. documents_from b.schema_fields k qs (all_pairs cs)) h in
        let other = subst (λ j. OfOther j cs) ((bytes_eq_iff x.key.doc_key k).0 e) g.apart.0.0 in
        let (es, h2, h3) =
          steps-succeed (documents_of b.schema_fields (all_pairs cs)) (λ es. ok (doc k qs ∷ es))
            (sym (
                documents_from-other b.schema_fields k qs (all_pairs cs)
                  (Others-all_pairs k cs other))
              ∙ h') in
        given-end rounds x left cs k ps qs es ds other g m f h2 (cc)
    given (suc rounds) x (y ∷ ys) left cs k ps ds e g l m h =
        let (qs, f, h') =
          steps-succeed (add_pair b.schema_fields x ps)
            (λ qs. documents_from b.schema_fields k qs ((y ∷ ys) ++ all_pairs cs)) h in
        split rounds x y ys left cs k ps qs ds g m f h' (λ t h2.
          given rounds y ys left cs k qs ds t (rest g) (omega (arith, l)) (omega (arith, m)) h2)

  Yields-at :
      (n : ℕ) (y : KeyValue) (ys : List KeyValue) (left : List (Option Span))
      (cs : List (List KeyValue)) (d : EncodedDocument) (ds : List EncodedDocument)
      → IsGood src b.reverse y ys left cs
      → length (ys ++ all_pairs cs) < n
      → documents_of b.schema_fields (y ∷ (ys ++ all_pairs cs)) ≡ ok ds
      → Yields src (at b y ys left d false) ds
  unfolding fetch_next
  Yields-at zero y ys left cs d ds g l e = absurd (omega (arith, l))
  Yields-at (suc n) y ys left cs d ds g l e =
      let r =
        given n (Yields-at n) (suc (length (entries ys))) y ys left cs y.key.doc_key [] ds
          ((bytes_eq_iff y.key.doc_key y.key.doc_key).1 refl) g (omega (arith, length-entries ys))
          (omega (arith, l)) e in
      subst (Yields src (at b y ys left d false)) (sym r.both) (
        refl,
        (y, refl, r.keyed),
        (r.after, first src closes b (length (entries ys)) y ys left d ∙ r.gives, r.same, r.yields),
      )

-- What a source gives for the spans of one kind of documents.
pub record Served (src : Source) (c : CollectionDescription) (backward : Bool)
    (given : Option (List Span)) (deleted : Bool) (ds : List EncodedDocument) : Type 0 where
  pub span : Span
  pub left : List (Option Span)
  pub pairs : List (List KeyValue)
  pub spans : spans_for src c backward deleted given ≡ ok (some span ∷ left)
  pub holds : Holds src backward (some span ∷ left) pairs
  pub readable : All (All IsReadable) pairs
  pub apart : Apart pairs
  pub documents : documents_of c.schema.fields (all_pairs pairs) ≡ ok ds

pub start_fetcher-Yields :
    (src : Source) (c : CollectionDescription) (backward : Bool) (given : Option (List Span))
    (deleted : Bool) (ds : List EncodedDocument)
    → src.close_results ≡ ok tt
    → src.get_iterator backward ≡ ok tt
    → Served src c backward given deleted ds
    → (df : DocumentFetcher) × (start_fetcher src given deleted (ready c backward) ≡ (ok tt, df))
      × (df.reverse ≡ backward)
      × Yields src df ds
start_fetcher-Yields src c backward given deleted ds closes opens h = (
  arrive (ready c backward) [] (some h.span ∷ h.left) h.pairs empty_doc false,
  start_fetcher-ready src c backward given deleted h.span h.left h.pairs closes opens h.spans
      h.holds h.readable,
  arrive-reverse src closes (ready c backward) (some h.span ∷ h.left) h.pairs [] empty_doc false,
  Yields-arrive src closes (ready c backward) (length (all_pairs h.pairs))
      (Yields-at src closes (ready c backward) (length (all_pairs h.pairs))) (some h.span ∷ h.left)
      h.pairs [] empty_doc false ds h.holds h.readable h.apart (omega arith) h.documents,
)
