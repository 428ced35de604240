-- ===== src/Fetcher/Order.antt =====
-- db/fetcher/fetcher.go, FetchNextDoc: active and deleted documents come in one order of keys.
use defradg.Prelude.{
  ℕ, zero, suc, ◌+◌, ◌<◌, ◌≡◌, refl, ap, ◌∙◌, Bytes, Bool, true, false, List, [], ◌∷◌, Option, none,
  some, arith, length, Result, ok, err, Result-cases, ◌>>=◌, Bool-cases, inl, inr,
}
use defradg.Fetcher.{KeyValue, EncodedDocument, Source, DocumentFetcher, start_fetcher, fetch_next}
use defradg.Prelude.Exec.{◌>>◌}
use defradg.Spans.{Span}
use defradg.Collection.{CollectionDescription, is_empty_schema}
use defradg.Fetcher.Documents.{ready, init_fetcher-blank}
use defradg.Fetcher.Yielded.{Served, start_fetcher-Yields}
use defradg.Fetcher.Merged.{
  init, start, new_fetcher, DocumentStatus, active, deleted, Fetcher, takes_deleted, comes_first,
  fetch_next_doc, fetch_docs, Yields, collected, decoded,
}
use defradg.Fetcher.KeyOrder.{
  earlier, with_status, merge, InKeyOrder, active_ones, deleted_ones, merge-InKeyOrder, merge-parts,
}

fetch_next-end :
    (src : Source) (df : DocumentFetcher) → df.kv_end ≡ true → fetch_next src df ≡ (ok none, df)
unfolding fetch_next
fetch_next-end src df h = simp h

turn_end : (df ddf : DocumentFetcher) → ddf.kv_end ≡ true → takes_deleted df ddf ≡ ok false
unfolding takes_deleted
turn_end df ddf h = simp h

turn_deleted :
    (df ddf : DocumentFetcher)
    → ddf.kv_end ≡ false
    → df.kv_end ≡ true
    → takes_deleted df ddf ≡ ok true
unfolding takes_deleted
turn_deleted df ddf h k = simp (h, k)

turn_both :
    (df ddf : DocumentFetcher) (y x : EncodedDocument) (d a : KeyValue)
    → ddf.kv_end ≡ false
    → df.kv_end ≡ false
    → ddf.kv ≡ some d
    → df.kv ≡ some a
    → y.key ≡ some d.key.doc_key
    → x.key ≡ some a.key.doc_key
    → takes_deleted df ddf ≡ ok (earlier df.reverse y.key x.key)
unfolding takes_deleted comes_first
turn_both df ddf y x d a h k p q u v = simp (h, k, p, q, u, v)

module _ (src : Source) {Doc : Type 0} (decode_to_doc : EncodedDocument → Result Doc) where
  abbrev pub decode_all :
      List (EncodedDocument × DocumentStatus) → Result (List (Option Bytes × Doc × DocumentStatus))
  decode_all [] = ok []
  decode_all ((d, s) ∷ ds) =
      decode_to_doc d >>= (λ x. decode_all ds >>= (λ xs. ok ((d.key, x, s) ∷ xs)))

  one_then :
      (d : EncodedDocument) (s : DocumentStatus) (f : Fetcher) (n : ℕ)
      (ds : List (EncodedDocument × DocumentStatus))
      → fetch_docs src decode_to_doc n f ≡ decode_all ds
      → collected src decode_to_doc
          (fetch_docs src decode_to_doc n)
          (decoded src decode_to_doc d s, f)
        ≡ decode_all ((d, s) ∷ ds)
  one_then d s f n ds e = elim (Result-cases (decode_to_doc d)) [
    | inl (_, h) ↦ rw h refl
    | inr (x, h) ↦ rw (h, e) refl
  ]

  -- Of two fetchers, FetchNextDoc gives the merge of what they yield.
  pub fetch_docs-eq-merge :
      (n : ℕ) (df ddf : DocumentFetcher) (us ds : List EncodedDocument)
      → Yields src df us
      → Yields src ddf ds
      → length us + length ds < n
      → fetch_docs src decode_to_doc n (record { df = df; deleted_doc_fetcher = some ddf })
        ≡ decode_all (merge df.reverse us ds)
  unfolding fetch_docs fetch_next_doc
  fetch_docs-eq-merge zero df ddf us ds p q l = absurd (omega (arith, l))
  fetch_docs-eq-merge (suc n) df ddf [] [] p q l =
      rw (turn_end df ddf q, fetch_next-end src df p) refl
  fetch_docs-eq-merge (suc n) df ddf [] (y ∷ ds) p q l =
      rw (turn_deleted df ddf q.0 p, q.2.1)
        (one_then y deleted (record { df = df; deleted_doc_fetcher = some q.2.0 }) n
          (merge df.reverse [] ds)
          (fetch_docs-eq-merge n df q.2.0 [] ds p q.2.3 (omega (arith, l))))
  fetch_docs-eq-merge (suc n) df ddf (x ∷ us) [] p q l =
      rw (turn_end df ddf q, p.2.1)
        (one_then x active (record { df = p.2.0; deleted_doc_fetcher = some ddf }) n
          (merge df.reverse us [])
          (fetch_docs-eq-merge n p.2.0 ddf us [] p.2.3 q (omega (arith, l))
            ∙ ap (λ r. decode_all (merge r us [])) p.2.2))
  fetch_docs-eq-merge (suc n) df ddf (x ∷ us) (y ∷ ds) p q l =
      rw (turn_both df ddf y x q.1.0 p.1.0 q.0 p.0 q.1.1 p.1.1 q.1.2 p.1.2)
        elim (Bool-cases (earlier df.reverse y.key x.key)) [
          | inl e ↦
              rw (e, q.2.1)
                (one_then y deleted (record { df = df; deleted_doc_fetcher = some q.2.0 }) n
                  (merge df.reverse (x ∷ us) ds)
                  (fetch_docs-eq-merge n df q.2.0 (x ∷ us) ds p q.2.3 (omega (arith, l))))
          | inr e ↦
              rw (e, p.2.1)
                (one_then x active (record { df = p.2.0; deleted_doc_fetcher = some ddf }) n
                  (merge df.reverse us (y ∷ ds))
                  (fetch_docs-eq-merge n p.2.0 ddf us (y ∷ ds) p.2.3 q (omega (arith, l))
                    ∙ ap (λ r. decode_all (merge r us (y ∷ ds))) p.2.2))
        ]

init-new :
    (src : Source) (c : CollectionDescription) (backward : Bool)
    → is_empty_schema c.schema ≡ false
    → init src c backward true new_fetcher
      ≡ (ok tt, record { df = ready c backward; deleted_doc_fetcher = some (ready c backward) })
unfolding init
init-new src c backward full = let e = init_fetcher-blank src c backward in rw (full, e) (rw e refl)

start-both :
    (src : Source) (given : Option (List Span)) (df ddf df' ddf' : DocumentFetcher)
    → start_fetcher src given false df ≡ (ok tt, df')
    → start_fetcher src given true ddf ≡ (ok tt, ddf')
    → start src given (record { df = df; deleted_doc_fetcher = some ddf })
      ≡ (ok tt, record { df = df'; deleted_doc_fetcher = some ddf' })
unfolding start
start-both src given df ddf df' ddf' e f = rw e (rw f refl)

-- A new fetcher that is initialised to show deleted documents, started, and asked for documents until
-- it gives none.
abbrev pub ran :
    (src : Source) {Doc : Type 0} (decode_to_doc : EncodedDocument → Result Doc)
    → ℕ
    → Result (Unit {0}) × Fetcher
    → Result (List (Option Bytes × Doc × DocumentStatus))
ran src decode_to_doc n (err e, f) = err e
ran src decode_to_doc n (ok _, f) = fetch_docs src decode_to_doc n f

fetch_docs-merged :
    (src : Source) {Doc : Type 0} (decode_to_doc : EncodedDocument → Result Doc) (n : ℕ)
    (c : CollectionDescription) (backward : Bool) (given : Option (List Span))
    (us ds : List EncodedDocument)
    → src.close_results ≡ ok tt
    → src.get_iterator backward ≡ ok tt
    → is_empty_schema c.schema ≡ false
    → Served src c backward given false us
    → Served src c backward given true ds
    → length us + length ds < n
    → ran src decode_to_doc n ((init src c backward true >> start src given) new_fetcher)
      ≡ decode_all src decode_to_doc (merge backward us ds)
fetch_docs-merged src decode_to_doc n c backward given us ds closes opens full p q l =
    let (df, e, r, v) = start_fetcher-Yields src c backward given false us closes opens p in
    let (ddf, f, s, w) = start_fetcher-Yields src c backward given true ds closes opens q in
    let g = init-new src c backward full in
    let k = start-both src given (ready c backward) (ready c backward) df ddf e f in
    rw (g, k)
      (fetch_docs-eq-merge src decode_to_doc n df ddf us ds v w l
        ∙ ap (λ b. decode_all src decode_to_doc (merge b us ds)) r)

-- A new fetcher that shows deleted documents, over a source that works and gives pairs of active and of
-- deleted documents, of each kind in the order of their keys: the documents that it gives are those of both
-- kinds, each with its status, in one order of keys, an active one before a deleted one of the same key; and
-- it fails with the error of the first that cannot be decoded. The order is that of the keys' bytes, or the
-- reverse of it where the fetcher goes backward.
pub fetch_docs-in_order :
    (src : Source) {Doc : Type 0} (decode_to_doc : EncodedDocument → Result Doc) (n : ℕ)
    (c : CollectionDescription) (backward : Bool) (given : Option (List Span))
    (us ds : List EncodedDocument)
    → src.close_results ≡ ok tt
    → src.get_iterator backward ≡ ok tt
    → is_empty_schema c.schema ≡ false
    → Served src c backward given false us
    → Served src c backward given true ds
    → length us + length ds < n
    → InKeyOrder backward (with_status active us)
    → InKeyOrder backward (with_status deleted ds)
    → (all : List (EncodedDocument × DocumentStatus)) × (ran src decode_to_doc n
          ((init src c backward true >> start src given) new_fetcher)
        ≡ decode_all src decode_to_doc all)
      × InKeyOrder backward all
      × (active_ones all ≡ us)
      × (deleted_ones all ≡ ds)
fetch_docs-in_order src decode_to_doc n c backward given us ds closes opens full p q l h k =
    let (a, b) = merge-parts backward us ds in
    (
      merge backward us ds,
      fetch_docs-merged src decode_to_doc n c backward given us ds closes opens full p q l,
      merge-InKeyOrder backward us ds h k,
      a,
      b,
    )
