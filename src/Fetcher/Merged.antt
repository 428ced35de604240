-- ===== src/Fetcher/Merged.antt =====
-- db/fetcher/fetcher.go, FetchNextDoc: the documents that are active and those that are deleted, which
-- are under other keys, in one order.
use defradg.Prelude.{
  ℕ, zero, suc, ◌≡◌, Bytes, Bool, true, false, List, [], ◌∷◌, Option, none, some, bytes_lt,
  if◌then◌else◌, Result, ok, err, panic, uninitialized_property, ◌>>=◌,
}
use defradg.Prelude.Exec.{Exec}
use defradg.Spans.{Span}
use defradg.Collection.{CollectionDescription, is_empty_schema}
use defradg.Fetcher.{
  KeyValue, EncodedDocument, Source, DocumentFetcher, blank, init_fetcher, start_fetcher,
  fetch_next,
}

pub data DocumentStatus : Type 0 where
  active deleted : DocumentStatus

-- A fetcher with the one of `deletedDocFetcher`, if it has one.
pub record Fetcher : Type 0 where
  pub df : DocumentFetcher
  pub deleted_doc_fetcher : Option DocumentFetcher

-- `ddf.kv.Key.DocKey > df.kv.Key.DocKey`, or `<`; a nil pair panics.
unfoldable pub comes_first : Bool → Option KeyValue → Option KeyValue → Result Bool
comes_first backward (some d) (some a) = ok (
    if backward then bytes_lt a.key.doc_key d.key.doc_key else bytes_lt d.key.doc_key a.key.doc_key)
comes_first backward _ _ = err panic

unfoldable pub takes_deleted : DocumentFetcher → DocumentFetcher → Result Bool
takes_deleted df ddf =
    if ddf.kv_end
    then ok false
    else if df.kv_end
    then ok true
    else comes_first df.reverse ddf.kv df.kv

abbrev pub new_fetcher : Fetcher
new_fetcher = record { df = blank; deleted_doc_fetcher = none }

abbrev blank_or : Option DocumentFetcher → DocumentFetcher
blank_or none = blank
blank_or (some df) = df

module _ (src : Source) where
  abbrev deleted_too :
      DocumentFetcher → Result (Unit {0}) × DocumentFetcher → Result (Unit {0}) × Fetcher
  deleted_too df (r, ddf) = (r, record { df = df; deleted_doc_fetcher = some ddf })

  abbrev then_init :
      CollectionDescription
      → Bool
      → Bool
      → Option DocumentFetcher
      → Result (Unit {0}) × DocumentFetcher
      → Result (Unit {0}) × Fetcher
  then_init c backward show ddf (err e, df) = (err e, record { df = df; deleted_doc_fetcher = ddf })
  then_init c backward false ddf (ok _, df) = (ok tt, record { df = df; deleted_doc_fetcher = ddf })
  then_init c backward true ddf (ok _, df) =
      deleted_too df (init_fetcher src c backward (blank_or ddf))

  -- `Init`
  unfoldable pub init : CollectionDescription → Bool → Bool → Exec Fetcher (Unit {0})
  init c backward show f =
      if is_empty_schema c.schema
      then (err uninitialized_property, f)
      else then_init c backward show f.deleted_doc_fetcher (init_fetcher src c backward f.df)

  abbrev then_start :
      Option (List Span)
      → Option DocumentFetcher
      → Result (Unit {0}) × DocumentFetcher
      → Result (Unit {0}) × Fetcher
  then_start given ddf (err e, df) = (err e, record { df = df; deleted_doc_fetcher = ddf })
  then_start given none (ok _, df) = (ok tt, record { df = df; deleted_doc_fetcher = none })
  then_start given (some ddf) (ok _, df) = deleted_too df (start_fetcher src given true ddf)

  -- `Start`
  unfoldable pub start : Option (List Span) → Exec Fetcher (Unit {0})
  start given f = then_start given f.deleted_doc_fetcher (start_fetcher src given false f.df)

-- A fetcher that gives these documents and then no more, each with a pair of its key at hand before.
abbrev pub Yields : Source → DocumentFetcher → List EncodedDocument → Type 0
Yields src df [] = df.kv_end ≡ true
Yields src df (d ∷ ds) =
    (df.kv_end ≡ false)
    × ((kv : KeyValue) × (df.kv ≡ some kv) × (d.key ≡ some kv.key.doc_key))
    × ((df' : DocumentFetcher) × (fetch_next src df ≡ (ok (some d), df'))
        × (df'.reverse ≡ df.reverse)
        × Yields src df' ds)

module _ (src : Source) {Doc : Type 0} (decode_to_doc : EncodedDocument → Result Doc) where
  -- The key, the document, and its status.
  abbrev pub Found : Type 0
  Found = Option (Option Bytes × Doc × DocumentStatus)

  abbrev pub decoded : EncodedDocument → DocumentStatus → Result Found
  decoded d status = decode_to_doc d >>= (λ x. ok (some (d.key, x, status)))

  abbrev from_active :
      Option DocumentFetcher
      → Result (Option EncodedDocument) × DocumentFetcher
      → Result Found × Fetcher
  from_active ddf (err e, df) = (err e, record { df = df; deleted_doc_fetcher = ddf })
  from_active ddf (ok none, df) = (ok none, record { df = df; deleted_doc_fetcher = ddf })
  from_active ddf (ok (some d), df) =
      (decoded d active, record { df = df; deleted_doc_fetcher = ddf })

  -- A deleted fetcher that gives no document leaves the turn to the active one.
  abbrev from_deleted :
      DocumentFetcher → Result (Option EncodedDocument) × DocumentFetcher → Result Found × Fetcher
  from_deleted df (err e, ddf) = (err e, record { df = df; deleted_doc_fetcher = some ddf })
  from_deleted df (ok none, ddf) = from_active (some ddf) (fetch_next src df)
  from_deleted df (ok (some d), ddf) =
      (decoded d deleted, record { df = df; deleted_doc_fetcher = some ddf })

  abbrev by_turn : DocumentFetcher → DocumentFetcher → Result Bool → Result Found × Fetcher
  by_turn df ddf (err e) = (err e, record { df = df; deleted_doc_fetcher = some ddf })
  by_turn df ddf (ok true) = from_deleted df (fetch_next src ddf)
  by_turn df ddf (ok false) = from_active (some ddf) (fetch_next src df)

  abbrev with_deleted : DocumentFetcher → Option DocumentFetcher → Result Found × Fetcher
  with_deleted df none = from_active none (fetch_next src df)
  with_deleted df (some ddf) = by_turn df ddf (takes_deleted df ddf)

  unfoldable pub fetch_next_doc : Fetcher → Result Found × Fetcher
  fetch_next_doc f = with_deleted f.df f.deleted_doc_fetcher

  -- FetchNextDoc until it gives no document.
  abbrev pub collected :
      (Fetcher → Result (List (Option Bytes × Doc × DocumentStatus)))
      → Result Found × Fetcher
      → Result (List (Option Bytes × Doc × DocumentStatus))
  collected rest (err e, f) = err e
  collected rest (ok none, f) = ok []
  collected rest (ok (some x), f) = rest f >>= (λ xs. ok (x ∷ xs))

  unfoldable pub fetch_docs : ℕ → Fetcher → Result (List (Option Bytes × Doc × DocumentStatus))
  fetch_docs zero f = err panic
  fetch_docs (suc n) f = let rest = fetch_docs n in collected rest (fetch_next_doc f)
