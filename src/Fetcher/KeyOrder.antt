-- ===== src/Fetcher/KeyOrder.antt =====
-- db/fetcher/fetcher.go, FetchNextDoc: active and deleted documents in one order of keys.
use defradg.Prelude.{
  ◌≡◌, refl, ap, Bytes, Bool, true, false, not, List, [], ◌∷◌, Option, some, bytes_lt,
  if◌then◌else◌, Bool-cases, inl, inr,
}
use defradg.Fetcher.{EncodedDocument}
use defradg.Fetcher.Merged.{DocumentStatus, active, deleted}

-- Whether a deleted document is before an active one.
abbrev pub earlier : Bool → Option Bytes → Option Bytes → Bool
earlier backward (some d) (some a) = if backward then bytes_lt a d else bytes_lt d a
earlier backward _ _ = false

abbrev pub with_status :
    DocumentStatus → List EncodedDocument → List (EncodedDocument × DocumentStatus)
with_status s [] = []
with_status s (d ∷ ds) = (d, s) ∷ with_status s ds

-- The merge of two lists, active documents before deleted ones of the same key.
abbrev pub merge :
    Bool → List EncodedDocument → List EncodedDocument → List (EncodedDocument × DocumentStatus)
merge backward [] ds = with_status deleted ds
merge backward (x ∷ us) [] = (x, active) ∷ merge backward us []
merge backward (x ∷ us) (y ∷ ds) =
    let first = (y, deleted) ∷ merge backward (x ∷ us) ds in
    let later = (x, active) ∷ merge backward us (y ∷ ds) in
    if earlier backward y.key x.key then first else later

-- Whether one document may be right before another: not where the other's key is first, and a deleted one
-- before an active one only where its own key is first.
abbrev pub may_precede :
    Bool → EncodedDocument × DocumentStatus → EncodedDocument × DocumentStatus → Bool
may_precede backward (x, deleted) (y, active) = earlier backward x.key y.key
may_precede backward (x, _) (y, _) = not (earlier backward y.key x.key)

abbrev pub Leads :
    Bool → EncodedDocument × DocumentStatus → List (EncodedDocument × DocumentStatus) → Type 0
Leads backward d [] = Unit
Leads backward d (e ∷ es) = may_precede backward d e ≡ true

-- Each document may be right before the next.
abbrev pub InKeyOrder : Bool → List (EncodedDocument × DocumentStatus) → Type 0
InKeyOrder backward [] = Unit
InKeyOrder backward (d ∷ ds) = Leads backward d ds × InKeyOrder backward ds

abbrev pub active_ones : List (EncodedDocument × DocumentStatus) → List EncodedDocument
active_ones [] = []
active_ones ((d, active) ∷ ds) = d ∷ active_ones ds
active_ones ((d, deleted) ∷ ds) = active_ones ds

abbrev pub deleted_ones : List (EncodedDocument × DocumentStatus) → List EncodedDocument
deleted_ones [] = []
deleted_ones ((d, active) ∷ ds) = deleted_ones ds
deleted_ones ((d, deleted) ∷ ds) = d ∷ deleted_ones ds

merge-Leads :
    (backward : Bool) (z : EncodedDocument × DocumentStatus) (us ds : List EncodedDocument)
    → Leads backward z (with_status active us)
    → Leads backward z (with_status deleted ds)
    → Leads backward z (merge backward us ds)
merge-Leads backward z [] ds h k = k
merge-Leads backward z (x ∷ us) [] h k = h
merge-Leads backward z (x ∷ us) (y ∷ ds) h k = elim (Bool-cases (earlier backward y.key x.key)) [
  | inl e ↦ rw e k
  | inr e ↦ rw e h
]

pub merge-InKeyOrder :
    (backward : Bool) (us ds : List EncodedDocument)
    → InKeyOrder backward (with_status active us)
    → InKeyOrder backward (with_status deleted ds)
    → InKeyOrder backward (merge backward us ds)
merge-InKeyOrder backward [] ds h k = k
merge-InKeyOrder backward (x ∷ us) [] h k =
    (merge-Leads backward (x, active) us [] h.0 tt, merge-InKeyOrder backward us [] h.1 k)
merge-InKeyOrder backward (x ∷ us) (y ∷ ds) h k = elim (Bool-cases (earlier backward y.key x.key)) [
  | inl e ↦ rw e (
    merge-Leads backward (y, deleted) (x ∷ us) ds e k.0,
    merge-InKeyOrder backward (x ∷ us) ds h k.1,
  )
  | inr e ↦ rw e (
    merge-Leads backward (x, active) us (y ∷ ds) h.0 (rw e refl),
    merge-InKeyOrder backward us (y ∷ ds) h.1 k,
  )
]

deleted_only :
    (ds : List EncodedDocument)
    → (active_ones (with_status deleted ds) ≡ []) × (deleted_ones (with_status deleted ds) ≡ ds)
deleted_only [] = (refl, refl)
deleted_only (d ∷ ds) = let (a, b) = deleted_only ds in (a, ap (λ l. d ∷ l) b)

-- The merge has the documents of each list, in their order.
pub merge-parts :
    (backward : Bool) (us ds : List EncodedDocument)
    → (active_ones (merge backward us ds) ≡ us) × (deleted_ones (merge backward us ds) ≡ ds)
merge-parts backward [] ds = deleted_only ds
merge-parts backward (x ∷ us) [] = let (a, b) = merge-parts backward us [] in (ap (λ l. x ∷ l) a, b)
merge-parts backward (x ∷ us) (y ∷ ds) = elim (Bool-cases (earlier backward y.key x.key)) [
  | inl e ↦ let (a, b) = merge-parts backward (x ∷ us) ds in rw e (a, ap (λ l. y ∷ l) b)
  | inr e ↦ let (a, b) = merge-parts backward us (y ∷ ds) in rw e (ap (λ l. x ∷ l) a, b)
]
