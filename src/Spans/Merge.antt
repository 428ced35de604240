-- ===== src/Spans/Merge.antt =====
-- core/data.go, MergeAscending: spans in order, and a span behind them that comes before some.
use defradg.Prelude.{
  ◌≡◌, refl, sym, ap, ◌∙◌, Bool, false, List, [], ◌∷◌, ◌++◌, append_assoc, append-nil, All, length,
  leb, some, ok, Bool-cases, inl, inr,
}
use defradg.Spans.{
  Span, after, compare, Places, places, span_at, merge_span, merge_all, merge_ascending,
}

-- A span is after all of those before it.
abbrev pub InOrder : List Span → List Span → Type 0
InOrder us [] = Unit
InOrder us (s ∷ ss) = All (λ u. compare s u ≡ after) us × InOrder (us ++ (s ∷ [])) ss

-- Those that a span is after are passed over.
merge_span-after :
    (s : Span) (front : Places) (us : List Span) (qs : Places) (found : Bool)
    → All (λ u. compare s u ≡ after) us
    → merge_span s front (places us ++ qs) found ≡ merge_span s (front ++ places us) qs found
unfolding merge_span span_at
merge_span-after s front [] qs found h = ap (λ l. merge_span s l qs found) (sym (append-nil front))
merge_span-after s front (u ∷ us) qs found h = rw h.0 (
    merge_span-after s (front ++ (some u ∷ [])) us qs found h.1
    ∙ ap (λ l. merge_span s l qs found) (append_assoc front (some u ∷ []) (places us)))

places-append : (us vs : List Span) → places (us ++ vs) ≡ places us ++ places vs
places-append [] vs = refl
places-append (u ∷ us) vs = ap (λ l. some u ∷ l) (places-append us vs)

merge_span-last :
    (s : Span) (us : List Span)
    → All (λ u. compare s u ≡ after) us
    → merge_span s [] (places us) false ≡ ok (places us, false)
unfolding merge_span
merge_span-last s us h =
    ap (λ l. merge_span s [] l false) (sym (append-nil (places us)))
    ∙ merge_span-after s [] us [] false h

merge_all-InOrder :
    (us ss ts : List Span)
    → InOrder us ss
    → merge_all (ss ++ ts) (places us) ≡ merge_all ts (places (us ++ ss))
unfolding merge_all
merge_all-InOrder us [] ts h = ap (λ l. merge_all ts (places l)) (sym (append-nil us))
merge_all-InOrder us (s ∷ ss) ts h = rw (merge_span-last s us h.0) (
    ap (merge_all (ss ++ ts)) (sym (places-append us (s ∷ [])))
    ∙ (merge_all-InOrder (us ++ (s ∷ [])) ss ts h.1
        ∙ ap (λ l. merge_all ts (places l)) (append_assoc us (s ∷ []) ss)))

-- Spans of which each is after all before it are left as they are.
pub merge_ascending-InOrder : (ss : List Span) → InOrder [] ss → merge_ascending ss ≡ ok (places ss)
unfolding merge_ascending merge_all
merge_ascending-InOrder ss h = elim (Bool-cases (leb (length ss) 1)) [
  | inl e ↦ rw e refl
  | inr e ↦ rw e (ap (λ l. merge_all l []) (sym (append-nil ss)) ∙ merge_all-InOrder [] ss [] h)
]

-- So many copies of a span.
abbrev pub repeated : Span → List Span → List Span
repeated u [] = []
repeated u (s ∷ ss) = u ∷ repeated u ss
