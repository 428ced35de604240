-- ===== src/Connor/Logic.antt =====
-- connor: the operators that combine conditions, against each other, and the entries of a condition,
-- which a loop meets in any order.
use mathlib.Core.Logic.{∥∥₁_elim}
use mathlib.Core.List.{Perm, Permᴰ, map}
use defradg.Prelude.{
  ◌≡◌, ◌∙◌, refl, ap, subst, Bool, true, false, List, [], ◌∷◌, All, some, arith, Error, Result, ok,
  err, Result-cases, inl, inr,
}
use defradg.Connor.Value.{Std, Value, array, doc, Doc, Values, Entries, FilterKey, done, entry}
use defradg.Connor.Eq.{
  negated, Test, and, or, in_, nin, ne, eq_data, eq_entries, eq_entry, eq, elements, eqs,
  entry_tests, match,
}

module _ {L : Std} where
  or-and_ne :
      (fs : List (Test L)) (d : Value L) → negated (or (some fs) d) ≡ and (some (map ne fs)) d
  unfolding or and ne
  or-and_ne [] d = refl
  or-and_ne (f ∷ fs) d = elim (Result-cases (f d)) [
    | inl (e, p) ↦ rw p refl
    | inr (true, p) ↦ rw p refl
    | inr (false, p) ↦ rw p (or-and_ne fs d)
  ]

  in-or : (fs : List (Test L)) (d : Value L) → in_ (some fs) d ≡ or (some fs) d
  unfolding in_ or
  in-or [] d = refl
  in-or (f ∷ fs) d = rw (in-or fs d) refl

-- To fail a list of conditions, by nin or by or, is that the negation of each holds, in their order,
-- up to the first that does not hold or fails with an error.
pub nin-and_ne :
    (L : Std) (deep_equal : Value L → Value L → Bool) (cs : Values L) (d : Value L)
    → (nin (elements deep_equal (array cs)) d ≡ and (some (map ne (eqs deep_equal cs))) d)
      × (negated (or (elements deep_equal (array cs)) d)
          ≡ and (some (map ne (eqs deep_equal cs))) d)
unfolding nin eq
nin-and_ne L deep_equal cs d = (
  ap negated (in-or (eqs deep_equal cs) d) ∙ or-and_ne (eqs deep_equal cs) d,
  or-and_ne (eqs deep_equal cs) d,
)

module _ {L : Std} where
  first_false :
      (f g : Test L) (d : Value L)
      → eq_entries (f ∷ []) d ≡ ok false
      → eq_entries (f ∷ g ∷ []) d ≡ ok false
  unfolding eq_entries
  first_false f g d h = ground (arith, Result-cases (f d))

  first_error :
      (f g : Test L) (d : Value L) (e : Error)
      → eq_entries (f ∷ []) d ≡ err e
      → eq_entries (f ∷ g ∷ []) d ≡ err e
  unfolding eq_entries
  first_error f g d e h = ground (arith, Result-cases (f d))

-- A result without an error.
abbrev pub IsOk : Result Bool → Type 0
IsOk r = (b : Bool) × (r ≡ ok b)

Result-set : IsSet (Result Bool)
Result-set = hlevel

module _ {L : Std} (d : Value L) where
  abbrev pub AllOk : List (Test L) → Type 0
  AllOk = All (λ f. IsOk (f d))

  eq_entries-swap :
      (f g : Test L) (fs : List (Test L))
      → IsOk (f d)
      → IsOk (g d)
      → eq_entries (f ∷ g ∷ fs) d ≡ eq_entries (g ∷ f ∷ fs) d
  unfolding eq_entries
  eq_entries-swap f g fs (true, p) (true, q) = rw (p, q) refl
  eq_entries-swap f g fs (true, p) (false, q) = rw (p, q) refl
  eq_entries-swap f g fs (false, p) (true, q) = rw (p, q) refl
  eq_entries-swap f g fs (false, p) (false, q) = rw (p, q) refl

  eq_entries-cons :
      (f : Test L) (fs gs : List (Test L))
      → eq_entries fs d ≡ eq_entries gs d
      → eq_entries (f ∷ fs) d ≡ eq_entries (f ∷ gs) d
  unfolding eq_entries
  eq_entries-cons f fs gs h = rw h refl

  eq_entries-permᴰ :
      {fs gs : List (Test L)}
      → AllOk fs
      → Permᴰ fs gs
      → (eq_entries fs d ≡ eq_entries gs d) × AllOk gs
  eq_entries-permᴰ h Permᴰ.nil = (refl, tt)
  eq_entries-permᴰ h (Permᴰ.cons {a = f} {b = g} {l₁ = fs} {l₂ = gs} p q) =
      let (e, k) = eq_entries-permᴰ h.1 q in
      (
        ap (λ x. eq_entries (x ∷ fs) d) p ∙ eq_entries-cons g fs gs e,
        (subst (λ x. IsOk (x d)) p h.0, k),
      )
  eq_entries-permᴰ h (Permᴰ.swap {a = f} {b = g} {a' = f'} {b' = g'} {l = fs} p q) = (
    eq_entries-swap f g fs h.0 h.1.0 ∙ cc,
    (subst (λ x. IsOk (x d)) q h.1.0, (subst (λ x. IsOk (x d)) p h.0, h.1.1)),
  )
  eq_entries-permᴰ h (Permᴰ.trans {l₁ = fs} {l₂ = gs} {l₃ = hs} p q) =
      let (e, k) = eq_entries-permᴰ h p in let (e', k') = eq_entries-permᴰ k q in (e ∙ e', k')

-- The entries of a condition, on a document: if none of them fails with an error, their order does
-- not matter, as the iteration of a Go map needs.
pub match_any_order :
    (L : Std) (deep_equal : Value L → Value L → Bool) (es fs : Entries L) (v : Doc L)
    → AllOk (doc v) (entry_tests deep_equal es)
    → Perm (entry_tests deep_equal es) (entry_tests deep_equal fs)
    → match deep_equal es (doc v) ≡ match deep_equal fs (doc v)
unfolding match eq eq_data
match_any_order L deep_equal es fs v h p =
    ∥∥₁_elim p
      (Result-set (eq_entries (entry_tests deep_equal es) (doc v))
        (eq_entries (entry_tests deep_equal fs) (doc v)))
      (λ q. (eq_entries-permᴰ (doc v) h q).0)

-- Of two entries on a document, one that does not hold and one that fails with an error, the order
-- decides between the result that the condition does not hold and the error.
pub match_hides_error :
    (L : Std) (deep_equal : Value L → Value L → Bool) (k k' : FilterKey) (c c' : Value L)
    (v : Doc L) (e : Error)
    → match deep_equal (entry k c done) (doc v) ≡ ok false
    → match deep_equal (entry k' c' done) (doc v) ≡ err e
    → (match deep_equal (entry k c (entry k' c' done)) (doc v) ≡ ok false)
      × (match deep_equal (entry k' c' (entry k c done)) (doc v) ≡ err e)
unfolding match eq eq_data
match_hides_error L deep_equal k k' c c' v e p q =
    (first_false (test k c) (test k' c') (doc v) p, first_error (test k' c') (test k c) (doc v) e q)
  where
    test : FilterKey → Value L → Test L
    test key c = eq_entry key c (eq deep_equal c) (elements deep_equal c)
