-- ===== src/Prelude/Text.antt =====
-- Go strings and byte slices as lists of byte values, with the order that Go compares them by.
use Prim.Native.Nat.{ℕ, ◌<◌}
use Prim.Native.Char.{code}
use Prim.Native.String.{String}
use mathlib.Core.Path.{◌≡◌, ap, refl, sym, ◌∙◌}
use mathlib.Core.Logic.{◌≢◌, ◌↔◌, inl, inr}
use mathlib.Core.Bool.{Bool, true, false, ◌&&◌, ◌||◌, not, false≢true}
use mathlib.Core.List.{List, [], ◌∷◌, ◌++◌}
use native.Mathlib.Omega.{arith}
use defradg.Prelude.Tests.{ltb, ◌==◌, Bool-cases, if◌then◌else◌}
use defradg.Prelude.Lists.{All}

abbrev pub Bytes : Type 0
Bytes = List ℕ

abbrev pub codes : String → Bytes
codes String.[] = []
codes (String.◌∷◌ c s) = code c ∷ codes s

-- Every element is a byte.
abbrev pub IsBytes : Bytes → Type 0
IsBytes = All (λ x. x < 256)

-- `a == b` on strings, and `bytes.Equal`.
abbrev pub bytes_eq : Bytes → Bytes → Bool
bytes_eq [] [] = true
bytes_eq [] (y ∷ ys) = false
bytes_eq (x ∷ xs) [] = false
bytes_eq (x ∷ xs) (y ∷ ys) = x == y && bytes_eq xs ys

-- `a < b` on strings, and `bytes.Compare(a, b) < 0`.
abbrev pub bytes_lt : Bytes → Bytes → Bool
bytes_lt xs [] = false
bytes_lt [] (y ∷ ys) = true
bytes_lt (x ∷ xs) (y ∷ ys) = ltb x y || (x == y && bytes_lt xs ys)

-- `a <= b`.
abbrev pub bytes_le : Bytes → Bytes → Bool
bytes_le a b = not (bytes_lt b a)

-- `strings.HasPrefix(s, p)` is `has_prefix s p`.
abbrev pub has_prefix : Bytes → Bytes → Bool
has_prefix s [] = true
has_prefix [] (p ∷ ps) = false
has_prefix (x ∷ s) (p ∷ ps) = x == p && has_prefix s ps

-- `strings.Split(s, sep)` at a separator of one byte.
abbrev cons_head : ℕ → List Bytes → List Bytes
cons_head c [] = (c ∷ []) ∷ []
cons_head c (w ∷ ws) = (c ∷ w) ∷ ws

unfoldable pub split : ℕ → Bytes → List Bytes
split sep [] = [] ∷ []
split sep (c ∷ s) = let rest = split sep s in if c == sep then [] ∷ rest else cons_head c rest

-- No element of the text is `c`.
abbrev pub Lacks : ℕ → Bytes → Type 0
Lacks c = All (λ x. x ≢ c)

pub bytes_eq_iff : (a b : Bytes) → (bytes_eq a b ≡ true) ↔ (a ≡ b)
bytes_eq_iff [] [] = (λ _. refl, λ _. refl)
bytes_eq_iff [] (y ∷ ys) = (λ h. cc, λ h. cc)
bytes_eq_iff (x ∷ xs) [] = (λ h. cc, λ h. cc)
bytes_eq_iff (x ∷ xs) (y ∷ ys) =
    let (to, from) = bytes_eq_iff xs ys in (λ h. ground (arith, to), λ h. ground (arith, from))

pub bytes_eq_refl : (a : Bytes) → bytes_eq a a ≡ true
bytes_eq_refl a = (bytes_eq_iff a a).1 refl

pub bytes_eq_of_ne : (a b : Bytes) → a ≢ b → bytes_eq a b ≡ false
bytes_eq_of_ne a b n = elim (Bool-cases (bytes_eq a b)) [
  | inl e ↦ absurd (n ((bytes_eq_iff a b).0 e))
  | inr e ↦ e
]

pub ne_of_bytes_eq : (a b : Bytes) → bytes_eq a b ≡ false → a ≢ b
ne_of_bytes_eq a b h e = false≢true (sym h ∙ (bytes_eq_iff a b).1 e)

pub bytes_lt_irrefl : (a : Bytes) → bytes_lt a a ≡ false
bytes_lt_irrefl [] = refl
bytes_lt_irrefl (x ∷ xs) = ground (arith, bytes_lt_irrefl xs)

pub bytes_lt_trans :
    (a b c : Bytes) → bytes_lt a b ≡ true → bytes_lt b c ≡ true → bytes_lt a c ≡ true
bytes_lt_trans a b [] h k = cc
bytes_lt_trans a [] (z ∷ zs) h k = ground arith
bytes_lt_trans [] (y ∷ ys) (z ∷ zs) h k = refl
bytes_lt_trans (x ∷ xs) (y ∷ ys) (z ∷ zs) h k = ground (arith, bytes_lt_trans xs ys zs)

-- Of two texts that are not one before the other, each is the other.
pub bytes_lt_antisymm : (a b : Bytes) → bytes_lt a b ≡ false → bytes_lt b a ≡ false → a ≡ b
bytes_lt_antisymm [] [] h k = refl
bytes_lt_antisymm [] (y ∷ ys) h k = cc
bytes_lt_antisymm (x ∷ xs) [] h k = cc
bytes_lt_antisymm (x ∷ xs) (y ∷ ys) h k = ground (arith, bytes_lt_antisymm xs ys)

pub bytes_lt_asymm : (a b : Bytes) → bytes_lt a b ≡ true → bytes_lt b a ≡ false
bytes_lt_asymm a [] h = cc
bytes_lt_asymm [] (y ∷ ys) h = refl
bytes_lt_asymm (x ∷ xs) (y ∷ ys) h = ground (arith, bytes_lt_asymm xs ys)

pub split-append :
    (sep : ℕ) (w s : Bytes) → Lacks sep w → split sep (w ++ sep ∷ s) ≡ w ∷ split sep s
unfolding split
split-append sep [] s h = ground arith
split-append sep (c ∷ w) s h = ground (arith, split-append sep w s)

pub split-Lacks : (sep : ℕ) (w : Bytes) → Lacks sep w → split sep w ≡ w ∷ []
unfolding split
split-Lacks sep [] h = refl
split-Lacks sep (c ∷ w) h = ground (arith, split-Lacks sep w)

pub has_prefix-append : (p s t : Bytes) → has_prefix (p ++ s) (p ++ t) ≡ has_prefix s t
has_prefix-append [] s t = refl
has_prefix-append (x ∷ p) s t = ground (arith, has_prefix-append p s t)

pub not_lt_trans :
    (a b c : Bytes) → bytes_lt a b ≡ false → bytes_lt b c ≡ false → bytes_lt a c ≡ false
not_lt_trans a b c h g = elim (Bool-cases (bytes_lt a c)) [
  | inl e ↦ elim (Bool-cases (bytes_lt c b)) [
    | inl f ↦ ground (arith, e, f, h, bytes_lt_trans a c b)
    | inr f ↦
        let same : b ≡ c = bytes_lt_antisymm b c g f in
        absurd (false≢true (sym h ∙ (ap (bytes_lt a) same ∙ e)))
  ]
  | inr e ↦ e
]
