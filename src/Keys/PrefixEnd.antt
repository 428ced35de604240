-- ===== src/Keys/PrefixEnd.antt =====
-- core/key.go, bytesPrefixEnd: the keys that begin with a prefix are those from the prefix up to,
-- and without, its end.
use mathlib.Core.List.{reverse-append, reverse_aux-append}
use defradg.Prelude.{
  All, ℕ, ◌+◌, ◌%◌, ◌≡◌, refl, ◌↔◌, inl, inr, true, false, Bytes, IsBytes, [], ◌∷◌, ◌++◌, reverse,
  Option, none, some, arith, bytes_lt, has_prefix, ◌==◌, if◌then◌else◌, Option-cases,
}
use defradg.Keys.{carry, bytes_prefix_end}

-- The end of a prefix from its first byte on: a byte goes up only if all behind it were 0xff.
unfoldable pub keep : ℕ → Option Bytes → Option Bytes
keep x (some e) = some (x ∷ e)
keep x none = let y = (x + 1) % 256 in if y == 0 then none else some (y ∷ [])

unfoldable pub raise : Bytes → Option Bytes
unfolding keep
raise [] = none
raise (x ∷ b) = keep x (raise b)

carry-append : (r : Bytes) (x : ℕ) → carry (r ++ x ∷ []) ≡ keep x (carry r)
unfolding carry keep
carry-append [] x = refl
carry-append (y ∷ r) x =
    ground (arith, carry-append r x, reverse_aux-append r (x ∷ []) ((y + 1) % 256 ∷ []))

carry-reverse : (b : Bytes) → carry (reverse b) ≡ raise b
unfolding raise
carry-reverse [] = unfold carry in refl
carry-reverse (x ∷ b) =
    rw (reverse-append (x ∷ []) b) (rw (carry-append (reverse b) x) (rw (carry-reverse b)))

pub le_of_prefix : (b s : Bytes) → has_prefix s b ≡ true → bytes_lt s b ≡ false
le_of_prefix [] s h = ground arith
le_of_prefix (x ∷ b) [] h = cc
le_of_prefix (x ∷ b) (y ∷ s) h = ground (arith, le_of_prefix b s)

-- Bytes that cannot be raised are all 0xff, and what is not before them begins with them.
prefix_of_raise-none :
    (b s : Bytes)
    → IsBytes b
    → IsBytes s
    → raise b ≡ none
    → bytes_lt s b ≡ false
    → has_prefix s b ≡ true
unfolding raise
prefix_of_raise-none [] s hb hs e h = ground arith
prefix_of_raise-none (x ∷ b) [] hb hs e h = cc
prefix_of_raise-none (x ∷ b) (y ∷ s) hb hs e h = ground (arith, prefix_of_raise-none b s)

pub lt_raise_of_prefix :
    (b s e : Bytes) → IsBytes b → raise b ≡ some e → has_prefix s b ≡ true → bytes_lt s e ≡ true
unfolding raise
lt_raise_of_prefix [] s e hb r h = cc
lt_raise_of_prefix (x ∷ b) [] e hb r h = cc
lt_raise_of_prefix (x ∷ b) (y ∷ s) e hb r h = elim (Option-cases (raise b)) [
  | inl n ↦ ground arith
  | inr (e', n) ↦ ground (arith, lt_raise_of_prefix b s e')
]

pub prefix_of_lt_raise :
    (b s e : Bytes)
    → IsBytes b
    → IsBytes s
    → raise b ≡ some e
    → bytes_lt s b ≡ false
    → bytes_lt s e ≡ true
    → has_prefix s b ≡ true
unfolding raise
prefix_of_lt_raise [] s e hb hs r h k = cc
prefix_of_lt_raise (x ∷ b) [] e hb hs r h k = cc
prefix_of_lt_raise (x ∷ b) (y ∷ s) e hb hs r h k = elim (Option-cases (raise b)) [
  | inl n ↦ ground (arith, prefix_of_raise-none b s)
  | inr (e', n) ↦ ground (arith, prefix_of_lt_raise b s e')
]

-- Every byte is 0xff, so that no text of bytes is behind all that begin with these.
abbrev pub IsMax : Bytes → Type 0
IsMax = All (λ x. x ≡ 255)

IsMax-of_raise : (b : Bytes) → IsBytes b → raise b ≡ none → IsMax b
unfolding raise
IsMax-of_raise [] h e = tt
IsMax-of_raise (x ∷ b) h e = ground (arith, IsMax-of_raise b)

raise_of_IsMax : (b : Bytes) → IsMax b → raise b ≡ none
unfolding raise
raise_of_IsMax [] h = refl
raise_of_IsMax (x ∷ b) h = ground (arith, raise_of_IsMax b)

pub raise-some : (b : Bytes) → IsBytes b → ¬ IsMax b → (e : Bytes) × (raise b ≡ some e)
raise-some b h n = elim (Option-cases (raise b)) [
  | inl e ↦ absurd (n (IsMax-of_raise b h e))
  | inr e ↦ e
]

pub bytes_prefix_end_of_raise : (b : Bytes) {e : Bytes} → raise b ≡ some e → bytes_prefix_end b ≡ e
unfolding bytes_prefix_end
bytes_prefix_end_of_raise b h = rw (carry-reverse b) (rw h)

-- For bytes that are not all 0xff, the texts that begin with them are exactly those that are not
-- before them and are before their end.
pub bytes_prefix_end_range :
    (b s : Bytes)
    → IsBytes b
    → IsBytes s
    → ¬ IsMax b
    → (has_prefix s b ≡ true) ↔ ((bytes_lt s b ≡ false) × (bytes_lt s (bytes_prefix_end b) ≡ true))
bytes_prefix_end_range b s hb hs n =
    let (e, r) = raise-some b hb n in
    rw (bytes_prefix_end_of_raise b r) (
      λ h. (le_of_prefix b s h, lt_raise_of_prefix b s e hb r h),
      λ h. prefix_of_lt_raise b s e hb hs r h.0 h.1,
    )

-- Bytes that are all 0xff are returned unchanged.
pub bytes_prefix_end_max : (b : Bytes) → IsMax b → bytes_prefix_end b ≡ b
unfolding bytes_prefix_end
bytes_prefix_end_max b h = rw (carry-reverse b) (rw (raise_of_IsMax b h))
