-- ===== src/Order/Compare.antt =====
-- db/base/compare.go: fields of one kind are compared as texts are, with nil before all.
use defradg.Prelude.{
  ℕ, ◌-◌, ◌^◌, ◌<◌, ◌≡◌, refl, sym, ◌∙◌, Bytes, Bool, true, false, [], ◌∷◌, Option, none, some,
  bytes_eq, bytes_lt, bytes_eq_iff, bytes_lt_asymm, bytes_lt_irrefl, bytes_lt_antisymm,
  not_lt_trans, arith, if◌then◌else◌, ok, ℤ, pos, negsuc, int_lt,
}
use defradg.Order.{
  Std, Field, nil, bool, int64, uint64, text, bytes, compare, compare_bool, compare_int,
  compare_uint, compare_bytes, by_tests, minus_one,
}

-- Kinds of fields whose values are ordered without a word of Go's libraries.
pub data Kind : Type 0 where
  bools ints uints texts byte_strings : Kind

-- Where a field of a kind stands: nil, or a text that is as far along as its value.
pub data Ranked {L : Std} : Kind → Field L → Option Bytes → Type 0 where
  no_value : {k : Kind} → Ranked k nil none
  false_value : Ranked bools (bool false) (some (0 ∷ []))
  true_value : Ranked bools (bool true) (some (1 ∷ []))
  negative_value :
      {n : ℕ} → n < 2 ^ 63 → Ranked ints (int64 (negsuc n)) (some (0 ∷ (2 ^ 63 - n) ∷ []))
  positive_value : {n : ℕ} → Ranked ints (int64 (pos n)) (some (1 ∷ n ∷ []))
  uint_value : {n : ℕ} → Ranked uints (uint64 n) (some (n ∷ []))
  text_value : {t : Bytes} → Ranked texts (text t) (some t)
  bytes_value : {t : Bytes} → Ranked byte_strings (bytes t) (some t)

-- The comparison of two places.
abbrev pub by_rank : Option Bytes → Option Bytes → ℤ
by_rank none none = pos 0
by_rank none (some b) = minus_one
by_rank (some a) none = pos 1
by_rank (some a) (some b) = by_tests (bytes_eq a b) (bytes_lt b a)

module _ {L : Std} where
  pub compare-by_rank :
      {k : Kind} {v w : Field L} {i j : Option Bytes}
      → Ranked k v i
      → Ranked k w j
      → compare v w ≡ ok (by_rank i j)
  unfolding compare compare_bool compare_int compare_uint compare_bytes
  compare-by_rank no_value no_value = refl
  compare-by_rank no_value false_value = refl
  compare-by_rank no_value true_value = refl
  compare-by_rank no_value (negative_value h) = refl
  compare-by_rank no_value positive_value = refl
  compare-by_rank no_value uint_value = refl
  compare-by_rank no_value text_value = refl
  compare-by_rank no_value bytes_value = refl
  compare-by_rank false_value no_value = refl
  compare-by_rank false_value false_value = refl
  compare-by_rank false_value true_value = refl
  compare-by_rank true_value no_value = refl
  compare-by_rank true_value false_value = refl
  compare-by_rank true_value true_value = refl
  compare-by_rank (negative_value h) no_value = refl
  compare-by_rank (negative_value h) (negative_value g) = ground arith
  compare-by_rank (negative_value h) positive_value = refl
  compare-by_rank positive_value no_value = refl
  compare-by_rank positive_value (negative_value h) = refl
  compare-by_rank positive_value positive_value = ground arith
  compare-by_rank uint_value no_value = refl
  compare-by_rank uint_value uint_value = ground arith
  compare-by_rank text_value no_value = refl
  compare-by_rank text_value text_value = refl
  compare-by_rank bytes_value no_value = refl
  compare-by_rank bytes_value bytes_value = refl

-- In a direction, one place is strictly before another.
abbrev pub before : Bool → Option Bytes → Option Bytes → Bool
before descending i j =
    if descending then int_lt (pos 0) (by_rank i j) else int_lt (by_rank i j) (pos 0)

before-some :
    (d : Bool) (a b : Bytes)
    → before d (some a) (some b) ≡ (if d then bytes_lt b a else bytes_lt a b)
before-some d a b =
    ground (arith, bytes_eq_iff a b, bytes_lt_irrefl a, bytes_lt_asymm a b, bytes_lt_antisymm a b)

pub before-asymm : (d : Bool) (i j : Option Bytes) → before d i j ≡ true → before d j i ≡ false
before-asymm d none none h = ground (arith, h)
before-asymm d none (some b) h = ground (arith, h)
before-asymm d (some a) none h = ground (arith, h)
before-asymm d (some a) (some b) h =
    ground (arith, h, before-some d a b, before-some d b a, bytes_lt_asymm a b, bytes_lt_asymm b a)

pub before_trans :
    (d : Bool) (i j k : Option Bytes)
    → before d i j ≡ false
    → before d j k ≡ false
    → before d i k ≡ false
before_trans d none none none h g = ground (arith, h, g)
before_trans d none none (some c) h g = ground (arith, h, g)
before_trans d none (some b) none h g = ground (arith, h, g)
before_trans d none (some b) (some c) h g = ground (arith, h, g)
before_trans d (some a) none none h g = ground (arith, h, g)
before_trans d (some a) none (some c) h g = ground (arith, h, g)
before_trans d (some a) (some b) none h g = ground (arith, h, g)
before_trans true (some a) (some b) (some c) h g =
    before-some true a c
    ∙ not_lt_trans c b a (sym (before-some true b c) ∙ g) (sym (before-some true a b) ∙ h)
before_trans false (some a) (some b) (some c) h g =
    before-some false a c
    ∙ not_lt_trans a b c (sym (before-some false a b) ∙ h) (sym (before-some false b c) ∙ g)
