-- ===== src/Connor/Order.antt =====
-- connor/ge.go, gt.go, le.go, lt.go: the four comparisons against each other.
use defradg.Prelude.{
  ◌≡◌, refl, ap, true, false, not, ◌||◌, arith, ok, ◌>>=◌, ℤ, negsuc, pos, int_lt, int_le, int_eq,
}
use defradg.Connor.Value.{
  Std, Value, nil, bool, text, int8, int16, int32, int, int64, uint64, float32, float64, time,
  array, conditions, doc, docs, maybe_bool, maybe_int, maybe_float, maybe_text, whole, try_upcast,
  numbers_equal,
}
use defradg.Connor.Compare.{ge, gt, le, lt, ge_number, gt_number, le_number, lt_number}
use defradg.Connor.Eq.{negated}

int_lt-not-le : (m n : ℤ) → int_lt n m ≡ not (int_le m n)
int_lt-not-le (negsuc m) (negsuc n) = ground arith
int_lt-not-le (negsuc m) (pos n) = refl
int_lt-not-le (pos m) (negsuc n) = refl
int_lt-not-le (pos m) (pos n) = ground arith

int_le-not-lt : (m n : ℤ) → int_le n m ≡ not (int_lt m n)
int_le-not-lt (negsuc m) (negsuc n) = ground arith
int_le-not-lt (negsuc m) (pos n) = refl
int_le-not-lt (pos m) (negsuc n) = refl
int_le-not-lt (pos m) (pos n) = ground arith

int_le-or : (m n : ℤ) → int_le m n ≡ (int_lt m n || int_eq m n)
int_le-or (negsuc m) (negsuc n) = ground arith
int_le-or (negsuc m) (pos n) = refl
int_le-or (pos m) (negsuc n) = refl
int_le-or (pos m) (pos n) = ground arith

module _ {L : Std} where
  -- A condition that is a number is compared as a number.
  abbrev ByNumber : Value L → Value L → Type 0
  ByNumber c d =
      (ge c d ≡ ge_number (try_upcast c) (try_upcast d))
      × (gt c d ≡ gt_number (try_upcast c) (try_upcast d))
      × (le c d ≡ le_number (try_upcast c) (try_upcast d))
      × (lt c d ≡ lt_number (try_upcast c) (try_upcast d))

  by_number : (c d : Value L) (m : ℤ) → try_upcast c ≡ whole m → ByNumber c d
  unfolding ge gt le lt try_upcast
  by_number (int8 n) d m h = (refl, refl, refl, refl)
  by_number (int16 n) d m h = (refl, refl, refl, refl)
  by_number (int32 n) d m h = (refl, refl, refl, refl)
  by_number (int n) d m h = (refl, refl, refl, refl)
  by_number (int64 n) d m h = (refl, refl, refl, refl)
  by_number (uint64 n) d m h = (refl, refl, refl, refl)
  by_number (float32 x) d m h = (refl, refl, refl, refl)
  by_number (float64 x) d m h = (refl, refl, refl, refl)
  by_number nil d m h = cc
  by_number (bool b) d m h = cc
  by_number (text s) d m h = cc
  by_number (time t) d m h = cc
  by_number (array cs) d m h = cc
  by_number (conditions es) d m h = cc
  by_number (doc f) d m h = cc
  by_number (docs ds) d m h = cc
  by_number (maybe_bool b) d m h = cc
  by_number (maybe_int n) d m h = cc
  by_number (maybe_float x) d m h = cc
  by_number (maybe_text s) d m h = cc

-- Of a condition and data that are both integers, of any of the integer types that fit 64 bits with
-- a sign, the comparisons are those of a total order: ge is gt or equal, lt is the negation of ge,
-- and le that of gt.
pub whole_order :
    (L : Std) (c d : Value L) (m n : ℤ)
    → try_upcast c ≡ whole m
    → try_upcast d ≡ whole n
    → (ge c d ≡ (gt c d >>= λ g. ok (g || numbers_equal c d)))
      × (lt c d ≡ negated (ge c d))
      × (le c d ≡ negated (gt c d))
unfolding numbers_equal
whole_order L c d m n h k =
    let (g, t, l, s) = by_number c d m h in
    rw (g, t, l, s)
      (rw (h, k) (ap ok (int_le-or m n), ap ok (int_lt-not-le m n), ap ok (int_le-not-lt m n)))

-- A condition that is a float64 does not admit the int64 of the same number as greater than or equal
-- to it, although it admits the same float64, and the int64 admits the float64, and le holds of the
-- two.
pub ge_not_equal :
    (L : Std) (n : ℤ)
    → L.float_lt (L.of_int n) (L.of_int n) ≡ false
    → L.float_le (L.of_int n) (L.of_int n) ≡ true
    → (ge {L = L} (float64 (L.of_int n)) (int64 n) ≡ ok false)
      × (ge {L = L} (float64 (L.of_int n)) (float64 (L.of_int n)) ≡ ok true)
      × (ge {L = L} (int64 n) (float64 (L.of_int n)) ≡ ok true)
      × (le {L = L} (float64 (L.of_int n)) (int64 n) ≡ ok true)
unfolding ge le try_upcast
ge_not_equal L n h k = (ap ok h, ap ok k, ap ok k, ap ok k)
