-- ===== src/Connor/Compare.antt =====
-- connor/ge.go, gt.go, le.go, lt.go and connor/time: comparisons of a condition with data. The
-- comparisons of numbers are written `data op condition`, as in the source.
use defradg.Prelude.{
  Bool, true, false, not, ◌||◌, Result, ok, err, ◌>>=◌, unhandled_type, int_lt, int_le,
}
use defradg.Connor.Value.{Std, Value, nil, text, time, Number, whole, real, other, try_upcast}

abbrev ok_and : {T : Type 0} → (T → Bool) → Result T → Bool
ok_and f (ok d) = f d
ok_and f (err e) = false

module _ {L : Std} where
  abbrev pub is_nil : Value L → Bool
  is_nil nil = true
  is_nil _ = false

  -- A time compared with data: a time, or a text that is read as one.
  abbrev time_test : (L.Time → Bool) → Value L → Result Bool
  time_test f (time d) = ok (f d)
  time_test f (text s) = L.parse s >>= λ d. ok (f d)
  time_test f _ = err unhandled_type

  abbrev pub ge_number : Number L → Number L → Result Bool
  ge_number (real c) (real d) = ok (L.float_le c d)
  ge_number (real c) (whole d) = ok (L.float_lt c (L.of_int d))
  ge_number (real c) other = ok false
  ge_number (whole c) (real d) = ok (L.float_le (L.of_int c) d)
  ge_number (whole c) (whole d) = ok (int_le c d)
  ge_number (whole c) other = ok false
  ge_number other _ = err unhandled_type

  unfoldable pub ge : Value L → Value L → Result Bool
  ge nil d = ok true
  ge (time c) d = time_test (λ t. L.after t c || L.same t c) d
  ge c d = ge_number (try_upcast c) (try_upcast d)

  abbrev pub gt_number : Number L → Number L → Result Bool
  gt_number (real c) (real d) = ok (L.float_lt c d)
  gt_number (real c) (whole d) = ok (L.float_lt c (L.of_int d))
  gt_number (real c) other = ok false
  gt_number (whole c) (real d) = ok (L.float_lt (L.of_int c) d)
  gt_number (whole c) (whole d) = ok (int_lt c d)
  gt_number (whole c) other = ok false
  gt_number other _ = err unhandled_type

  unfoldable pub gt : Value L → Value L → Result Bool
  gt nil d = ok (not (is_nil d))
  gt (time c) d = time_test (λ t. L.after t c) d
  gt c d = gt_number (try_upcast c) (try_upcast d)

  abbrev pub le_number : Number L → Number L → Result Bool
  le_number (real c) (real d) = ok (L.float_le d c)
  le_number (real c) (whole d) = ok (L.float_le (L.of_int d) c)
  le_number (real c) other = ok false
  le_number (whole c) (real d) = ok (L.float_le d (L.of_int c))
  le_number (whole c) (whole d) = ok (int_le d c)
  le_number (whole c) other = ok false
  le_number other _ = err unhandled_type

  unfoldable pub le : Value L → Value L → Result Bool
  le nil d = ok (is_nil d)
  le (time c) d = time_test (λ t. L.before t c || L.same t c) d
  le c d = le_number (try_upcast c) (try_upcast d)

  abbrev pub lt_number : Number L → Number L → Result Bool
  lt_number (real c) (real d) = ok (L.float_lt d c)
  lt_number (real c) (whole d) = ok (L.float_lt (L.of_int d) c)
  lt_number (real c) other = ok false
  lt_number (whole c) (real d) = ok (L.float_lt d (L.of_int c))
  lt_number (whole c) (whole d) = ok (int_lt d c)
  lt_number (whole c) other = ok false
  lt_number other _ = err unhandled_type

  unfoldable pub lt : Value L → Value L → Result Bool
  lt nil d = ok false
  lt (time c) d = time_test (λ t. L.before t c) d
  lt c d = lt_number (try_upcast c) (try_upcast d)

  -- `ctime.Equal`, in which a text that is no time is another value.
  unfoldable pub time_equal : L.Time → Value L → Bool
  time_equal c (time d) = L.same d c
  time_equal c (text s) = ok_and (λ d. L.same d c) (L.parse s)
  time_equal c _ = false
