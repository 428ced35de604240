-- ===== src/Connor/Value.antt =====
-- connor, planner/mapper/targetable.go: the values that a condition and its data are made of, the
-- keys of a condition, and the numbers among them (connor/numbers).
use defradg.Prelude.{
  ℕ, zero, suc, ◌^◌, Bytes, Bool, false, ◌&&◌, Option, ltb, if◌then◌else◌, Result, ok, err, panic,
  ℤ, pos, int_eq,
}

-- What connor asks of Go's floating-point numbers and of the package time.
pub record Std : Type 1 where
  pub Float32 : Type 0
  pub Float64 : Type 0
  pub float_eq : Float64 → Float64 → Bool
  pub float_lt : Float64 → Float64 → Bool
  pub float_le : Float64 → Float64 → Bool
  pub widen : Float32 → Float64
  -- the conversions `float64(n)` and `int64(x)`
  pub of_int : ℤ → Float64
  pub to_int : Float64 → ℤ
  pub Time : Type 0
  pub before : Time → Time → Bool
  pub after : Time → Time → Bool
  pub same : Time → Time → Bool
  pub parse : Bytes → Result Time

-- *PropertyIndex and *Operator
pub data FilterKey : Type 0 where
  property : ℕ → FilterKey
  operator : Bytes → FilterKey

-- An `any`: each constructor is the dynamic type that it holds. The options are those of
-- sourcenetwork/immutable; `array` is []any, `docs` is []core.Doc, `conditions` is
-- map[FilterKey]any in the order in which a loop meets its entries.
mutual
  pub data Value (L : Std) : Type 0 where
    nil : Value L
    bool : Bool → Value L
    text : Bytes → Value L
    int8 int16 int32 int int64 : ℤ → Value L
    uint64 : ℕ → Value L
    float32 : L.Float32 → Value L
    float64 : L.Float64 → Value L
    time : L.Time → Value L
    array : Values L → Value L
    conditions : Entries L → Value L
    doc : Doc L → Value L
    docs : Docs L → Value L
    maybe_bool : Option Bool → Value L
    maybe_int : Option ℤ → Value L
    maybe_float : Option L.Float64 → Value L
    maybe_text : Option Bytes → Value L

  pub data Values (L : Std) : Type 0 where
    stop : Values L
    push : Value L → Values L → Values L

  pub data Entries (L : Std) : Type 0 where
    done : Entries L
    entry : FilterKey → Value L → Entries L → Entries L

  -- The fields of a core.Doc; connor does not look at the others.
  pub data Doc (L : Std) : Type 0 where
    fields : Values L → Doc L

  pub data Docs (L : Std) : Type 0 where
    no_docs : Docs L
    with_doc : Doc L → Docs L → Docs L

module _ {L : Std} where
  abbrev field_at : Values L → ℕ → Result (Value L)
  field_at stop n = err panic
  field_at (push v vs) zero = ok v
  field_at (push v vs) (suc n) = field_at vs n

  -- `PropertyIndex.GetProp`, which panics on what is no document.
  abbrev property_of : ℕ → Value L → Result (Value L)
  property_of n nil = ok nil
  property_of n (doc (fields vs)) = field_at vs n
  property_of n _ = err panic

  unfoldable pub get_prop : FilterKey → Value L → Result (Value L)
  get_prop (property n) data' = property_of n data'
  get_prop (operator o) data' = ok data'

unfoldable pub get_operator_or_default : FilterKey → Bytes → Bytes
get_operator_or_default (property n) default = default
get_operator_or_default (operator o) default = o

-- What a switch on `TryUpcast(v)` sees: an int64, a float64, or another type.
pub data Number (L : Std) : Type 0 where
  whole : ℤ → Number L
  real : L.Float64 → Number L
  other : Number L

module _ {L : Std} where
  unfoldable pub try_upcast : Value L → Number L
  try_upcast (int8 n) = whole n
  try_upcast (int16 n) = whole n
  try_upcast (int32 n) = whole n
  try_upcast (int n) = whole n
  try_upcast (int64 n) = whole n
  try_upcast (uint64 n) = if ltb n (2 ^ 63) then whole (pos n) else other
  try_upcast (float32 x) = real (L.widen x)
  try_upcast (float64 x) = real x
  try_upcast _ = other

  abbrev pub equal_numbers : Number L → Number L → Bool
  equal_numbers (whole m) (whole n) = int_eq m n
  equal_numbers (whole m) (real y) = L.float_eq (L.of_int m) y && int_eq (L.to_int (L.of_int m)) m
  equal_numbers (real x) (real y) = L.float_eq x y
  equal_numbers (real x) (whole n) = int_eq (L.to_int x) n && L.float_eq (L.of_int (L.to_int x)) x
  equal_numbers _ _ = false

  unfoldable pub numbers_equal : Value L → Value L → Bool
  numbers_equal c d = equal_numbers (try_upcast c) (try_upcast d)
