-- ===== src/Prelude/Decimal.antt =====
-- The text of a uint32 that Go's fmt.Sprint gives, in decimal digits.
use Prim.Native.Nat.{ℕ, zero, suc, ◌+◌, ◌-◌, ◌*◌, ◌/◌, ◌%◌, ◌^◌, ◌<◌}
use native.Mathlib.Nat.{pow-suc}
use native.Mathlib.Omega.{arith}
use mathlib.Core.Path.{◌≡◌, refl, ap, sym, ◌∙◌}
use mathlib.Core.Logic.{inl, inr}
use mathlib.Core.Bool.{Bool, true, false, ◌&&◌, ◌||◌}
use mathlib.Core.Option.{Option, none, some}
use mathlib.Core.List.{[], ◌∷◌}
use defradg.Prelude.Tests.{ltb, leb, ◌==◌, ltb→lt, Bool-cases, if◌then◌else◌}
use defradg.Prelude.Lists.{is_empty}
use defradg.Prelude.Text.{Bytes, Lacks}

-- The digits of a number, the last first, in front of a text.
digits : ℕ → ℕ → Bytes → Bytes
digits zero n s = s
digits (suc room) n s =
    let last = n % 10 + 48 in
    let more = digits room (n / 10) (last ∷ s) in if ltb n 10 then last ∷ s else more

-- A uint32 has ten digits at most.
unfoldable pub sprint : ℕ → Bytes
unfolding digits
sprint n = digits 10 n []

-- The number that a text of digits continues.
number : ℕ → Bytes → ℕ
number n [] = n
number n (c ∷ s) = number (10 * n + (c - 48)) s

number-digits : (room n : ℕ) (s : Bytes) → n < 10 ^ room → number 0 (digits room n s) ≡ number n s
unfolding digits number
number-digits zero n s h = let e : n ≡ 0 = omega (arith, h) in rw e refl
number-digits (suc room) n s h = elim (Bool-cases (ltb n 10)) [
  | inl e ↦
      let small = ltb→lt n 10 e in
      let d : 0 + (n % 10 + 48 - 48) ≡ n = omega (arith, small) in rw e (ap (λ m. number m s) d)
  | inr e ↦
      let d : 10 * (n / 10) + (n % 10 + 48 - 48) ≡ n = omega arith in
      rw e (
        number-digits room (n / 10) ((n % 10 + 48) ∷ s) (omega (arith, h, pow-suc 10 room))
        ∙ ap (λ m. number m s) d)
]

number-sprint : (n : ℕ) → n < 2 ^ 32 → number 0 (sprint n) ≡ n
unfolding sprint number
number-sprint n h = number-digits 10 n [] (omega (arith, h))

pub sprint-injective : (m n : ℕ) → m < 2 ^ 32 → n < 2 ^ 32 → sprint m ≡ sprint n → m ≡ n
sprint-injective m n h k e = sym (number-sprint m h) ∙ (ap (number 0) e ∙ number-sprint n k)

digits-Lacks : (c room n : ℕ) (s : Bytes) → c < 48 → Lacks c s → Lacks c (digits room n s)
unfolding digits
digits-Lacks c zero n s h l = l
digits-Lacks c (suc room) n s h l = elim (Bool-cases (ltb n 10)) [
  | inl e ↦ rw e (omega (arith, h), l)
  | inr e ↦ rw e (digits-Lacks c room (n / 10) ((n % 10 + 48) ∷ s) h (omega (arith, h), l))
]

-- The text has digits only.
pub sprint-Lacks : (c n : ℕ) → c < 48 → Lacks c (sprint n)
unfolding sprint
sprint-Lacks c n h = digits-Lacks c 10 n [] h tt

digits-is_empty : (room n : ℕ) (s : Bytes) → is_empty s ≡ false → is_empty (digits room n s) ≡ false
unfolding digits
digits-is_empty zero n s h = h
digits-is_empty (suc room) n s h = elim (Bool-cases (ltb n 10)) [
  | inl e ↦ rw e refl
  | inr e ↦ rw e (digits-is_empty room (n / 10) ((n % 10 + 48) ∷ s) refl)
]

pub sprint-is_empty : (n : ℕ) → is_empty (sprint n) ≡ false
unfolding sprint digits
sprint-is_empty n = elim (Bool-cases (ltb n 10)) [
  | inl e ↦ rw e refl
  | inr e ↦ rw e (digits-is_empty 9 (n / 10) ((n % 10 + 48) ∷ []) refl)
]

-- The number that a text of digits stands for, behind the digits of `n`.
read_digits : ℕ → Bytes → Option ℕ
read_digits n [] = some n
read_digits n (c ∷ s) =
    let rest = read_digits (10 * n + (c - 48)) s in if leb 48 c && leb c 57 then rest else none

-- An int of 64 bits is a number and whether it is negative.
in_range : Bool → Option ℕ → Option (Bool × ℕ)
in_range negative none = none
in_range negative (some n) =
    if ltb n (2 ^ 63) || (negative && n == 2 ^ 63) then some (negative, n) else none

unsigned : Bool → Bytes → Option (Bool × ℕ)
unfolding in_range read_digits
unsigned negative [] = none
unsigned negative (c ∷ s) = in_range negative (read_digits 0 (c ∷ s))

-- `strconv.Atoi`
unfoldable pub atoi : Bytes → Option (Bool × ℕ)
unfolding unsigned
atoi [] = none
atoi (c ∷ s) =
    if c == 43
    then unsigned false s
    else if c == 45
    then unsigned true s
    else unsigned false (c ∷ s)

-- `uint32(n)` of an int.
unfoldable pub to_uint32 : Bool × ℕ → ℕ
to_uint32 (negative, n) = if negative then (2 ^ 32 - n % 2 ^ 32) % 2 ^ 32 else n % 2 ^ 32

read-digits :
    (room n : ℕ) (s : Bytes) → n < 10 ^ room → read_digits 0 (digits room n s) ≡ read_digits n s
unfolding digits read_digits
read-digits zero n s h = let e : n ≡ 0 = omega (arith, h) in rw e refl
read-digits (suc room) n s h = elim (Bool-cases (ltb n 10)) [
  | inl e ↦
      let small = ltb→lt n 10 e in
      let d : 0 + (n % 10 + 48 - 48) ≡ n = omega (arith, small) in
      let lo : leb 48 (n % 10 + 48) ≡ true = ground arith in
      let hi : leb (n % 10 + 48) 57 ≡ true = ground arith in
      rw (e, lo, hi) (ap (λ m. read_digits m s) d)
  | inr e ↦
      let d : 10 * (n / 10) + (n % 10 + 48 - 48) ≡ n = omega arith in
      let lo : leb 48 (n % 10 + 48) ≡ true = ground arith in
      let hi : leb (n % 10 + 48) 57 ≡ true = ground arith in
      rw e (
        read-digits room (n / 10) ((n % 10 + 48) ∷ s) (omega (arith, h, pow-suc 10 room))
        ∙ rw (lo, hi) (ap (λ m. read_digits m s) d))
]

atoi-plain :
    (s : Bytes)
    → is_empty s ≡ false
    → Lacks 43 s
    → Lacks 45 s
    → atoi s ≡ in_range false (read_digits 0 s)
unfolding atoi
atoi-plain [] h p q = absurd (cc)
atoi-plain (c ∷ s) h p q = ground (arith, p.0, q.0)

-- A number of 32 bits is read back from its text.
pub atoi-sprint : (n : ℕ) → n < 2 ^ 32 → atoi (sprint n) ≡ some (false, n)
unfolding sprint in_range read_digits
atoi-sprint n h =
    let r = read-digits 10 n [] (omega (arith, h)) in
    let e =
      atoi-plain (sprint n) (sprint-is_empty n) (sprint-Lacks 43 n (omega arith))
        (sprint-Lacks 45 n (omega arith)) in
    let small : ltb n (2 ^ 63) ≡ true = ground (arith, h) in e ∙ rw (r, small) refl
