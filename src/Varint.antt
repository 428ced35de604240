-- ===== src/Varint.antt =====
-- encoding/binary of Go's standard library, as core/crdt/base.go, merkle/clock/heads.go and
-- db/sequence.go use it: variable-length and big-endian numbers of 64 bits.
use native.Mathlib.Nat.{pow-suc}
use defradg.Prelude.{
  ℕ, zero, suc, ◌+◌, ◌*◌, ◌/◌, ◌%◌, ◌^◌, ◌<◌, ◌≡◌, ◌&&◌, Bytes, [], ◌∷◌, Option, none, some, arith,
  ltb, ltb→lt, lt→ltb, Bool-cases, inl, inr, ap, ◌∙◌, ◌≤◌, false, ◌==◌, if◌then◌else◌,
}

abbrev pub max_varint_len64 : ℕ
max_varint_len64 = 10

-- `PutUvarint` into a buffer with room for `room` bytes.
put_loop : ℕ → ℕ → Bytes
put_loop zero x = []
put_loop (suc room) x =
    let rest = put_loop room (x / 128) in if ltb x 128 then x ∷ [] else (x % 128 + 128) ∷ rest

pub put_uvarint : ℕ → Bytes
unfolding put_loop
put_uvarint x = put_loop max_varint_len64 x

-- `Uvarint`: `none` where it returns a number of bytes that is not positive. `scale` is `1 << s`;
-- the bits that are put into `x` are free there, so that `|` is a sum.
read_loop : Bytes → ℕ → ℕ → ℕ → Option ℕ
read_loop [] i x scale = none
read_loop (b ∷ buf) i x scale =
    let rest = read_loop buf (i + 1) ((x + b % 128 * scale) % 2 ^ 64) (scale * 128) in
    if i == 10
    then none
    else if ltb b 128
    then (if i == 9 && ltb 1 b then none else some ((x + b * scale) % 2 ^ 64))
    else rest

pub uvarint : Bytes → Option ℕ
unfolding read_loop
uvarint buf = read_loop buf 0 0 1

put-small : (k y : ℕ) → y < 128 → put_loop (suc k) y ≡ y ∷ []
unfolding put_loop
put-small k y h = rw (lt→ltb y 128 h)

put-large :
    (k y : ℕ) → ltb y 128 ≡ false → put_loop (suc k) y ≡ (y % 128 + 128) ∷ put_loop k (y / 128)
unfolding put_loop
put-large k y h = rw h

read-last :
    (i x b m : ℕ)
    → i ≤ 9
    → b < 128
    → (i ≡ 9 → b ≤ 1)
    → x + b * m < 2 ^ 64
    → read_loop (b ∷ []) i x m ≡ some (x + b * m)
unfolding read_loop
read-last i x b m hi hb top hx =
    let e : (x + b * m) % 2 ^ 64 ≡ x + b * m = omega arith in rw e (ground arith)

read-more :
    (buf : Bytes) (i x r m : ℕ)
    → i ≤ 8
    → r < 128
    → x + r * m < 2 ^ 64
    → read_loop ((r + 128) ∷ buf) i x m ≡ read_loop buf (i + 1) (x + r * m) (m * 128)
unfolding read_loop
read-more buf i x r m hi hr hx =
    let e : (r + 128) % 128 ≡ r = omega arith in
    let e' : (x + r * m) % 2 ^ 64 ≡ x + r * m = omega arith in rw (e, e') (ground arith)

regroup : (x y q r m : ℕ) → y ≡ q * 128 + r → x + r * m + q * (m * 128) ≡ x + y * m
regroup x y q r m e = rw e (omega arith)

power_bound : (y k : ℕ) → y < 2 * 128 ^ suc k → y / 128 < 2 * 128 ^ k
power_bound y k h = let h' = rw (pow-suc 128 k) at h in omega arith

read-put :
    (k i x y m : ℕ)
    → i + k ≡ 9
    → y < 2 * 128 ^ k
    → x + y * m < 2 ^ 64
    → read_loop (put_loop (suc k) y) i x m ≡ some (x + y * m)
read-put zero i x y m hi hy hx =
    rw (put-small zero y (omega arith))
      (read-last i x y m (omega arith) (omega arith) (λ _. omega arith) hx)
read-put (suc k) i x y m hi hy hx = elim (Bool-cases (ltb y 128)) [
  | inl small ↦
      let b = ltb→lt y 128 small in
      rw (put-small (suc k) y b) (read-last i x y m (omega arith) b (λ e. absurd (omega arith)) hx)
  | inr large ↦
      let e = regroup x y (y / 128) (y % 128) m (omega arith) in
      rw (put-large (suc k) y large) (
        rw
          (read-more (put_loop (suc k) (y / 128)) i x (y % 128) m (omega arith) (omega arith)
            (omega (arith, e)))
          (rw
            (read-put k (i + 1) (x + y % 128 * m) (y / 128) (m * 128) (omega arith)
              (power_bound y k hy) (rw e hx))
            (ap some e)))
]

-- Every number of 64 bits is read back from its bytes.
pub uvarint-put_uvarint : (x : ℕ) → x < 2 ^ 64 → uvarint (put_uvarint x) ≡ some x
unfolding uvarint put_uvarint
uvarint-put_uvarint x h =
    read-put 9 0 0 x 1 (omega arith) (omega arith) (omega arith) ∙ ap some (omega arith)
