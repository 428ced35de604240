-- ===== src/Sequence.antt =====
-- db/sequence.go: numbers that are given out one after another and kept in the system store, and the
-- eight bytes of encoding/binary's BigEndian that they are kept as.
pub mod Next
pub mod Tests
use defradg.Prelude.{
  ℕ, suc, ◌+◌, ◌*◌, ◌/◌, ◌%◌, ◌^◌, Bytes, List, [], ◌∷◌, Option, none, some, Result, ok, err, panic,
  empty_key, is_empty, is_not_found, if◌then◌else◌,
}
use defradg.Prelude.Exec.{Exec, pure, raise, attempt, ◌>>=◌, ◌>>◌}
use defradg.Keys.{sequence_key_to_string}
use defradg.Store.{Backend, Store, get, put}

-- `BigEndian.PutUint64`
unfoldable pub put_uint64 : ℕ → Bytes
put_uint64 v =
    v / 2 ^ 56 % 256
    ∷ v / 2 ^ 48 % 256
    ∷ v / 2 ^ 40 % 256
    ∷ v / 2 ^ 32 % 256
    ∷ v / 2 ^ 24 % 256
    ∷ v / 2 ^ 16 % 256
    ∷ v / 2 ^ 8 % 256
    ∷ v % 256
    ∷ []

-- `BigEndian.Uint64`, of the first eight bytes; with fewer it panics.
unfoldable pub uint64 : Bytes → Result ℕ
uint64 (a ∷ b ∷ c ∷ d ∷ e ∷ f ∷ g ∷ h ∷ rest) =
    ok (a * 2 ^ 56 + b * 2 ^ 48 + c * 2 ^ 40 + d * 2 ^ 32 + e * 2 ^ 24 + f * 2 ^ 16 + g * 2 ^ 8 + h)
uint64 _ = err panic

-- `key` is the id in the SequenceKey.
pub record Sequence : Type 0 where
  pub key : Bytes
  pub val : ℕ

abbrev pub ds_key : Sequence → Bytes
ds_key seq = sequence_key_to_string seq.key

module _ (b : Backend) where
  -- The number that is stored, and the sequence that now has it.
  unfoldable pub read : Sequence → Exec Store Sequence
  read seq = do
    val ← get b (ds_key seq)
    num ← λ s. (uint64 val, s)
    pure (record seq { val = num })

  unfoldable pub update : Sequence → Exec Store (Unit {0})
  update seq = put b (ds_key seq) (put_uint64 seq.val)

  -- The next number is the value of the sequence that comes back.
  unfoldable pub next : Sequence → Exec Store Sequence
  next seq = do
    seq' ← read seq
    let after : Sequence = record seq' { val = (seq'.val + 1) % 2 ^ 64 }
    update after
    pure after

  -- What `getSequence` does with the result of `get`: a sequence that is not stored is stored.
  abbrev stored : Sequence → Result Sequence → Exec Store Sequence
  stored seq (ok seq') = pure seq'
  stored seq (err e) = if is_not_found e then (do update seq; pure seq) else raise e

  unfoldable pub get_sequence : Bytes → Exec Store Sequence
  get_sequence key = if is_empty key then raise empty_key else do
    let seq : Sequence = record { key = key; val = 0 }
    found ← attempt (read seq)
    stored seq found
