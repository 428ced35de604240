-- ===== src/Sequence/Next.antt =====
-- db/sequence.go: the numbers of a sequence follow one another, also from a sequence that is read
-- again.
use defradg.Prelude.{
  ℕ, zero, suc, ◌+◌, ◌*◌, ◌/◌, ◌%◌, ◌^◌, ◌<◌, ◌≡◌, ◌≢◌, refl, ap, Bytes, false, List, [], ◌∷◌, none,
  some, arith, is_empty, bytes_eq_refl, bytes_eq_of_ne, ok,
}
use defradg.Prelude.Exec.{Exec, pure, ◌>>=◌}
use defradg.Keys.{sequence_key_to_string}
use defradg.Store.{Backend, Store, find, insert, lookup_result}
use defradg.Store.Laws.{IsHealthy, get_healthy, put_healthy, find-insert}
use defradg.Sequence.{put_uint64, uint64, Sequence, ds_key, read, update, next, get_sequence}

pub uint64-put_uint64 : (v : ℕ) → v < 2 ^ 64 → uint64 (put_uint64 v) ≡ ok v
unfolding uint64 put_uint64
uint64-put_uint64 v h =
    let e : v / 2 ^ 56 % 256 * 2 ^ 56
          + v / 2 ^ 48 % 256 * 2 ^ 48
          + v / 2 ^ 40 % 256 * 2 ^ 40
          + v / 2 ^ 32 % 256 * 2 ^ 32
          + v / 2 ^ 24 % 256 * 2 ^ 24
          + v / 2 ^ 16 % 256 * 2 ^ 16
          + v / 2 ^ 8 % 256 * 2 ^ 8
          + v % 256
        ≡ v =
      omega arith in
    ap ok e

-- The number that is stored of a sequence.
abbrev pub Stored : Sequence → Store → ℕ → Type 0
Stored seq s v = find (ds_key seq) s ≡ some (put_uint64 v)

pub find_self : (k v : Bytes) (s : Store) → find k (insert k v s) ≡ some v
find_self k v s = rw (find-insert k k v s, bytes_eq_refl k) refl

find_other : (k j v : Bytes) (s : Store) → k ≢ j → find j (insert k v s) ≡ find j s
find_other k j v s n = rw (find-insert k j v s, bytes_eq_of_ne k j n) refl

-- The numbers that follow one, so many of them.
abbrev pub following : ℕ → ℕ → List ℕ
following zero v = []
following (suc k) v = (v + 1) ∷ following k (v + 1)

module _ (b : Backend) (seq : Sequence) (h : IsHealthy b (ds_key seq)) where
  read-Stored :
      (s : Store) (v : ℕ)
      → v < 2 ^ 64
      → Stored seq s v
      → read b seq s ≡ (ok (record seq { val = v }), s)
  unfolding read lookup_result
  read-Stored s v l p = rw (get_healthy b _ s h, p, uint64-put_uint64 v l) refl

  next_works :
      (s : Store) (v : ℕ)
      → v + 1 < 2 ^ 64
      → Stored seq s v
      → next b seq s ≡ (ok (record seq { val = v + 1 }), insert (ds_key seq) (put_uint64 (v + 1)) s)
  unfolding next update
  next_works s v l p =
      let e : (v + 1) % 2 ^ 64 ≡ v + 1 = omega arith in
      rw (read-Stored s v (omega arith) p, e, put_healthy b (ds_key seq) s h (put_uint64 (v + 1)))
        refl

  -- Where the storage works at the key of a sequence and a number of less than 2^64 - 1 is stored,
  -- next gives the number that follows it, and stores it at this key and nothing at another.
  pub next-Stored :
      (s : Store) (v : ℕ)
      → v + 1 < 2 ^ 64
      → Stored seq s v
      → ((next b seq s).0 ≡ ok (record seq { val = v + 1 }))
        × Stored seq (next b seq s).1 (v + 1)
        × ((j : Bytes) → ds_key seq ≢ j → find j (next b seq s).1 ≡ find j s)
  next-Stored s v l p = rw (next_works s v l p) (
    refl,
    find_self (ds_key seq) (put_uint64 (v + 1)) s,
    λ j n. find_other (ds_key seq) j (put_uint64 (v + 1)) s n,
  )

module _ (b : Backend) where
  -- Numbers that are drawn one after another.
  unfoldable pub draw : ℕ → Sequence → Exec Store (List ℕ)
  draw zero seq = pure []
  draw (suc k) seq = do seq' ← next b seq; rest ← draw k seq'; pure (seq'.val ∷ rest)

  draw-Stored :
      (k v w : ℕ) (key : Bytes) (s : Store)
      → IsHealthy b (sequence_key_to_string key)
      → v + k < 2 ^ 64
      → Stored (record { key = key; val = w }) s v
      → (draw k (record { key = key; val = w }) s).0 ≡ ok (following k v)
  unfolding draw
  draw-Stored zero v w key s h l p = refl
  draw-Stored (suc k) v w key s h l p =
      let seq : Sequence = record { key = key; val = w } in
      rw
        (
          next_works b seq h s v (omega arith) p,
          draw-Stored k (v + 1) (v + 1) key
              (insert (sequence_key_to_string key) (put_uint64 (v + 1)) s) h (omega arith)
              (find_self (sequence_key_to_string key) (put_uint64 (v + 1)) s),
        )
        refl

  get_sequence_new :
      (key : Bytes) (s : Store)
      → is_empty key ≡ false
      → IsHealthy b (sequence_key_to_string key)
      → find (sequence_key_to_string key) s ≡ none
      → get_sequence b key s
        ≡ (ok (record { key = key; val = 0 }), insert (sequence_key_to_string key) (put_uint64 0) s)
  unfolding get_sequence read update lookup_result
  get_sequence_new key s n h p =
      rw (n, get_healthy b _ s h, p, put_healthy b (sequence_key_to_string key) s h (put_uint64 0))
        refl

  -- A sequence that is not stored yet, of a key that is not empty, gives out 1, 2, 3 and so on, up to
  -- fewer than 2^64 numbers, where the storage works at its key.
  pub draw-get_sequence :
      (k : ℕ) (key : Bytes) (s : Store)
      → is_empty key ≡ false
      → IsHealthy b (sequence_key_to_string key)
      → k < 2 ^ 64
      → find (sequence_key_to_string key) s ≡ none
      → ((get_sequence b key >>= draw k) s).0 ≡ ok (following k 0)
  draw-get_sequence k key s n h l p = rw (get_sequence_new key s n h p) (
      draw-Stored k 0 0 key (insert (sequence_key_to_string key) (put_uint64 0) s) h (omega arith)
        (find_self (sequence_key_to_string key) (put_uint64 0) s))
