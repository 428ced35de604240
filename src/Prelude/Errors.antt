-- ===== src/Prelude/Errors.antt =====
-- Errors as values. The constructors are the sentinel errors and the wrappers of the Go packages.
use mathlib.Core.Bool.{Bool, true, false}
use mathlib.Core.Path.{◌≡◌, refl}
use mathlib.Core.Logic.{◌⊎◌, inl, inr}

pub data Error : Type 0 where
  -- a failure of the storage below, and go-datastore's ErrNotFound
  io_failure not_found : Error
  -- a nil dereference, or an index out of range
  panic : Error
  -- core/errors.go
  empty_key invalid_key : Error
  -- an error of a library's decoder
  bad_cid : Error
  -- core/crdt/errors.go
  mismatched_merge_type encoding_priority decoding_priority : Error
  -- datastore/memory/errors.go
  read_only_txn txn_discarded txn_conflict closed_store : Error
  -- connor, and time.Parse
  unhandled_type unknown_operator bad_time : Error
  -- merkle/clock/errors.go
  decoding_height : Error
  adding_head checking_head replacing_head could_not_find_block merging_delta : Error → Error
  failed_to_get_next_q_result : Error → Error
  -- events/errors.go
  subscribed_to_closed_chan : Error
  failed_to_get_priority failed_to_store_value : Error → Error
  getting_heads creating_block writing_block : Error → Error
  -- db/base/errors.go, and merkle/crdt/errors.go
  invalid_crdt_type factory_type_no_exist : Error
  -- client/errors.go, and db/fetcher/errors.go
  uninitialized_property unexpected_type field_id_not_found : Error
  failed_to_get_field_id : Error
  -- go-ipld-format's ErrNotFound, and datastore/errors.go
  block_not_found hash_mismatch : Error

pub data Result {ℓ} (A : Type ℓ) : Type ℓ where
  err : Error → Result A
  ok : A → Result A

-- `errors.Is(err, ds.ErrNotFound)`
abbrev pub is_not_found : Error → Bool
is_not_found not_found = true
is_not_found _ = false

pub Result-cases {ℓ} :
    {A : Type ℓ} (r : Result A) → ((e : Error) × (r ≡ err e)) ⊎ ((a : A) × (r ≡ ok a))
Result-cases (err e) = inl (e, refl)
Result-cases (ok a) = inr (a, refl)

-- The rest of a method runs where the call before it has returned no error.
abbrev then {ℓ κ} : {A : Type ℓ} {B : Type κ} → (A → Result B) → Result A → Result B
then f (err e) = err e
then f (ok a) = f a

infixl 5 ◌>>=◌ ◌>>◌
abbrev pub ◌>>=◌ {ℓ κ} : {A : Type ℓ} {B : Type κ} → Result A → (A → Result B) → Result B
r >>= f = then f r

abbrev pub ◌>>◌ {κ} : {B : Type κ} → Result (Unit {0}) → Result B → Result B
r >> s = then (λ _. s) r
