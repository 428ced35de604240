-- ===== src/Memory/Datastore.antt =====
-- datastore/memory/memory.go: the state of the datastore, its reads, and its register of
-- transactions in flight.
use defradg.Prelude.{
  ℕ, zero, suc, ◌+◌, ◌%◌, ◌^◌, Bytes, Bool, false, not, ◌&&◌, ◌||◌, List, [], ◌∷◌, Option, none,
  some, ltb, ◌==◌, if◌then◌else◌, bytes_eq, is_empty, length, Result, ok, err, not_found,
  closed_store,
}
use defradg.Memory.Tree.{Btree}
use defradg.Memory.Item.{DsItem, by_keys, pivot, found}

-- A transaction in flight; `txn` says which one it is. Times are in seconds.
pub record DsTxn : Type 0 where
  pub ds_version : ℕ
  pub txn_version : ℕ
  pub expires_at : ℕ
  pub txn : ℕ

abbrev pub by_ds_version : DsTxn → DsTxn → Bool
by_ds_version a b =
    ltb a.ds_version b.ds_version
    || (a.ds_version == b.ds_version && ltb a.txn_version b.txn_version)

pub record Datastore (Items Txns : Type 0) : Type 0 where
  pub version : ℕ
  pub values : Items
  pub in_flight_txn : Txns
  pub closed : Bool

-- An entry of a query's result; the value is left out where only keys are asked for.
pub record Entry : Type 0 where
  pub key : Bytes
  pub size : ℕ
  pub value : Option Bytes

unfoldable pub set_entry : Bytes → Bytes → Bool → Entry
set_entry key value keys_only = record {
  key = key;
  size = length value;
  value = if keys_only then none else some value;
}

-- The value that an item stands for: none if it is absent or deleted.
abbrev pub value_of : DsItem → Result Bytes
value_of i = if is_empty i.key || i.is_deleted then err not_found else ok i.val

-- Of items in ascending order, the last of each key.
unfoldable pub last_of_runs : List DsItem → List DsItem
last_of_runs [] = []
last_of_runs (x ∷ []) = x ∷ []
last_of_runs (x ∷ y ∷ r) =
    let rest = last_of_runs (y ∷ r) in if bytes_eq x.key y.key then rest else x ∷ rest

unfoldable pub live_entries : Bool → List DsItem → List Entry
live_entries keys_only [] = []
live_entries keys_only (x ∷ xs) =
    let rest = live_entries keys_only xs in
    if x.is_deleted then rest else set_entry x.key x.val keys_only ∷ rest

-- The entries that have expired.
unfoldable pub expired : ℕ → List DsTxn → List DsTxn
expired now [] = []
expired now (t ∷ ts) = let rest = expired now ts in if ltb t.expires_at now then t ∷ rest else rest

module _ (items : Btree DsItem by_keys) (txns : Btree DsTxn by_ds_version) where
  abbrev pub Ds : Type 0
  Ds = Datastore items.Tree txns.Tree

  unfoldable pub new_datastore : Ds
  new_datastore = record {
    version = 0;
    values = items.empty;
    in_flight_txn = txns.empty;
    closed = false;
  }

  unfoldable pub next_version : ℕ → ℕ
  next_version v = (v + 1) % 2 ^ 64

  -- The item of a key at a version, or an item with no key.
  unfoldable pub ds_get : Ds → Bytes → ℕ → DsItem
  ds_get d key version = found key (items.descend d.values (pivot key version))

  unfoldable pub get : Ds → Bytes → Result Bytes
  get d key = if d.closed then err closed_store else value_of (ds_get d key d.version)

  unfoldable pub get_size : Ds → Bytes → Result ℕ
  get_size d key =
      if d.closed
      then err closed_store
      else (let i = ds_get d key d.version in
          if is_empty i.key || i.is_deleted then err not_found else ok (length i.val))

  unfoldable pub has : Ds → Bytes → Result Bool
  has d key =
      if d.closed
      then err closed_store
      else (let i = ds_get d key d.version in ok (not (is_empty i.key) && not i.is_deleted))

  -- The entries that are handed to go-datastore's `NaiveQueryApply`.
  unfoldable pub query : Ds → Bool → Result (List Entry)
  query d keys_only =
      if d.closed
      then err closed_store
      else ok (live_entries keys_only (last_of_runs (items.items d.values)))

  unfoldable pub delete_txns : List DsTxn → txns.Tree → txns.Tree
  delete_txns [] t = t
  delete_txns (x ∷ xs) t = delete_txns xs (txns.delete t x)

  -- The rounds of `clearOldInFlightTxn`; a round that finds nothing is the last.
  unfoldable pub clear_rounds : ℕ → ℕ → txns.Tree → txns.Tree
  clear_rounds zero now t = t
  clear_rounds (suc fuel) now t =
      let old = expired now (txns.items t) in
      let rest = clear_rounds fuel now (delete_txns old t) in if is_empty old then t else rest

  unfoldable pub clear_old_in_flight_txn : ℕ → txns.Tree → txns.Tree
  unfolding clear_rounds
  clear_old_in_flight_txn now t = clear_rounds (length (txns.items t) + 1) now t
