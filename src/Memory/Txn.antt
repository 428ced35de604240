-- ===== src/Memory/Txn.antt =====
-- datastore/memory/txn.go, and the commit of memory.go: transactions over a snapshot, which fail if
-- what they touched has changed. `new_key` is go-datastore's `NewKey`, as the text of the key.
use defradg.Prelude.{
  ℕ, ◌+◌, Bytes, Bool, true, false, not, ◌||◌, List, [], ◌∷◌, ◌==◌, if◌then◌else◌, is_empty, length,
  Result, ok, err, not_found, closed_store, txn_discarded, read_only_txn, txn_conflict,
}
use defradg.Memory.Tree.{Btree}
use defradg.Memory.Item.{DsItem, by_keys, pivot, found}
use defradg.Memory.Datastore.{
  DsTxn, by_ds_version, Ds, value_of, ds_get, next_version, clear_old_in_flight_txn,
}

pub record BasicTxn (Items : Type 0) : Type 0 where
  pub ops : Items
  pub ds_version : ℕ
  pub read_only : Bool
  pub discarded : Bool
  pub closed : Bool

-- The writes at the end of a commit: every item that is no read, at the new version.
abbrev pub at_version : ℕ → DsItem → DsItem
at_version v i = record i { version = v }

module _ (items : Btree DsItem by_keys) where
  abbrev pub Txn : Type 0
  Txn = BasicTxn items.Tree

  unfoldable pub get_txn_version : Txn → ℕ
  get_txn_version t = t.ds_version + 1

  -- The item of a key among the operations, or an item with no key.
  unfoldable pub own_item : Txn → Bytes → DsItem
  unfolding get_txn_version
  own_item t key = found key (items.descend t.ops (pivot key (get_txn_version t)))

  abbrev pub guard_txn : {A : Type 0} → Txn → Result A × Txn → Result A × Txn
  guard_txn t rest =
      if t.closed
      then (err closed_store, t)
      else if t.discarded
      then (err txn_discarded, t)
      else rest

  -- The close that a Close of the datastore calls.
  unfoldable close : Txn → Txn
  close t = record t { closed = true }

  unfoldable pub put : Txn → Bytes → Bytes → Result (Unit {0}) × Txn
  unfolding get_txn_version
  put t key value = guard_txn t (
      if t.read_only then (err read_only_txn, t) else (
        ok tt,
        record t {
          ops = items.set t.ops (record {
            key = key;
            version = get_txn_version t;
            val = value;
            is_deleted = false;
            is_get = false;
          });
        },
      ))

  unfoldable pub write_items : ℕ → List DsItem → items.Tree → items.Tree
  write_items v [] values = values
  write_items v (i ∷ is) values =
      write_items v is (if i.is_get then values else items.set values (at_version v i))

module _ (items : Btree DsItem by_keys) (txns : Btree DsTxn by_ds_version) where
  abbrev Tx : Type 0
  Tx = Txn items

  abbrev Store : Type 0
  Store = Ds items txns

  -- The transaction, registered as in flight under its versions.
  unfoldable pub new_transaction : Store → Bool → ℕ → ℕ → Tx × Store
  new_transaction d read_only now id = (
    record {
      ops = items.empty;
      ds_version = d.version;
      read_only = read_only;
      discarded = false;
      closed = false;
    },
    record d {
      in_flight_txn = txns.set d.in_flight_txn (record {
        ds_version = d.version;
        txn_version = d.version + 1;
        expires_at = now + 3600;
        txn = id;
      });
    },
  )

  -- An item of the transaction, or else of its snapshot, which is kept among the operations.
  unfoldable pub txn_get : Tx → Store → Bytes → DsItem × Tx
  txn_get t d key =
      let own = own_item items t key in
      let read = record (ds_get items txns d key t.ds_version) { is_get = true } in
      if is_empty own.key then (read, record t { ops = items.set t.ops read }) else (own, t)

  unfoldable pub get : Tx → Store → Bytes → Result Bytes × Tx
  get t d key = guard_txn items t (let (i, t') = txn_get t d key in (value_of i, t'))

  unfoldable pub get_size : Tx → Store → Bytes → Result ℕ × Tx
  get_size t d key = guard_txn items t (
      let (i, t') = txn_get t d key in
      (if is_empty i.key || i.is_deleted then err not_found else ok (length i.val), t'))

  -- This method looks at whether the datastore is closed.
  unfoldable pub has : Tx → Store → Bytes → Result Bool × Tx
  has t d key =
      if d.closed
      then (err closed_store, t)
      else if t.discarded
      then (err txn_discarded, t)
      else (let (i, t') = txn_get t d key in
          (if is_empty i.key || i.is_deleted then ok false else ok true, t'))

  unfoldable pub delete : Tx → Store → Bytes → Result (Unit {0}) × Tx
  unfolding get_txn_version
  delete t d key = guard_txn items t (
      if t.read_only
      then (err read_only_txn, t)
      else (let (i, t') = txn_get t d key in
          if is_empty i.key || i.is_deleted then (ok tt, t') else (
            ok tt,
            record t' {
              ops = items.set t'.ops (record {
                key = key;
                version = get_txn_version items t;
                val = [];
                is_deleted = true;
                is_get = false;
              });
            },
          )))

  -- The transaction is taken out of the register, and what has expired there with it.
  unfoldable pub discard : Tx → Store → ℕ → Tx × Store
  unfolding get_txn_version
  discard t d now = if t.discarded then (t, d) else (
    record t { ops = items.empty; discarded = true },
    record d {
      in_flight_txn = clear_old_in_flight_txn items txns now (
          txns.delete d.in_flight_txn (record {
            ds_version = t.ds_version;
            txn_version = get_txn_version items t;
            expires_at = 0;
            txn = 0;
          }));
    },
  )

module _ (items : Btree DsItem by_keys) (txns : Btree DsTxn by_ds_version)
    (new_key : Bytes → Bytes) where
  -- Whether one of the items has another newest version now than at the start.
  unfoldable pub conflicts : Ds items txns → ℕ → List DsItem → Bool
  conflicts d start [] = false
  conflicts d start (i ∷ is) =
      let expected = ds_get items txns d (new_key i.key) start in
      let latest = ds_get items txns d (new_key i.key) d.version in
      not (latest.version == expected.version) || conflicts d start is

  unfoldable pub check_for_conflicts : Txn items → Ds items txns → Result (Unit {0})
  check_for_conflicts t d =
      if t.ds_version == d.version
      then ok tt
      else if conflicts d t.ds_version (items.items t.ops)
      then err txn_conflict
      else ok tt

  unfoldable pub commit_to : Ds items txns → Txn items → Result (Unit {0}) × Ds items txns
  commit_to d t = elim (check_for_conflicts t d) [
    | err e ↦ (err e, d)
    | ok _ ↦ (
      ok tt,
      record d {
        version = next_version items txns d.version;
        values = write_items items (next_version items txns d.version) (items.items t.ops) d.values;
      },
    )
  ]

  abbrev finish :
      Txn items
      → ℕ
      → Result (Unit {0}) × Ds items txns
      → Result (Unit {0}) × Txn items × Ds items txns
  finish t now (r, d) = let (t', d') = discard items txns t d now in (r, t', d')

  unfoldable pub commit :
      Txn items → Ds items txns → ℕ → Result (Unit {0}) × Txn items × Ds items txns
  commit t d now =
      if t.closed
      then (err closed_store, t, d)
      else if t.discarded
      then (err txn_discarded, t, d)
      else if t.read_only
      then finish t now (ok tt, d)
      else finish t now (commit_to d t)
