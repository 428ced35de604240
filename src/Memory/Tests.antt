-- ===== src/Memory/Tests.antt =====
-- datastore/memory: runs of the datastore over sorted lists, and the theorems of Memory at them.
use defradg.Prelude.{
  ◌+◌, ◌≡◌, ◌≢◌, ◌↔◌, refl, Bytes, codes, true, false, arith, ok, err, txn_conflict,
}
use defradg.Memory.Tree.{Btree}
use defradg.Memory.Item.{DsItem, by_keys, by_keys_trans, by_keys_same}
use defradg.Memory.Model.{IsOrder, sorted_tree}
use defradg.Memory.Datastore
use defradg.Memory.Datastore.{DsTxn, by_ds_version, Ds, new_datastore, ds_get, next_version}
use defradg.Memory.Txn
use defradg.Memory.Txn.{
  Txn, BasicTxn, new_transaction, commit_to, check_for_conflicts, own_item, get_txn_version,
}
use defradg.Memory.Snapshot.{get-commit_to}
use defradg.Memory.Commit.{
  IsCurrent, last_write, over_item, touches, commit_to-applies, check_for_conflicts_iff,
}

pub by_keys-IsOrder : IsOrder by_keys
by_keys-IsOrder = record { trans = by_keys_trans; same_left = by_keys_same }

pub by_ds_version-IsOrder : IsOrder by_ds_version
by_ds_version-IsOrder = record {
  trans = λ x y z h j. ground arith;
  same_left = λ x y z h j l. ground arith;
}

abbrev pub items : Btree DsItem by_keys
items = sorted_tree by_keys by_keys-IsOrder

abbrev pub txns : Btree DsTxn by_ds_version
txns = sorted_tree by_ds_version by_ds_version-IsOrder

abbrev pub same_key : Bytes → Bytes
same_key k = k

-- An empty datastore, and a transaction of it that writes one key.
abbrev pub start : Ds items txns
start = record { version = 0; values = items.empty; in_flight_txn = txns.empty; closed = false }

abbrev fresh : Txn items
fresh = record {
  ops = items.empty;
  ds_version = 0;
  read_only = false;
  discarded = false;
  closed = false;
}

abbrev writer : Txn items
writer = record {
  ops = items.set items.empty (record {
    key = codes "/a";
    version = 1;
    val = codes "x";
    is_deleted = false;
    is_get = false;
  });
  ds_version = 0;
  read_only = false;
  discarded = false;
  closed = false;
}

abbrev later : Ds items txns
later = (commit_to items txns same_key start writer).1

written : Datastore.get items txns later (codes "/a") ≡ ok (codes "x")
unfolding commit_to check_for_conflicts Txn.write_items next_version Datastore.get ds_get
written = refl

-- The second of two transactions that write one key at one version fails.
second_fails : (commit_to items txns same_key later writer).0 ≡ err txn_conflict
unfolding commit_to check_for_conflicts Txn.conflicts Txn.write_items next_version ds_get
second_fails = refl

get-commit_to_example :
    Txn.get items txns fresh later (codes "/a") ≡ Txn.get items txns fresh start (codes "/a")
get-commit_to_example =
    get-commit_to items txns same_key start fresh writer (codes "/a") (omega arith) (omega arith)

free : check_for_conflicts items txns same_key writer start ≡ ok tt
unfolding check_for_conflicts
free = refl

commit_to-applies_example :
    ((commit_to items txns same_key start writer).0 ≡ ok tt)
    × (later.version ≡ start.version + 1)
    × IsCurrent items txns same_key later
    × ((k : Bytes)
        → ds_get items txns later k later.version
          ≡ over_item
              (last_write k (items.items writer.ops))
              later.version
              (ds_get items txns start k start.version))
commit_to-applies_example =
    commit_to-applies items txns same_key start writer (record { current = tt }) (omega arith) free

check_for_conflicts_iff_example :
    ((check_for_conflicts items txns same_key writer later ≡ ok tt) ↔ (
      (k : Bytes)
      → touches k (items.items writer.ops) ≡ true
      → (ds_get items txns later (same_key k) later.version).version
        ≡ (ds_get items txns later (same_key k) writer.ds_version).version))
    × (check_for_conflicts items txns same_key writer later ≢ ok tt
        → commit_to items txns same_key later writer ≡ (err txn_conflict, later))
check_for_conflicts_iff_example = check_for_conflicts_iff items txns same_key later writer
