-- ===== src/Memory/WriteTests.antt =====
-- datastore/memory: writes that are committed at once, a query, and transactions that expire, over
-- sorted lists, and the theorems of these there.
use defradg.Prelude.{
  ◌≡◌, refl, Bytes, codes, List, [], ◌∷◌, Option, none, some, arith, ok, if◌then◌else◌, bytes_eq,
  is_empty, true,
}
use defradg.Memory.Datastore
use defradg.Memory.Datastore.{Ds, ds_get, expired, clear_old_in_flight_txn}
use defradg.Memory.InFlight.{alive, items-clear_old}
use defradg.Memory.Tests.{items, txns, same_key, start}
use defradg.Memory.Auto
use defradg.Memory.Auto.{get-put_auto}
use defradg.Memory.Batch.{batch_commit, last_op, after_op, get-batch_commit}
use defradg.Memory.Purge.{round_of, purge_version, execute_purge}
use defradg.Memory.PurgeEnds.{execute_purge-keeps}

get-put_auto_example :
    ((Auto.put items txns same_key start (codes "/a") (codes "x") 5 1).0 ≡ ok tt)
    × (Datastore.get items txns
          (Auto.put items txns same_key start (codes "/a") (codes "x") 5 1).1
          (codes "/b")
        ≡ (if bytes_eq (codes "/a") (codes "/b")
            then ok (codes "x")
            else Datastore.get items txns start (codes "/b")))
get-put_auto_example =
    get-put_auto items txns same_key start (codes "/a") (codes "/b") (codes "x") 5 1
      (record { current = tt }) refl (omega arith) refl

abbrev ops : List (Bytes × Option Bytes)
ops = (codes "/a", some (codes "x")) ∷ (codes "/b", none) ∷ []

get-batch_commit_example :
    Datastore.get items txns (batch_commit items txns start ops) (codes "/a")
    ≡ after_op (last_op (codes "/a") ops) (Datastore.get items txns start (codes "/a"))
get-batch_commit_example =
    get-batch_commit items txns same_key start ops (codes "/a") (record { current = tt }) refl
      (omega arith) refl

-- A datastore with one entry.
abbrev one : Ds items txns
one = batch_commit items txns start ((codes "/a", some (codes "x")) ∷ [])

-- Two transactions in flight, of which the first expires.
abbrev register : txns.Tree
register =
    txns.set
      (txns.set txns.empty (record { ds_version = 1; txn_version = 2; expires_at = 5; txn = 1 }))
      (record { ds_version = 2; txn_version = 3; expires_at = 50; txn = 2 })

items-clear_old_example :
    (txns.items (clear_old_in_flight_txn items txns 10 register) ≡ alive 10 (txns.items register))
    × (expired 10 (txns.items (clear_old_in_flight_txn items txns 10 register)) ≡ [])
items-clear_old_example = items-clear_old items txns 10 register

-- The same entry again, so that its first version can go.
abbrev two : Ds items txns
two = batch_commit items txns one ((codes "/a", some (codes "y")) ∷ [])

purge_version-two : purge_version items txns two ≡ 2
unfolding purge_version batch_commit Datastore.next_version
purge_version-two = refl

execute_purge-keeps_example :
    (ds_get items txns (execute_purge items txns two) (codes "/a") 2
      ≡ ds_get items txns two (codes "/a") 2)
    × (is_empty (
          round_of
            (purge_version items txns two)
            (items.items (execute_purge items txns two).values))
        ≡ true)
execute_purge-keeps_example =
    execute_purge-keeps items txns two (codes "/a") 2 (omega (arith, purge_version-two))
