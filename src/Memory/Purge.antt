-- ===== src/Memory/Purge.antt =====
-- datastore/memory/memory.go, executePurge: the versions that no transaction reads any more go.
use defradg.Prelude.{
  ℕ, zero, suc, true, List, [], ◌∷◌, ltb, leb, bytes_eq, is_empty, length, if◌then◌else◌, Result,
  ok, err, closed_store,
}
use defradg.Memory.Tree.{Btree}
use defradg.Memory.Item.{DsItem, by_keys}
use defradg.Memory.Datastore.{DsTxn, by_ds_version, Ds}

-- The loop over the items behind the first one: of each key, the items up to the version but for the
-- last of them, until there are a thousand.
unfoldable pub items_to_delete : ℕ → DsItem → List DsItem → ℕ → List DsItem
items_to_delete v item [] total = []
items_to_delete v item (x ∷ xs) total =
    let rest = items_to_delete v x xs total in
    let rest' = items_to_delete v x xs (suc total) in
    let skipped = items_to_delete v item xs total in
    if ltb v x.version
    then skipped
    else if bytes_eq item.key x.key
    then item ∷ (if leb 1000 (suc total) then [] else rest')
    else if leb 1000 total
    then []
    else rest

abbrev pub round_of : ℕ → List DsItem → List DsItem
round_of v [] = []
round_of v (item ∷ rest) = items_to_delete v item rest 0

module _ (items : Btree DsItem by_keys) (txns : Btree DsTxn by_ds_version) where
  unfoldable pub delete_items : List DsItem → items.Tree → items.Tree
  delete_items [] t = t
  delete_items (x ∷ xs) t = delete_items xs (items.delete t x)

  -- The rounds of the loop; a round that finds nothing is the last.
  unfoldable pub purge_rounds : ℕ → ℕ → items.Tree → items.Tree
  purge_rounds zero v t = t
  purge_rounds (suc fuel) v t =
      let old = round_of v (items.items t) in
      let rest = purge_rounds fuel v (delete_items old t) in if is_empty old then t else rest

  -- `d.inFlightTxn.Min()`
  abbrev pub min_version : ℕ → List DsTxn → ℕ
  min_version v [] = v
  min_version v (t ∷ ts) = t.ds_version

  -- The version that is purged below.
  unfoldable pub purge_version : Ds items txns → ℕ
  purge_version d = min_version d.version (txns.items d.in_flight_txn)

  unfoldable pub execute_purge : Ds items txns → Ds items txns
  execute_purge d = record d {
    values = purge_rounds (suc (length (items.items d.values))) (purge_version d) d.values;
  }

  abbrev txns_of : List DsTxn → List ℕ
  txns_of [] = []
  txns_of (t ∷ ts) = t.txn ∷ txns_of ts

  -- Close, with the transactions that it closes.
  unfoldable close : Ds items txns → Result (List ℕ) × Ds items txns
  close d =
      if d.closed
      then (err closed_store, d)
      else (ok (txns_of (txns.items d.in_flight_txn)), record d { closed = true })
