-- ===== src/Memory/Query.antt =====
-- datastore/memory/txn.go, Query: the entries of the datastore, with the operations of a transaction
-- over them.
use defradg.Prelude.{
  ℕ, ◌≡◌, refl, ap, ◌∙◌, Bool, true, false, not, ◌&&◌, List, [], ◌∷◌, ◌++◌, bytes_eq, bytes_le,
  if◌then◌else◌, Result, ok, err, closed_store, txn_discarded,
}
use defradg.Memory.Tree.{Btree}
use defradg.Memory.Item.{DsItem, by_keys}
use defradg.Memory.Datastore
use defradg.Memory.Datastore.{
  DsTxn, by_ds_version, Ds, Entry, set_entry, last_of_runs, live_entries,
}
use defradg.Memory.Txn.{Txn, new_transaction}

-- An operation on a key that the datastore does not have is an entry if it is a put.
abbrev op_entry : Bool → DsItem → List Entry
op_entry keys_only o =
    if not o.is_deleted && not o.is_get then set_entry o.key o.val keys_only ∷ [] else []

-- The operations up to the key of an item: the entries before it, the item that is then shown at the
-- key, and the operations that are left.
unfoldable pub take_ops : Bool → DsItem → List DsItem → List Entry × DsItem × List DsItem
take_ops keys_only item [] = ([], item, [])
take_ops keys_only item (o ∷ ops) = elim (bytes_le o.key item.key) [
  | false ↦ ([], item, o ∷ ops)
  | true ↦ elim (bytes_eq o.key item.key) [
    | true ↦ take_ops keys_only o ops
    | false ↦
        let (re, item', left) = take_ops keys_only item ops in
        (op_entry keys_only o ++ re, item', left)
  ]
]

-- The loops of Query: over the items of the datastore, the last of each key, and then over the
-- operations that are left.
unfoldable pub with_ops : Bool → List DsItem → List DsItem → List Entry
with_ops keys_only [] [] = []
with_ops keys_only [] (o ∷ ops) = op_entry keys_only o ++ with_ops keys_only [] ops
with_ops keys_only (x ∷ xs) ops =
    let (re, item, left) = take_ops keys_only x ops in
    let rest = with_ops keys_only xs left in
    re ++ (if item.is_deleted then rest else set_entry item.key item.val keys_only ∷ rest)

module _ (items : Btree DsItem by_keys) (txns : Btree DsTxn by_ds_version) where
  unfoldable pub query : Txn items → Ds items txns → Bool → Result (List Entry)
  query t d keys_only =
      if d.closed
      then err closed_store
      else if t.discarded
      then err txn_discarded
      else ok (with_ops keys_only (last_of_runs (items.items d.values)) (items.items t.ops))

  with_ops-nil :
      (keys_only : Bool) (xs : List DsItem) → with_ops keys_only xs [] ≡ live_entries keys_only xs
  unfolding with_ops take_ops live_entries
  with_ops-nil keys_only [] = refl
  with_ops-nil keys_only (x ∷ xs) = rw (with_ops-nil keys_only xs) refl

  -- The Query of a transaction that has just begun gives what the Query of the datastore gives, the
  -- error of a datastore that is closed too.
  pub query-new_transaction :
      (d : Ds items txns) (read_only keys_only : Bool) (now id : ℕ)
      → query (new_transaction items txns d read_only now id).0 d keys_only
        ≡ Datastore.query items txns d keys_only
  unfolding query new_transaction Datastore.query
  query-new_transaction d read_only keys_only now id =
      ap (λ es. if d.closed then err closed_store else ok es)
        (ap (with_ops keys_only (last_of_runs (items.items d.values))) items.items-empty
          ∙ with_ops-nil keys_only (last_of_runs (items.items d.values)))
