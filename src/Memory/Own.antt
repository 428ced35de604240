-- ===== src/Memory/Own.antt =====
-- datastore/memory/txn.go: a transaction reads its own writes, and a read of an absent key leaves
-- nothing that tells which key it was.
use defradg.Prelude.{
  ◌+◌, ◌≡◌, refl, sym, ap, ◌∙◌, Bytes, Bool, true, false, arith, if◌then◌else◌, bytes_eq,
  bytes_eq_iff, bytes_eq_refl, Bool-cases, inl, inr, is_empty, Result, ok,
}
use defradg.Memory.Tree.{Btree}
use defradg.Memory.Item.{
  DsItem, by_keys, pivot, newest, or_empty, found-last_upto, newest-set_other, newest-set_self,
}
use defradg.Memory.Datastore.{DsTxn, by_ds_version, Ds, value_of, ds_get}
use defradg.Memory.Snapshot.{UpTo, NotNewer-of_UpTo}
use defradg.Memory.Txn
use defradg.Memory.Txn.{get_txn_version, own_item}

module _ (items : Btree DsItem by_keys) (txns : Btree DsTxn by_ds_version) where
  -- The items of a transaction are not newer than its own writes.
  pub record IsOwn (t : Txn.Txn items) : Type 0 where
    pub bounded : UpTo (t.ds_version + 1) (items.items t.ops)

  own-eq-newest :
      (t : Txn.Txn items) (k : Bytes)
      → own_item items t k ≡ or_empty (newest k (t.ds_version + 1) (items.items t.ops))
  unfolding own_item get_txn_version
  own-eq-newest t k =
      rw (items.descend_lem t.ops (pivot k (t.ds_version + 1)))
        (found-last_upto k (t.ds_version + 1) (items.items t.ops) (items.items_sorted t.ops))

  abbrev pub written : Txn.Txn items → Bytes → Bytes → DsItem
  written t k v = record {
    key = k;
    version = t.ds_version + 1;
    val = v;
    is_deleted = false;
    is_get = false;
  }

  own-put :
      (t : Txn.Txn items) (k j v : Bytes)
      → IsOwn t
      → own_item items (record t { ops = items.set t.ops (written t k v) }) j
        ≡ (if bytes_eq k j then written t k v else own_item items t j)
  own-put t k j v h =
      own-eq-newest (record t { ops = items.set t.ops (written t k v) }) j
      ∙ elim (Bool-cases (bytes_eq k j)) [
        | inl e ↦ rw e (
            rw (items.items-set t.ops (written t k v)) (
              rw (← (bytes_eq_iff k j).0 e) (
                ap or_empty (
                  newest-set_self (written t k v) (t.ds_version + 1) (items.items t.ops)
                    (ground (arith, bytes_eq_refl k)) (items.items_sorted t.ops)
                    (NotNewer-of_UpTo (written t k v) (items.items t.ops) h.bounded)))))
        | inr e ↦ rw e (
            rw (items.items-set t.ops (written t k v)) (
              ap or_empty (
                newest-set_other j (t.ds_version + 1) (written t k v) (items.items t.ops)
                  (ground (arith, bytes_eq_iff k j, bytes_eq_iff j k)))
              ∙ sym (own-eq-newest t j)))
      ]

  -- What a read returns: from the transaction's own item, or else from the snapshot.
  abbrev shown : DsItem → DsItem → Result Bytes
  shown mine snapshot =
      value_of (if is_empty mine.key then record snapshot { is_get = true } else mine)

  get-shown :
      (t : Txn.Txn items) (d : Ds items txns) (k : Bytes)
      → t.closed ≡ false
      → t.discarded ≡ false
      → (Txn.get items txns t d k).0
        ≡ shown (own_item items t k) (ds_get items txns d k t.ds_version)
  unfolding Txn.get Txn.txn_get
  get-shown t d k c e = ground (arith, c, e)

  put_open :
      (t : Txn.Txn items) (k v : Bytes)
      → t.closed ≡ false
      → t.discarded ≡ false
      → t.read_only ≡ false
      → Txn.put items t k v ≡ (ok tt, record t { ops = items.set t.ops (written t k v) })
  unfolding Txn.put get_txn_version
  put_open t k v c e r = ground (arith, c, e, r)

  pick :
      (b : Bool) (t : Txn.Txn items) (k v : Bytes) (mine snapshot : DsItem)
      → is_empty k ≡ false
      → shown (if b then written t k v else mine) snapshot
        ≡ (if b then ok v else shown mine snapshot)
  pick true t k v mine snapshot full = rw full (rw full)
  pick false t k v mine snapshot full = refl

  -- After a put of a key that is not empty, a transaction that is open and may write, and that holds
  -- no item newer than its writes, reads the value under the key, and under another key it reads what
  -- it read before.
  pub get-put :
      (t : Txn.Txn items) (d : Ds items txns) (k j v : Bytes)
      → IsOwn t
      → t.closed ≡ false
      → t.discarded ≡ false
      → t.read_only ≡ false
      → is_empty k ≡ false
      → ((Txn.put items t k v).0 ≡ ok tt)
        × ((Txn.get items txns (Txn.put items t k v).1 d j).0
            ≡ (if bytes_eq k j then ok v else (Txn.get items txns t d j).0))
  get-put t d k j v h open_ kept writes full = rw (put_open t k v open_ kept writes) (
    refl,
    get-shown (record t { ops = items.set t.ops (written t k v) }) d j open_ kept
        ∙ (ap (λ i. shown i (ds_get items txns d j t.ds_version)) (own-put t k j v h)
            ∙ (pick (bytes_eq k j) t k v (own_item items t j) (ds_get items txns d j t.ds_version)
                  full
                ∙ ap (λ r. if bytes_eq k j then ok v else r) (sym (get-shown t d j open_ kept)))),
  )
