-- ===== src/Memory/Auto.antt =====
-- datastore/memory/memory.go, Put and Delete: writes that are committed at once.
use defradg.Prelude.{
  ℕ, ◌+◌, ◌^◌, ◌<◌, ◌≡◌, refl, sym, ap, ◌∙◌, Bytes, Bool, true, false, arith, if◌then◌else◌,
  bytes_eq, is_empty, Result, ok, err, closed_store, Bool-cases, inl, inr,
}
use defradg.Memory.Tree.{Btree}
use defradg.Memory.Item.{DsItem, by_keys}
use defradg.Memory.Datastore
use defradg.Memory.Datastore.{DsTxn, by_ds_version, Ds, value_of, ds_get, next_version}
use defradg.Memory.Txn
use defradg.Memory.Txn.{
  BasicTxn, new_transaction, check_for_conflicts, commit_to, get_txn_version, discard, at_version,
  write_items,
}
use defradg.Memory.Commit.{IsCurrent, last_write, over_item, commit_to-applies}

pub if_of_false : {A : Type 0} (b : Bool) (x y : A) → b ≡ false → (if b then x else y) ≡ y
if_of_false true x y h = cc
if_of_false false x y h = refl

module _ (items : Btree DsItem by_keys) (txns : Btree DsTxn by_ds_version)
    (new_key : Bytes → Bytes) where
  abbrev forget :
      {T : Type 0} → Result (Unit {0}) × T × Ds items txns → Result (Unit {0}) × Ds items txns
  forget (r, t, d) = (r, d)

  -- Put, at a time and with an identity for its transaction.
  unfoldable pub put : Ds items txns → Bytes → Bytes → ℕ → ℕ → Result (Unit {0}) × Ds items txns
  put d key value now id =
      if d.closed
      then (err closed_store, d)
      else (let (t, d1) = new_transaction items txns d false now id in
          let t1 = (Txn.put items t key value).1 in
          forget (Txn.commit items txns new_key t1 d1 now))

  unfoldable pub delete : Ds items txns → Bytes → ℕ → ℕ → Result (Unit {0}) × Ds items txns
  delete d key now id =
      if d.closed
      then (err closed_store, d)
      else (let (t, d1) = new_transaction items txns d false now id in
          let t1 = (Txn.delete items txns t d1 key).1 in
          forget (Txn.commit items txns new_key t1 d1 now))

  -- The transaction of a Put, and the datastore that has it in flight.
  abbrev txn_of : Ds items txns → Bytes → Bytes → Txn.Txn items
  txn_of d key value = record {
    ops = items.set items.empty (record {
      key = key;
      version = d.version + 1;
      val = value;
      is_deleted = false;
      is_get = false;
    });
    ds_version = d.version;
    read_only = false;
    discarded = false;
    closed = false;
  }

  abbrev started : Ds items txns → ℕ → ℕ → Ds items txns
  started d now id = record d {
    in_flight_txn = txns.set d.in_flight_txn (record {
      ds_version = d.version;
      txn_version = d.version + 1;
      expires_at = now + 3600;
      txn = id;
    });
  }

  put_open :
      (d : Ds items txns) (k v : Bytes) (now id : ℕ)
      → d.closed ≡ false
      → put d k v now id ≡ (
        (commit_to items txns new_key (started d now id) (txn_of d k v)).0,
        (discard items txns
            (txn_of d k v)
            (commit_to items txns new_key (started d now id) (txn_of d k v)).1
            now).1,
      )
  unfolding put new_transaction Txn.put Txn.commit get_txn_version
  put_open d k v now id c = if_of_false d.closed _ _ c

  pub get_open :
      (d : Ds items txns) (j : Bytes)
      → d.closed ≡ false
      → Datastore.get items txns d j ≡ value_of (ds_get items txns d j d.version)
  unfolding Datastore.get
  get_open d j c = if_of_false d.closed _ _ c

  free :
      (d : Ds items txns) (k v : Bytes) (now id : ℕ)
      → check_for_conflicts items txns new_key (txn_of d k v) (started d now id) ≡ ok tt
  unfolding check_for_conflicts
  free d k v now id = ground arith

  commit_open :
      (d : Ds items txns) (k v : Bytes) (now id : ℕ)
      → d.closed ≡ false
      → (commit_to items txns new_key (started d now id) (txn_of d k v)).1.closed ≡ false
  unfolding commit_to
  commit_open d k v now id c = rw (free d k v now id, commit_to) c

  value_after :
      (d : Ds items txns) (k j v : Bytes) (w : ℕ)
      → is_empty k ≡ false
      → value_of (
          over_item
            (last_write j (items.items (txn_of d k v).ops))
            w
            (ds_get items txns d j d.version))
        ≡ (if bytes_eq k j then ok v else value_of (ds_get items txns d j d.version))
  value_after d k j v w full =
      rw
        (
          items.items-set items.empty (record {
            key = k;
            version = d.version + 1;
            val = v;
            is_deleted = false;
            is_get = false;
          }),
          items.items-empty,
        )
        (elim (Bool-cases (bytes_eq k j)) [ inl e ↦ rw e (rw full refl) | inr e ↦ rw e refl ])

  -- Put on a datastore that is open, whose items are not newer than its version, which has a next one, with a
  -- key that is not empty, succeeds: the value is read at the key, and at another key what was read before.
  pub get-put_auto :
      (d : Ds items txns) (k j v : Bytes) (now id : ℕ)
      → IsCurrent items txns new_key d
      → d.closed ≡ false
      → d.version + 1 < 2 ^ 64
      → is_empty k ≡ false
      → ((put d k v now id).0 ≡ ok tt)
        × (Datastore.get items txns (put d k v now id).1 j
            ≡ (if bytes_eq k j then ok v else Datastore.get items txns d j))
  unfolding discard ds_get
  get-put_auto d k j v now id h c small full =
      let (r, e, i, f) =
        commit_to-applies items txns new_key (started d now id) (txn_of d k v)
          (record { current = h.current }) small (free d k v now id) in
      let d2 = (commit_to items txns new_key (started d now id) (txn_of d k v)).1 in
      rw (put_open d k v now id c) (
        r,
        get_open (discard items txns (txn_of d k v) d2 now).1 j (commit_open d k v now id c)
            ∙ (ap value_of (f j)
                ∙ (value_after d k j v d2.version full
                    ∙ ap (λ x. if bytes_eq k j then ok v else x) (sym (get_open d j c)))),
      )
