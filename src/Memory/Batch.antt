-- ===== src/Memory/Batch.antt =====
-- datastore/memory/batch.go: operations that are collected, and written at one version without a look
-- at what has changed.
use defradg.Prelude.{
  ℕ, ◌+◌, ◌%◌, ◌^◌, ◌<◌, ◌≡◌, refl, ap, ◌∙◌, Bytes, true, false, List, [], ◌∷◌, Option, none, some,
  arith, if◌then◌else◌, bytes_eq, bytes_eq_iff, is_empty, Result, ok, err, not_found, Option-cases,
  inl, inr,
}
use defradg.Memory.Tree.{Btree}
use defradg.Memory.Item.{DsItem, by_keys}
use defradg.Memory.Datastore
use defradg.Memory.Datastore.{DsTxn, by_ds_version, Ds, value_of, ds_get, next_version}
use defradg.Memory.Txn.{write_items}
use defradg.Memory.Commit.{IsCurrent, last_write, over_item, find_written}
use defradg.Memory.Auto.{get_open}

-- An `op` of a batch: the value to put, or none to delete.
abbrev pub op_item : ℕ → Bytes × Option Bytes → DsItem
op_item v (k, none) = record { key = k; version = v; val = []; is_deleted = true; is_get = false }
op_item v (k, some x) = record { key = k; version = v; val = x; is_deleted = false; is_get = false }

-- The map of a batch, which has one op for each key.
unfoldable pub batch_set :
    Bytes → Option Bytes → List (Bytes × Option Bytes) → List (Bytes × Option Bytes)
batch_set k o [] = (k, o) ∷ []
batch_set k o ((j, p) ∷ ops) = if bytes_eq j k then (k, o) ∷ ops else (j, p) ∷ batch_set k o ops

-- The op of a key.
abbrev pub last_op : Bytes → List (Bytes × Option Bytes) → Option (Option Bytes)
last_op j [] = none
last_op j ((k, o) ∷ ops) = elim (last_op j ops) [
  | some p ↦ some p
  | none ↦ if bytes_eq k j then some o else none
]

-- What a read finds behind an op, or where there is none.
abbrev pub after_op : Option (Option Bytes) → Result Bytes → Result Bytes
after_op none r = r
after_op (some none) r = err not_found
after_op (some (some x)) r = ok x

abbrev items_of : ℕ → List (Bytes × Option Bytes) → List DsItem
items_of v [] = []
items_of v (o ∷ ops) = op_item v o ∷ items_of v ops

abbrev item_of : ℕ → Bytes → Option (Option Bytes) → Option DsItem
item_of v j none = none
item_of v j (some o) = some (op_item v (j, o))

last_write-ops :
    (v : ℕ) (j : Bytes) (ops : List (Bytes × Option Bytes))
    → last_write j (items_of v ops) ≡ item_of v j (last_op j ops)
last_write-ops v j [] = refl
last_write-ops v j ((k, none) ∷ ops) = elim (Option-cases (last_op j ops)) [
  | inl n ↦ rw (last_write-ops v j ops, n) (ground (arith, bytes_eq_iff k j))
  | inr (p, n) ↦ rw (last_write-ops v j ops, n) refl
]
last_write-ops v j ((k, some x) ∷ ops) = elim (Option-cases (last_op j ops)) [
  | inl n ↦ rw (last_write-ops v j ops, n) (ground (arith, bytes_eq_iff k j))
  | inr (p, n) ↦ rw (last_write-ops v j ops, n) refl
]

value_of-op :
    (v : ℕ) (j : Bytes) (o : Option (Option Bytes)) (old : DsItem)
    → is_empty j ≡ false
    → value_of (over_item (item_of v j o) v old) ≡ after_op o (value_of old)
value_of-op v j none old h = refl
value_of-op v j (some none) old h = ground arith
value_of-op v j (some (some x)) old h = rw h refl

module _ (items : Btree DsItem by_keys) (txns : Btree DsTxn by_ds_version) where
  unfoldable pub write_ops : ℕ → List (Bytes × Option Bytes) → items.Tree → items.Tree
  write_ops v [] values = values
  write_ops v (o ∷ ops) values = write_ops v ops (items.set values (op_item v o))

  -- The Commit of a batch.
  unfoldable pub batch_commit : Ds items txns → List (Bytes × Option Bytes) → Ds items txns
  batch_commit d ops =
      let v = next_version items txns d.version in
      record d { version = v; values = write_ops v ops d.values }

  write_ops-items :
      (v : ℕ) (ops : List (Bytes × Option Bytes)) (t : items.Tree)
      → write_ops v ops t ≡ write_items items v (items_of v ops) t
  unfolding write_ops write_items
  write_ops-items v [] t = refl
  write_ops-items v ((k, none) ∷ ops) t = write_ops-items v ops _
  write_ops-items v ((k, some x) ∷ ops) t = write_ops-items v ops _

  -- The commit of a batch, on a datastore that is open, whose items are not newer than its version, which has
  -- a next one: a read of a key that is not empty finds the op of the key, and where there is none what was read before.
  pub get-batch_commit :
      (new_key : Bytes → Bytes) (d : Ds items txns) (ops : List (Bytes × Option Bytes)) (j : Bytes)
      → IsCurrent items txns new_key d
      → d.closed ≡ false
      → d.version + 1 < 2 ^ 64
      → is_empty j ≡ false
      → Datastore.get items txns (batch_commit d ops) j
        ≡ after_op (last_op j ops) (Datastore.get items txns d j)
  unfolding batch_commit next_version
  get-batch_commit new_key d ops j h c small full =
      let v = (d.version + 1) % 2 ^ 64 in
      get_open items txns new_key (batch_commit d ops) j c
      ∙ (rw (write_ops-items v ops d.values, get_open items txns new_key d j c)
          (ap value_of
              (find_written items txns new_key d v (items_of v ops) j h.current (omega arith))
            ∙ rw (last_write-ops v j ops)
                (value_of-op v j (last_op j ops) (ds_get items txns d j d.version) full)))
