-- ===== src/Memory/Snapshot.antt =====
-- datastore/memory: what a transaction reads is its own writes over a snapshot that later commits do
-- not change.
use defradg.Prelude.{
  ℕ, ◌+◌, ◌%◌, ◌^◌, ◌≤◌, ◌<◌, ◌≡◌, refl, ap, ◌∙◌, Bytes, Bool, true, false, List, [], ◌∷◌, some,
  All, arith, if◌then◌else◌, Bool-cases, inl, inr, Result-cases,
}
use defradg.Memory.Tree.{Btree, list_set}
use defradg.Memory.Item.{
  DsItem, by_keys, pivot, matches, newest, or_empty, found-last_upto, newest-set_other, NotNewer,
}
use defradg.Memory.Datastore.{DsTxn, by_ds_version, Ds, ds_get, next_version}
use defradg.Memory.Txn

abbrev pub UpTo : ℕ → List DsItem → Type 0
UpTo v = All (λ y. y.version ≤ v)

pub UpTo-set :
    (v : ℕ) (x : DsItem) (xs : List DsItem)
    → x.version ≤ v
    → UpTo v xs
    → UpTo v (list_set by_keys x xs)
UpTo-set v x [] h hs = (h, tt)
UpTo-set v x (y ∷ ys) h hs = elim (Bool-cases (by_keys x y)) [
  | inl p ↦ rw p (h, hs)
  | inr p ↦ elim (Bool-cases (by_keys y x)) [
    | inl q ↦ rw p (rw q (hs.0, UpTo-set v x ys h hs.1))
    | inr q ↦ rw p (rw q (h, hs.1))
  ]
]

pub NotNewer-of_UpTo : (x : DsItem) (xs : List DsItem) → UpTo x.version xs → NotNewer x xs
NotNewer-of_UpTo x [] h = tt
NotNewer-of_UpTo x (y ∷ ys) h = (λ _. h.0, NotNewer-of_UpTo x ys h.1)

-- What is found has the key that was looked for, at a version up to the read.
pub newest-matches :
    (k : Bytes) (v : ℕ) (xs : List DsItem) (i : DsItem)
    → newest k v xs ≡ some i
    → matches k v i ≡ true
newest-matches k v [] i h = cc
newest-matches k v (x ∷ xs) i h = ground (arith, newest-matches k v xs i)

module _ (items : Btree DsItem by_keys) (txns : Btree DsTxn by_ds_version) where
  pub ds_get-eq-newest :
      (d : Ds items txns) (k : Bytes) (v : ℕ)
      → ds_get items txns d k v ≡ or_empty (newest k v (items.items d.values))
  unfolding ds_get
  ds_get-eq-newest d k v =
      rw (items.descend_lem d.values (pivot k v))
        (found-last_upto k v (items.items d.values) (items.items_sorted d.values))

  pub newest-write_items_old :
      (k : Bytes) (v v' : ℕ) (is : List DsItem) (t : items.Tree)
      → v < v'
      → newest k v (items.items (Txn.write_items items v' is t)) ≡ newest k v (items.items t)
  unfolding Txn.write_items
  newest-write_items_old k v v' [] t h = refl
  newest-write_items_old k v v' (i ∷ is) t h = newest-write_items_old k v v' is _ h ∙ one i.is_get
    where
      one :
          (g : Bool)
          → newest k v (items.items (if g then t else items.set t (Txn.at_version v' i)))
            ≡ newest k v (items.items t)
      one true = refl
      one false =
          rw (items.items-set t (Txn.at_version v' i))
            (newest-set_other k v (Txn.at_version v' i) (items.items t) (ground arith))

  -- The commit of a transaction changes no read at a version up to that of the datastore before it.
  pub ds_get-commit_to :
      (new_key : Bytes → Bytes) (d : Ds items txns) (t : Txn.Txn items) (k : Bytes) (v : ℕ)
      → d.version + 1 < 2 ^ 64
      → v ≤ d.version
      → ds_get items txns (Txn.commit_to items txns new_key d t).1 k v ≡ ds_get items txns d k v
  unfolding Txn.commit_to next_version ds_get
  ds_get-commit_to new_key d t k v small h =
      elim (Result-cases (Txn.check_for_conflicts items txns new_key t d)) [
        | inl (e, n) ↦ rw (n, Txn.commit_to)
        | inr (u, n) ↦
            rw (n, Txn.commit_to)
              (rw
                (ds_get-eq-newest
                  (record d {
                    values =
                        Txn.write_items items ((d.version + 1) % 2 ^ 64) (items.items t.ops)
                          d.values;
                  })
                  k v)
                (rw (ds_get-eq-newest d k v) (
                  ap or_empty (
                    newest-write_items_old k v ((d.version + 1) % 2 ^ 64) (items.items t.ops)
                      d.values (omega arith)))))
      ]

  -- A transaction that began at or before the version of a datastore reads the same, and keeps the
  -- same of what it read, before and after a commit of a transaction, at a version that has a next
  -- one.
  pub get-commit_to :
      (new_key : Bytes → Bytes) (d : Ds items txns) (t other : Txn.Txn items) (k : Bytes)
      → d.version + 1 < 2 ^ 64
      → t.ds_version ≤ d.version
      → Txn.get items txns t (Txn.commit_to items txns new_key d other).1 k
        ≡ Txn.get items txns t d k
  unfolding Txn.get Txn.txn_get
  get-commit_to new_key d t other k small h =
      rw (ds_get-commit_to new_key d other k t.ds_version small h)
