-- ===== src/Memory/Commit.antt =====
-- datastore/memory: a commit applies all the writes of a transaction or none, and fails exactly if an
-- item that the transaction holds has another newest version.
use defradg.Prelude.{
  ℕ, ◌+◌, ◌%◌, ◌^◌, ◌≤◌, ◌<◌, ◌≡◌, ◌≢◌, ◌↔◌, refl, sym, ap, ◌∙◌, Bytes, Bool, true, false, ◌||◌,
  List, [], ◌∷◌, Option, none, some, arith, ◌==◌, ==_iff, if◌then◌else◌, bytes_eq, bytes_eq_iff,
  bytes_eq_refl, Bool-cases, inl, inr, ok, err, txn_conflict,
}
use defradg.Memory.Tree.{Btree}
use defradg.Memory.Item.{DsItem, by_keys, newest, or_empty, newest-set_other, newest-set_self}
use defradg.Memory.Datastore.{DsTxn, by_ds_version, Ds, ds_get, next_version}
use defradg.Memory.Snapshot.{UpTo, UpTo-set, NotNewer-of_UpTo, ds_get-eq-newest}
use defradg.Memory.Txn
use defradg.Memory.Txn.{at_version, write_items, conflicts, check_for_conflicts, commit_to}

-- The last write of a key among the items of a transaction.
abbrev pub last_write : Bytes → List DsItem → Option DsItem
last_write k [] = none
last_write k (i ∷ is) = elim (last_write k is) [
  | some j ↦ some j
  | none ↦ if i.is_get then none else if bytes_eq i.key k then some i else none
]

-- What a write leaves of what was there.
abbrev pub over : Option DsItem → ℕ → Option DsItem → Option DsItem
over none v old = old
over (some j) v old = some (at_version v j)

abbrev pub over_item : Option DsItem → ℕ → DsItem → DsItem
over_item none v old = old
over_item (some j) v old = at_version v j

-- The transaction holds an item of the key.
abbrev pub touches : Bytes → List DsItem → Bool
touches k [] = false
touches k (i ∷ is) = bytes_eq i.key k || touches k is

newest_above :
    (k : Bytes) (v w : ℕ) (xs : List DsItem) → UpTo v xs → v ≤ w → newest k w xs ≡ newest k v xs
newest_above k v w [] h le = refl
newest_above k v w (x ∷ xs) h le = ground (arith, newest_above k v w xs)

UpTo-mono : (v w : ℕ) (xs : List DsItem) → v ≤ w → UpTo v xs → UpTo w xs
UpTo-mono v w [] le h = tt
UpTo-mono v w (x ∷ xs) le h = (omega arith, UpTo-mono v w xs le h.1)

or_empty-over :
    (o : Option DsItem) (v : ℕ) (old : Option DsItem)
    → or_empty (over o v old) ≡ over_item o v (or_empty old)
or_empty-over none v old = refl
or_empty-over (some j) v old = refl

module _ (items : Btree DsItem by_keys) where
  one_write :
      (k : Bytes) (v : ℕ) (i : DsItem) (t : items.Tree)
      → UpTo v (items.items t)
      → newest k v (items.items (items.set t (at_version v i)))
        ≡ (if bytes_eq i.key k then some (at_version v i) else newest k v (items.items t))
  one_write k v i t h =
      rw (items.items-set t (at_version v i)) (elim (Bool-cases (bytes_eq i.key k)) [
        | inl e ↦ rw e (
            rw (← (bytes_eq_iff i.key k).0 e) (
              newest-set_self (at_version v i) v (items.items t)
                (ground (arith, bytes_eq_refl i.key)) (items.items_sorted t)
                (NotNewer-of_UpTo (at_version v i) (items.items t) h)))
        | inr e ↦ rw e (
            newest-set_other k v (at_version v i) (items.items t)
              (ground (arith, bytes_eq_iff k i.key, bytes_eq_iff i.key k)))
      ])

  UpTo-write_items :
      (v : ℕ) (is : List DsItem) (t : items.Tree)
      → UpTo v (items.items t)
      → UpTo v (items.items (write_items items v is t))
  unfolding write_items
  UpTo-write_items v [] t h = h
  UpTo-write_items v (i ∷ is) t h = UpTo-write_items v is _ (one i.is_get)
    where
      one : (g : Bool) → UpTo v (items.items (if g then t else items.set t (at_version v i)))
      one true = h
      one false =
          rw (items.items-set t (at_version v i))
            (UpTo-set v (at_version v i) (items.items t) (omega arith) h)

  newest-write_items :
      (k : Bytes) (v : ℕ) (is : List DsItem) (t : items.Tree)
      → UpTo v (items.items t)
      → newest k v (items.items (write_items items v is t))
        ≡ over (last_write k is) v (newest k v (items.items t))
  unfolding write_items
  newest-write_items k v [] t h = refl
  newest-write_items k v (i ∷ is) t h =
      newest-write_items k v is _ (up i.is_get) ∙ step (last_write k is) i.is_get
    where
      up : (g : Bool) → UpTo v (items.items (if g then t else items.set t (at_version v i)))
      up true = h
      up false =
          rw (items.items-set t (at_version v i))
            (UpTo-set v (at_version v i) (items.items t) (omega arith) h)

      pick :
          (b : Bool) (old : Option DsItem)
          → (if b then some (at_version v i) else old) ≡ over (if b then some i else none) v old
      pick true old = refl
      pick false old = refl

      step :
          (o : Option DsItem) (g : Bool)
          → over o v (newest k v (items.items (if g then t else items.set t (at_version v i))))
            ≡ over
                (elim o as (λ _. Option DsItem) [
                  | some j ↦ some j
                  | none ↦ if g then none else if bytes_eq i.key k then some i else none
                ])
                v
                (newest k v (items.items t))
      step (some j) g = refl
      step none true = refl
      step none false = one_write k v i t h ∙ pick (bytes_eq i.key k) (newest k v (items.items t))

module _ (items : Btree DsItem by_keys) (txns : Btree DsTxn by_ds_version)
    (new_key : Bytes → Bytes) where
  -- No item of the datastore is newer than the datastore.
  pub record IsCurrent (d : Ds items txns) : Type 0 where
    pub current : UpTo d.version (items.items d.values)

  pub find_written :
      (d : Ds items txns) (v : ℕ) (is : List DsItem) (k : Bytes)
      → UpTo d.version (items.items d.values)
      → d.version ≤ v
      → ds_get items txns (record d { version = v; values = write_items items v is d.values }) k v
        ≡ over_item (last_write k is) v (ds_get items txns d k d.version)
  find_written d v is k h le =
      ds_get-eq-newest items txns
        (record d { version = v; values = write_items items v is d.values }) k v
      ∙ (ap or_empty (
            newest-write_items items k v is d.values
              (UpTo-mono d.version v (items.items d.values) le h))
          ∙ (or_empty-over (last_write k is) v (newest k v (items.items d.values))
              ∙ ap (over_item (last_write k is) v) (
                  ap or_empty (newest_above k d.version v (items.items d.values) h le)
                  ∙ sym (ds_get-eq-newest items txns d k d.version))))

  -- On a datastore whose items are not newer than its version, which has a next one, a commit that
  -- meets no conflict succeeds and raises the version by one. A read of a key at the new version
  -- finds the last write that the transaction holds for the key, and where it holds none, what a read
  -- found before.
  pub commit_to-applies :
      (d : Ds items txns) (t : Txn.Txn items)
      → IsCurrent d
      → d.version + 1 < 2 ^ 64
      → check_for_conflicts items txns new_key t d ≡ ok tt
      → let d' = (commit_to items txns new_key d t).1 in
        ((commit_to items txns new_key d t).0 ≡ ok tt)
        × (d'.version ≡ d.version + 1)
        × IsCurrent d'
        × ((k : Bytes)
            → ds_get items txns d' k d'.version
              ≡ over_item
                  (last_write k (items.items t.ops))
                  d'.version
                  (ds_get items txns d k d.version))
  unfolding commit_to next_version
  commit_to-applies d t h small free =
      let e : (d.version + 1) % 2 ^ 64 ≡ d.version + 1 = omega arith in
      rw (free, commit_to)
        (
          refl,
          e,
          record {
            current =
                UpTo-write_items items _ (items.items t.ops) d.values
                  (UpTo-mono d.version _ (items.items d.values) (omega arith) h.current);
          },
          λ k. find_written d _ (items.items t.ops) k h.current (omega arith),
        )

  conflicts-eq-false :
      (d : Ds items txns) (start : ℕ) (k : Bytes) (is : List DsItem)
      → conflicts items txns new_key d start is ≡ false
      → touches k is ≡ true
      → (ds_get items txns d (new_key k) d.version).version
        ≡ (ds_get items txns d (new_key k) start).version
  unfolding conflicts
  conflicts-eq-false d start k [] h j = cc
  conflicts-eq-false d start k (i ∷ is) h j = elim (Bool-cases (bytes_eq i.key k)) [
    | inl e ↦ rw (← (bytes_eq_iff i.key k).0 e) (ground arith)
    | inr e ↦ conflicts-eq-false d start k is (ground arith) (ground arith)
  ]

  conflicts-eq-true :
      (d : Ds items txns) (start : ℕ) (is : List DsItem)
      → ((k : Bytes)
          → touches k is ≡ true
          → (ds_get items txns d (new_key k) d.version).version
            ≡ (ds_get items txns d (new_key k) start).version)
      → conflicts items txns new_key d start is ≡ false
  unfolding conflicts
  conflicts-eq-true d start [] h = refl
  conflicts-eq-true d start (i ∷ is) h =
      let same = h i.key (rw (bytes_eq_refl i.key)) in
      let rest = conflicts-eq-true d start is (λ k j. h k (ground (arith, j))) in
      ground (arith, same, rest)

  -- The check passes exactly if every key of which the transaction holds an item has, at the version
  -- of the datastore, the newest version that it had at the start of the transaction. It fails with
  -- no other error than the conflict, and then the commit changes nothing.
  pub check_for_conflicts_iff :
      (d : Ds items txns) (t : Txn.Txn items)
      → ((check_for_conflicts items txns new_key t d ≡ ok tt) ↔ (
          (k : Bytes)
          → touches k (items.items t.ops) ≡ true
          → (ds_get items txns d (new_key k) d.version).version
            ≡ (ds_get items txns d (new_key k) t.ds_version).version))
        × (check_for_conflicts items txns new_key t d ≢ ok tt
            → commit_to items txns new_key d t ≡ (err txn_conflict, d))
  unfolding check_for_conflicts commit_to
  check_for_conflicts_iff d t = ((λ h k j. passed h k j, λ h. allowed h), refused)
    where
      passed :
          check_for_conflicts items txns new_key t d ≡ ok tt
          → (k : Bytes) → touches k (items.items t.ops) ≡ true
          → (ds_get items txns d (new_key k) d.version).version
            ≡ (ds_get items txns d (new_key k) t.ds_version).version
      passed h k j = elim (Bool-cases (t.ds_version == d.version)) [
        | inl e ↦
            ap (λ (v : ℕ). (ds_get items txns d (new_key k) v).version)
              (sym ((==_iff t.ds_version d.version).0 e))
        | inr e ↦ conflicts-eq-false d t.ds_version k (items.items t.ops) (ground arith) j
      ]

      allowed :
          ((k : Bytes)
            → touches k (items.items t.ops) ≡ true
            → (ds_get items txns d (new_key k) d.version).version
              ≡ (ds_get items txns d (new_key k) t.ds_version).version)
          → check_for_conflicts items txns new_key t d ≡ ok tt
      allowed h = ground (arith, conflicts-eq-true d t.ds_version (items.items t.ops) h)

      refused :
          check_for_conflicts items txns new_key t d ≢ ok tt
          → commit_to items txns new_key d t ≡ (err txn_conflict, d)
      refused n = elim (Bool-cases (t.ds_version == d.version)) [
        | inl e ↦ absurd (n (rw e))
        | inr e ↦
            elim (Bool-cases (conflicts items txns new_key d t.ds_version (items.items t.ops))) [
              | inl c ↦ rw (e, commit_to) (rw c)
              | inr c ↦ absurd (n (rw e (rw c)))
            ]
      ]
