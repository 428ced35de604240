-- ===== src/Memory/PurgeEnds.antt =====
-- datastore/memory/memory.go, executePurge: its rounds end, and what they leave for reads.
use defradg.Prelude.{
  ℕ, zero, suc, ◌≤◌, ◌<◌, ◌≡◌, refl, ap, sym, ◌∙◌, Bytes, true, false, List, [], ◌∷◌, All, arith,
  ltb, leb, bytes_eq, bytes_lt_irrefl, is_empty, length, Bool-cases, inl, inr,
}
use defradg.Memory.Tree.{Btree, list_delete}
use defradg.Memory.Item.{DsItem, by_keys, newest, or_empty}
use defradg.Memory.Datastore.{DsTxn, by_ds_version, Ds, ds_get}
use defradg.Memory.Snapshot.{ds_get-eq-newest}
use defradg.Memory.Purge.{
  items_to_delete, round_of, delete_items, purge_rounds, purge_version, execute_purge,
}
use defradg.Memory.Purged.{In, here, there, All-In, delete_list, newest-round}

-- What is to be deleted is among the items.
All-to_delete :
    (v : ℕ) (xs : List DsItem) (item : DsItem) (rest : List DsItem) (total : ℕ)
    → In item xs
    → All (λ y. In y xs) rest
    → All (λ y. In y xs) (items_to_delete v item rest total)
unfolding items_to_delete
All-to_delete v xs item [] total i h = tt
All-to_delete v xs item (x ∷ rest) total i h = elim (Bool-cases (ltb v x.version)) [
  | inl e ↦ rw e (All-to_delete v xs item rest total i h.1)
  | inr e ↦ elim (Bool-cases (bytes_eq item.key x.key)) [
    | inl f ↦ elim (Bool-cases (leb 1000 (suc total))) [
      | inl g ↦ rw (e, f, g) (i, tt)
      | inr g ↦ rw (e, f, g) (i, All-to_delete v xs x rest (suc total) h.0 h.1)
    ]
    | inr f ↦ elim (Bool-cases (leb 1000 total)) [
      | inl g ↦ rw (e, f, g) tt
      | inr g ↦ rw (e, f, g) (All-to_delete v xs x rest total h.0 h.1)
    ]
  ]
]

All-round : (v : ℕ) (xs : List DsItem) → All (λ y. In y xs) (round_of v xs)
All-round v [] = tt
All-round v (x ∷ xs) = let i = All-In (x ∷ xs) in All-to_delete v (x ∷ xs) x xs 0 i.0 i.1

length-delete : (d : DsItem) (xs : List DsItem) → length (list_delete by_keys d xs) ≤ length xs
length-delete d [] = omega arith
length-delete d (x ∷ xs) = elim (Bool-cases (by_keys d x)) [
  | inl e ↦ rw e (omega (arith, length-delete d xs))
  | inr e ↦ elim (Bool-cases (by_keys x d)) [
    | inl f ↦ rw (e, f) (omega (arith, length-delete d xs))
    | inr f ↦ rw (e, f) (omega arith)
  ]
]

length-delete_In :
    (d : DsItem) (xs : List DsItem) → In d xs → length (list_delete by_keys d xs) < length xs
length-delete_In d _ (here {xs}) =
    let e : by_keys d d ≡ false = ground (arith, bytes_lt_irrefl d.key) in rw e (omega arith)
length-delete_In d _ (there {x} {xs} i) = elim (Bool-cases (by_keys d x)) [
  | inl e ↦ rw e (omega (arith, length-delete_In d xs i))
  | inr e ↦ elim (Bool-cases (by_keys x d)) [
    | inl f ↦ rw (e, f) (omega (arith, length-delete_In d xs i))
    | inr f ↦ rw (e, f) (omega arith)
  ]
]

length-delete_list : (ds xs : List DsItem) → length (delete_list ds xs) ≤ length xs
length-delete_list [] xs = omega arith
length-delete_list (d ∷ ds) xs =
    omega (arith, length-delete_list ds (list_delete by_keys d xs), length-delete d xs)

shrinks :
    (ds xs : List DsItem)
    → All (λ y. In y xs) ds
    → is_empty ds ≡ false
    → length (delete_list ds xs) < length xs
shrinks [] xs h e = cc e
shrinks (d ∷ ds) xs h e =
    omega (arith, length-delete_list ds (list_delete by_keys d xs), length-delete_In d xs h.0)

module _ (items : Btree DsItem by_keys) (txns : Btree DsTxn by_ds_version) where
  items-delete_items :
      (ds : List DsItem) (t : items.Tree)
      → items.items (delete_items items txns ds t) ≡ delete_list ds (items.items t)
  unfolding delete_items
  items-delete_items [] t = refl
  items-delete_items (d ∷ ds) t =
      items-delete_items ds (items.delete t d) ∙ ap (delete_list ds) (items.items-delete t d)

  newest-rounds :
      (fuel v w : ℕ) (k : Bytes) (t : items.Tree)
      → v ≤ w
      → newest k w (items.items (purge_rounds items txns fuel v t)) ≡ newest k w (items.items t)
  unfolding purge_rounds
  newest-rounds zero v w k t h = refl
  newest-rounds (suc fuel) v w k t h = elim (Bool-cases (is_empty (round_of v (items.items t)))) [
    | inl e ↦ rw e refl
    | inr e ↦ rw e (
        newest-rounds fuel v w k (delete_items items txns (round_of v (items.items t)) t) h
        ∙ (ap (newest k w) (items-delete_items (round_of v (items.items t)) t)
            ∙ newest-round v w k h (items.items t) (items.items_sorted t)))
  ]

  rounds_end :
      (fuel v : ℕ) (t : items.Tree)
      → length (items.items t) < fuel
      → is_empty (round_of v (items.items (purge_rounds items txns fuel v t))) ≡ true
  unfolding purge_rounds
  rounds_end zero v t h = absurd (omega (arith, h))
  rounds_end (suc fuel) v t h = elim (Bool-cases (is_empty (round_of v (items.items t)))) [
    | inl e ↦ rw (e, e) refl
    | inr e ↦
        let next = delete_items items txns (round_of v (items.items t)) t in
        let less =
          shrinks (round_of v (items.items t)) (items.items t) (All-round v (items.items t)) e in
        let same = ap length (items-delete_items (round_of v (items.items t)) t) in
        rw e (rounds_end fuel v next (omega (arith, h, less, same)))
  ]

  -- A purge ends, the last of its rounds with nothing to delete, and changes no read at the version of
  -- the oldest transaction in flight, which is that of the datastore where there is none, or above it.
  pub execute_purge-keeps :
      (d : Ds items txns) (k : Bytes) (w : ℕ)
      → purge_version items txns d ≤ w
      → (ds_get items txns (execute_purge items txns d) k w ≡ ds_get items txns d k w)
        × (is_empty (
              round_of
                (purge_version items txns d)
                (items.items (execute_purge items txns d).values))
            ≡ true)
  unfolding execute_purge
  execute_purge-keeps d k w h = (
    ds_get-eq-newest items txns (execute_purge items txns d) k w
        ∙ (ap or_empty (
              newest-rounds (suc (length (items.items d.values))) (purge_version items txns d) w k
                d.values h)
            ∙ sym (ds_get-eq-newest items txns d k w)),
    rounds_end (suc (length (items.items d.values))) (purge_version items txns d) d.values
        (omega arith),
  )
