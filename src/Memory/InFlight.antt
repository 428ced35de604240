-- ===== src/Memory/InFlight.antt =====
-- datastore/memory/memory.go, clearOldInFlightTxn: what it leaves, and that its rounds end.
use defradg.Prelude.{
  ℕ, zero, suc, ◌+◌, ◌≡◌, refl, ap, sym, ◌∙◌, Bool, true, List, [], ◌∷◌, All, arith, ltb, is_empty,
  length, if◌then◌else◌, Bool-cases, inl, inr,
}
use defradg.Memory.Tree.{Btree, IsSorted, list_delete}
use defradg.Memory.Item.{DsItem, by_keys}
use defradg.Memory.Datastore.{
  DsTxn, by_ds_version, expired, delete_txns, clear_rounds, clear_old_in_flight_txn,
}

-- The entries that have not expired.
abbrev pub alive : ℕ → List DsTxn → List DsTxn
alive now [] = []
alive now (t ∷ ts) = if ltb t.expires_at now then alive now ts else t ∷ alive now ts

abbrev delete_all : List DsTxn → List DsTxn → List DsTxn
delete_all [] ts = ts
delete_all (x ∷ xs) ts = delete_all xs (list_delete by_ds_version x ts)

delete_all-behind :
    (y : DsTxn) (xs ts : List DsTxn)
    → All (λ x. by_ds_version y x ≡ true) xs
    → delete_all xs (y ∷ ts) ≡ y ∷ delete_all xs ts
delete_all-behind y [] ts h = refl
delete_all-behind y (x ∷ xs) ts h =
    ap (delete_all xs) (step (by_ds_version x y))
    ∙ delete_all-behind y xs (list_delete by_ds_version x ts) h.1
  where
    step : (b : Bool) → list_delete by_ds_version x (y ∷ ts) ≡ y ∷ list_delete by_ds_version x ts
    step b = ground (arith, h.0)

All-expired : (P : DsTxn → Type 0) (now : ℕ) (ts : List DsTxn) → All P ts → All P (expired now ts)
unfolding expired
All-expired P now [] h = tt
All-expired P now (t ∷ ts) h = elim (Bool-cases (ltb t.expires_at now)) [
  | inl e ↦ rw e (h.0, All-expired P now ts h.1)
  | inr e ↦ rw e (All-expired P now ts h.1)
]

delete_self : (t : DsTxn) (ts : List DsTxn) → list_delete by_ds_version t (t ∷ ts) ≡ ts
delete_self t ts = ground arith

delete_all-expired :
    (now : ℕ) (ts : List DsTxn)
    → IsSorted by_ds_version ts
    → delete_all (expired now ts) ts ≡ alive now ts
unfolding expired
delete_all-expired now [] h = refl
delete_all-expired now (t ∷ ts) h = elim (Bool-cases (ltb t.expires_at now)) [
  | inl e ↦
      rw e (ap (delete_all (expired now ts)) (delete_self t ts) ∙ delete_all-expired now ts h.1)
  | inr e ↦ rw e (
      delete_all-behind t (expired now ts) ts
        (All-expired (λ x. by_ds_version t x ≡ true) now ts h.0)
      ∙ ap (λ r. t ∷ r) (delete_all-expired now ts h.1))
]

expired-alive : (now : ℕ) (ts : List DsTxn) → expired now (alive now ts) ≡ []
unfolding expired
expired-alive now [] = refl
expired-alive now (t ∷ ts) = elim (Bool-cases (ltb t.expires_at now)) [
  | inl e ↦ rw e (expired-alive now ts)
  | inr e ↦ rw (e, e) (expired-alive now ts)
]

alive_all : (now : ℕ) (ts : List DsTxn) → is_empty (expired now ts) ≡ true → alive now ts ≡ ts
unfolding expired
alive_all now [] h = refl
alive_all now (t ∷ ts) h = ground (arith, alive_all now ts)

module _ (items : Btree DsItem by_keys) (txns : Btree DsTxn by_ds_version) where
  items-delete_txns :
      (xs : List DsTxn) (t : txns.Tree)
      → txns.items (delete_txns items txns xs t) ≡ delete_all xs (txns.items t)
  unfolding delete_txns
  items-delete_txns [] t = refl
  items-delete_txns (x ∷ xs) t =
      items-delete_txns xs (txns.delete t x) ∙ ap (delete_all xs) (txns.items-delete t x)

  one_round :
      (now : ℕ) (t : txns.Tree)
      → txns.items (delete_txns items txns (expired now (txns.items t)) t)
        ≡ alive now (txns.items t)
  one_round now t =
      items-delete_txns (expired now (txns.items t)) t
      ∙ delete_all-expired now (txns.items t) (txns.items_sorted t)

  rounds_done :
      (fuel now : ℕ) (t : txns.Tree)
      → expired now (txns.items t) ≡ []
      → clear_rounds items txns fuel now t ≡ t
  unfolding clear_rounds
  rounds_done zero now t h = refl
  rounds_done (suc fuel) now t h = rw h refl

  rounds :
      (fuel now : ℕ) (t : txns.Tree)
      → txns.items (clear_rounds items txns (suc fuel) now t) ≡ alive now (txns.items t)
  unfolding clear_rounds
  rounds fuel now t = elim (Bool-cases (is_empty (expired now (txns.items t)))) [
    | inl e ↦ rw e (sym (alive_all now (txns.items t) e))
    | inr e ↦
        let next : txns.Tree = delete_txns items txns (expired now (txns.items t)) t in
        let done : expired now (txns.items next) ≡ [] =
          ap (expired now) (one_round now t) ∙ expired-alive now (txns.items t) in
        rw (e, rounds_done fuel now next done) (one_round now t)
  ]

  -- The transactions that are in flight after the old ones are cleared are those that have not
  -- expired, in their order: the rounds end, the last of them with nothing to delete.
  pub items-clear_old :
      (now : ℕ) (t : txns.Tree)
      → (txns.items (clear_old_in_flight_txn items txns now t) ≡ alive now (txns.items t))
        × (expired now (txns.items (clear_old_in_flight_txn items txns now t)) ≡ [])
  unfolding clear_old_in_flight_txn
  items-clear_old now t =
      let e : length (txns.items t) + 1 ≡ suc (length (txns.items t)) = omega arith in
      let q =
        ap (λ n. txns.items (clear_rounds items txns n now t)) e
        ∙ rounds (length (txns.items t)) now t in
      (q, ap (expired now) q ∙ expired-alive now (txns.items t))
