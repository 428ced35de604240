-- ===== src/Memory/Purged.antt =====
-- datastore/memory/memory.go, executePurge: it ends, and no read at the version or above it changes.
use mathlib.Core.Bool.{false≢true}
use defradg.Prelude.{
  ℕ, suc, ◌≤◌, ◌<◌, ◌≡◌, refl, ap, sym, ◌∙◌, Bytes, true, false, List, [], ◌∷◌, some, All, arith,
  ltb, leb, bytes_eq, bytes_eq_iff, bytes_lt_irrefl, bytes_lt_asymm, bytes_lt_antisymm, Bool-cases,
  Option-cases, inl, inr,
}
use defradg.Memory.Tree.{IsSorted, list_delete}
use defradg.Memory.Item.{DsItem, by_keys, by_keys_trans, by_keys_same, matches, newest}
use defradg.Memory.Model.{IsOrder, delete-IsSorted}
use defradg.Memory.Purge.{items_to_delete, round_of}

pub data In (y : DsItem) : List DsItem → Type 0 where
  here : {xs : List DsItem} → In y (y ∷ xs)
  there : {x : DsItem} {xs : List DsItem} → In y xs → In y (x ∷ xs)

by_keys_asymm : (x y : DsItem) → by_keys x y ≡ true → by_keys y x ≡ false
by_keys_asymm x y h = ground (
  arith,
  h,
  bytes_lt_asymm x.key y.key,
  bytes_eq_iff x.key y.key,
  bytes_eq_iff y.key x.key,
  bytes_lt_irrefl x.key,
)

-- A later item stays where another is deleted.
In-delete :
    (d y : DsItem) (xs : List DsItem)
    → In y xs
    → by_keys d y ≡ true
    → In y (list_delete by_keys d xs)
In-delete d y _ (here {xs}) h = rw h here
In-delete d y _ (there {x} {xs} i) h = elim (Bool-cases (by_keys d x)) [
  | inl e ↦ rw e (there (In-delete d y xs i h))
  | inr e ↦ elim (Bool-cases (by_keys x d)) [
    | inl f ↦ rw (e, f) (there (In-delete d y xs i h))
    | inr f ↦ rw (e, f) i
  ]
]

delete_absent :
    (d : DsItem) (xs : List DsItem)
    → All (λ y. by_keys d y ≡ true) xs
    → list_delete by_keys d xs ≡ xs
delete_absent d [] h = refl
delete_absent d (x ∷ xs) h = rw (h.0, delete_absent d xs h.1) refl

newest-In :
    (k : Bytes) (w : ℕ) (z : DsItem) (xs : List DsItem)
    → In z xs
    → matches k w z ≡ true
    → (y : DsItem) × (newest k w xs ≡ some y)
newest-In k w z _ (here {xs}) m = elim (Option-cases (newest k w xs)) [
  | inl n ↦ (z, rw (n, m) refl)
  | inr (y, n) ↦ (y, rw n refl)
]
newest-In k w z _ (there {x} {xs} i) m = let (y, n) = newest-In k w z xs i m in (y, rw n refl)

All-from :
    (d x : DsItem) (xs : List DsItem)
    → by_keys d x ≡ true
    → All (λ y. by_keys x y ≡ true) xs
    → All (λ y. by_keys d y ≡ true) xs
All-from d x [] h hs = tt
All-from d x (y ∷ xs) h hs = (by_keys_trans d x y h hs.0, All-from d x xs h hs.1)

-- The item that stands in for one that goes: it is of its key, later, and up to the version.
record Covers (v : ℕ) (d z : DsItem) : Type 0 where
  same : bytes_eq d.key z.key ≡ true
  later : d.version < z.version
  upto : z.version ≤ v

Covers-above : (v : ℕ) (d z : DsItem) → Covers v d z → by_keys d z ≡ true
Covers-above v d z c =
    ground (arith, c.same, c.later, bytes_lt_irrefl d.key, bytes_eq_iff d.key z.key)

Covers-matches :
    (v w : ℕ) (k : Bytes) (d x z : DsItem)
    → Covers v d z
    → v ≤ w
    → by_keys d x ≡ false
    → by_keys x d ≡ false
    → matches k w x ≡ true
    → matches k w z ≡ true
Covers-matches v w k d x z c h e f m = ground (
  arith,
  c.same,
  c.upto,
  h,
  e,
  f,
  m,
  bytes_lt_antisymm d.key x.key,
  bytes_eq_iff d.key x.key,
  bytes_eq_iff x.key d.key,
  bytes_eq_iff d.key z.key,
  bytes_eq_iff k x.key,
  bytes_eq_iff k z.key,
)

In-tail :
    (d z x : DsItem) (xs : List DsItem)
    → In z (x ∷ xs)
    → by_keys d z ≡ true
    → by_keys d x ≡ false
    → In z xs
In-tail d z _ _ here h e = absurd (false≢true (sym e ∙ h))
In-tail d z x xs (there i) h e = i

newest-delete :
    (v w : ℕ) (k : Bytes) (d z : DsItem) (xs : List DsItem)
    → IsSorted by_keys xs
    → In z xs
    → Covers v d z
    → v ≤ w
    → newest k w (list_delete by_keys d xs) ≡ newest k w xs
newest-delete v w k d z [] s i c h = refl
newest-delete v w k d z (x ∷ xs) s i c h = elim (Bool-cases (by_keys d x)) [
  | inl e ↦ ap (newest k w) (delete_absent d (x ∷ xs) (e, All-from d x xs e s.0))
  | inr e ↦
      let i' = In-tail d z x xs i (Covers-above v d z c) e in
      elim (Bool-cases (by_keys x d)) [
        | inl f ↦ rw (e, f) (rw (newest-delete v w k d z xs s.1 i' c h) refl)
        | inr f ↦ elim (Bool-cases (matches k w x)) [
          | inl m ↦
              let (y, n) = newest-In k w z xs i' (Covers-matches v w k d x z c h e f m) in
              rw (e, f, n) refl
          | inr m ↦ elim (Option-cases (newest k w xs)) [
            | inl n ↦ rw (e, f, n, m) refl
            | inr (y, n) ↦ rw (e, f, n) refl
          ]
        ]
      ]
]

by_keys-IsOrder : IsOrder by_keys
by_keys-IsOrder = record { trans = by_keys_trans; same_left = by_keys_same }

abbrev pub delete_list : List DsItem → List DsItem → List DsItem
delete_list [] xs = xs
delete_list (d ∷ ds) xs = delete_list ds (list_delete by_keys d xs)

All-In-delete :
    (d : DsItem) (ys xs : List DsItem)
    → All (λ y. In y xs) ys
    → All (λ y. by_keys d y ≡ true) ys
    → All (λ y. In y (list_delete by_keys d xs)) ys
All-In-delete d [] xs i h = tt
All-In-delete d (y ∷ ys) xs i h = (In-delete d y xs i.0 h.0, All-In-delete d ys xs i.1 h.1)

Covers-next :
    (v : ℕ) (d x : DsItem)
    → by_keys d x ≡ true
    → ltb v x.version ≡ false
    → bytes_eq d.key x.key ≡ true
    → Covers v d x
Covers-next v d x h u e = record {
  same = e;
  later = ground (arith, h, e, bytes_lt_irrefl d.key, bytes_eq_iff d.key x.key);
  upto = ground (arith, u);
}

All-In-there :
    (x : DsItem) (ys xs : List DsItem) → All (λ y. In y xs) ys → All (λ y. In y (x ∷ xs)) ys
All-In-there x [] xs h = tt
All-In-there x (y ∷ ys) xs h = (there h.0, All-In-there x ys xs h.1)

pub All-In : (xs : List DsItem) → All (λ y. In y xs) xs
All-In [] = tt
All-In (x ∷ xs) = (here, All-In-there x xs xs (All-In xs))

module _ (v w : ℕ) (k : Bytes) (above : v ≤ w) where
  -- The deletions of one round change no read at the version or above it.
  newest-delete_list :
      (item : DsItem) (rest : List DsItem) (total : ℕ) (xs : List DsItem)
      → IsSorted by_keys xs
      → IsSorted by_keys (item ∷ rest)
      → All (λ y. In y xs) rest
      → newest k w (delete_list (items_to_delete v item rest total) xs) ≡ newest k w xs
  unfolding items_to_delete
  newest-delete_list item [] total xs s t i = refl
  newest-delete_list item (x ∷ rest) total xs s t i = elim (Bool-cases (ltb v x.version)) [
    | inl e ↦ rw e (newest-delete_list item rest total xs s (t.0.1, t.1.1) i.1)
    | inr e ↦ elim (Bool-cases (bytes_eq item.key x.key)) [
      | inl f ↦
          let c = Covers-next v item x t.0.0 e f in
          let one = newest-delete v w k item x xs s i.0 c above in
          elim (Bool-cases (leb 1000 (suc total))) [
            | inl g ↦ rw (e, f, g) one
            | inr g ↦
                rw (e, f, g)
                  (newest-delete_list x rest (suc total) (list_delete by_keys item xs)
                      (delete-IsSorted by_keys by_keys-IsOrder item xs s) t.1
                      (All-In-delete item rest xs i.1 t.0.1)
                    ∙ one)
          ]
      | inr f ↦ elim (Bool-cases (leb 1000 total)) [
        | inl g ↦ rw (e, f, g) refl
        | inr g ↦ rw (e, f, g) (newest-delete_list x rest total xs s t.1 i.1)
      ]
    ]
  ]

  pub newest-round :
      (xs : List DsItem)
      → IsSorted by_keys xs
      → newest k w (delete_list (round_of v xs) xs) ≡ newest k w xs
  newest-round [] s = refl
  newest-round (x ∷ xs) s = newest-delete_list x xs 0 (x ∷ xs) s s (All-In (x ∷ xs)).1
