-- ===== src/Memory/Item.antt =====
-- datastore/memory/memory.go: dsItem and its order, and what a read at a version finds.
use defradg.Prelude.{
  ℕ, ◌≡◌, refl, subst, ◌∙◌, ◌≤◌, Bytes, Bool, true, false, ◌&&◌, ◌||◌, List, [], ◌∷◌, Option, none,
  some, All, arith, ltb, leb, if◌then◌else◌, bytes_lt, bytes_eq, bytes_eq_iff, bytes_lt_irrefl,
  bytes_lt_trans, bytes_lt_antisymm, Bool-cases, inl, inr, Option-cases,
}
use defradg.Memory.Tree.{IsSorted, list_set, last_upto}

pub record DsItem : Type 0 where
  pub key : Bytes
  pub version : ℕ
  pub val : Bytes
  pub is_deleted : Bool
  pub is_get : Bool

-- Items by key, and those of one key by version.
abbrev pub by_keys : DsItem → DsItem → Bool
by_keys a b = bytes_lt a.key b.key || (bytes_eq a.key b.key && ltb a.version b.version)

abbrev pub empty_item : DsItem
empty_item = record { key = []; version = 0; val = []; is_deleted = false; is_get = false }

abbrev pub pivot : Bytes → ℕ → DsItem
pivot k v = record { key = k; version = v; val = []; is_deleted = false; is_get = false }

-- The function that `Descend` is given, on the first item that it is called on, if any.
abbrev pub found : Bytes → Option DsItem → DsItem
found k none = empty_item
found k (some i) = if bytes_eq k i.key then i else empty_item

abbrev pub matches : Bytes → ℕ → DsItem → Bool
matches k v i = bytes_eq k i.key && leb i.version v

-- The newest item of a key up to a version, in items that ascend.
abbrev pub newest : Bytes → ℕ → List DsItem → Option DsItem
newest k v [] = none
newest k v (x ∷ xs) = elim (newest k v xs) [
  | some y ↦ some y
  | none ↦ if matches k v x then some x else none
]

abbrev pub or_empty : Option DsItem → DsItem
or_empty none = empty_item
or_empty (some i) = i

last_upto-All :
    (P : DsItem → Type 0) (p : DsItem) (xs : List DsItem) {y : DsItem}
    → All P xs
    → last_upto by_keys p xs ≡ some y
    → P y
last_upto-All P p [] h e = absurd (cc)
last_upto-All P p (x ∷ xs) {y} h e = elim (Option-cases (last_upto by_keys p xs)) [
  | inl n ↦ here (by_keys p x) (rw n at e)
  | inr (z, n) ↦ last_upto-All P p xs h.1 (n ∙ (rw n at e))
]
  where
    here : (t : Bool) → (if t then none else some x) ≡ some y → P y
    here true q = absurd (cc)
    here false q = subst P (cc) h.0

last_upto-le :
    (p : DsItem) (xs : List DsItem) {y : DsItem}
    → last_upto by_keys p xs ≡ some y
    → by_keys p y ≡ false
last_upto-le p [] e = cc
last_upto-le p (x ∷ xs) {y} e = ground (arith, last_upto-le p xs {y = y})

abbrev keep_key : Bytes → Option DsItem → Option DsItem
keep_key k none = none
keep_key k (some y) = if bytes_eq k y.key then some y else none

-- Of two items in order, where the second is not above the pivot and has another key.
no_match :
    (k : Bytes) (v : ℕ) (x y : DsItem)
    → by_keys x y ≡ true
    → by_keys (pivot k v) y ≡ false
    → bytes_eq k y.key ≡ false
    → matches k v x ≡ false
no_match k v x y h p n =
    ground (arith, bytes_eq_iff k x.key, bytes_eq_iff x.key y.key, bytes_eq_iff k y.key)

newest-last_upto :
    (k : Bytes) (v : ℕ) (xs : List DsItem)
    → IsSorted by_keys xs
    → newest k v xs ≡ keep_key k (last_upto by_keys (pivot k v) xs)
newest-last_upto k v [] h = refl
newest-last_upto k v (x ∷ xs) h = elim (Option-cases (last_upto by_keys (pivot k v) xs)) [
  | inl n ↦
      rw (newest-last_upto k v xs h.1)
        (rw n (ground (arith, bytes_lt_irrefl k, bytes_eq_iff k x.key)))
  | inr (y, n) ↦ rw (newest-last_upto k v xs h.1) (
      rw n (
        above y (bytes_eq k y.key) (
          no_match k v x y (last_upto-All (λ z. by_keys x z ≡ true) (pivot k v) xs h.0 n)
            (last_upto-le (pivot k v) xs n))))
]
  where
    above :
        (y : DsItem) (t : Bool)
        → (t ≡ false → matches k v x ≡ false)
        → elim (if t then some y else none) as (λ _. Option DsItem) [
          | some z ↦ some z
          | none ↦ if matches k v x then some x else none
        ]
          ≡ (if t then some y else none)
    above y true m = refl
    above y false m = rw (m refl)

-- Where the items are sorted, a read finds the newest item of its key up to its version.
pub found-last_upto :
    (k : Bytes) (v : ℕ) (xs : List DsItem)
    → IsSorted by_keys xs
    → found k (last_upto by_keys (pivot k v) xs) ≡ or_empty (newest k v xs)
found-last_upto k v xs h = rw (newest-last_upto k v xs h) (keep (last_upto by_keys (pivot k v) xs))
  where
    keep : (o : Option DsItem) → found k o ≡ or_empty (keep_key k o)
    keep none = refl
    keep (some y) = ground arith

-- An item that a read does not match changes nothing for it.
pub newest-set_other :
    (k : Bytes) (v : ℕ) (x : DsItem) (xs : List DsItem)
    → matches k v x ≡ false
    → newest k v (list_set by_keys x xs) ≡ newest k v xs
newest-set_other k v x [] h = rw h
newest-set_other k v x (y ∷ ys) h = ground (
  arith,
  newest-set_other k v x ys,
  bytes_lt_antisymm x.key y.key,
  bytes_eq_iff x.key y.key,
  bytes_eq_iff y.key x.key,
  bytes_eq_iff k y.key,
  bytes_eq_iff k x.key,
)

pub by_keys_trans : (x y z : DsItem) → by_keys x y ≡ true → by_keys y z ≡ true → by_keys x z ≡ true
by_keys_trans x y z h j = ground (
  arith,
  bytes_lt_trans x.key y.key z.key,
  bytes_eq_iff x.key y.key,
  bytes_eq_iff y.key z.key,
  bytes_eq_iff x.key z.key,
)

-- Items that are neither less nor greater are before the same items.
pub by_keys_same :
    (x y z : DsItem)
    → by_keys x y ≡ false
    → by_keys y x ≡ false
    → by_keys y z ≡ true
    → by_keys x z ≡ true
by_keys_same x y z h j l = ground (
  arith,
  bytes_lt_antisymm x.key y.key,
  bytes_eq_iff x.key y.key,
  bytes_eq_iff y.key x.key,
  bytes_eq_iff y.key z.key,
  bytes_eq_iff x.key z.key,
)

All-map :
    {P Q : DsItem → Type 0} (xs : List DsItem) → ((x : DsItem) → P x → Q x) → All P xs → All Q xs
All-map [] f h = tt
All-map (x ∷ xs) f h = (f x h.0, All-map xs f h.1)

-- The items of the key of `x` are not newer than it.
abbrev pub NotNewer : DsItem → List DsItem → Type 0
NotNewer x = All (λ y. bytes_eq x.key y.key ≡ true → y.version ≤ x.version)

newest-none :
    (x : DsItem) (v : ℕ) (xs : List DsItem)
    → All (λ y. by_keys x y ≡ true) xs
    → NotNewer x xs
    → newest x.key v xs ≡ none
newest-none x v [] h b = refl
newest-none x v (y ∷ ys) h b =
    rw (newest-none x v ys h.1 b.1)
      (ground (arith, b.0, h.0, bytes_lt_irrefl x.key, bytes_eq_iff x.key y.key))

-- An item that is put in, where none of its key is newer, is what a read at or above its version finds.
pub newest-set_self :
    (x : DsItem) (v : ℕ) (xs : List DsItem)
    → matches x.key v x ≡ true
    → IsSorted by_keys xs
    → NotNewer x xs
    → newest x.key v (list_set by_keys x xs) ≡ some x
newest-set_self x v [] h s b = rw h
newest-set_self x v (y ∷ ys) h s b = elim (Bool-cases (by_keys x y)) [
  | inl p ↦
      rw p (rw (newest-none x v (y ∷ ys) (p, All-map ys (λ z. by_keys_trans x y z p) s.0) b) (rw h))
  | inr p ↦ elim (Bool-cases (by_keys y x)) [
    | inl q ↦ rw p (rw q (rw (newest-set_self x v ys h s.1 b.1)))
    | inr q ↦
        rw p
          (rw q (rw (newest-none x v ys (All-map ys (λ z. by_keys_same x y z p q) s.0) b.1) (rw h)))
  ]
]
