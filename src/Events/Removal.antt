-- ===== src/Events/Removal.antt =====
-- events/simple.go, handleChannel: the subscriber that is looked for goes, and no other.
use defradg.Prelude.{
  ℕ, zero, suc, ◌+◌, ◌-◌, ◌<◌, ◌≡◌, refl, ap, ◌∙◌, Bool, false, List, [], ◌∷◌, ◌++◌, take, length,
  Option, none, some, ◌==◌, if◌then◌else◌, arith, Bool-cases, inl, inr,
}
use defradg.Events.{find_index, item_at, update, swap_remove}

abbrev pub one_if : Bool → ℕ
one_if b = if b then 1 else 0

-- How often a channel is among the subscribers.
abbrev pub count : ℕ → List ℕ → ℕ
count ch [] = 0
count ch (x ∷ xs) = let rest = count ch xs in if x == ch then suc rest else rest

pub count-append : (ch : ℕ) (xs ys : List ℕ) → count ch (xs ++ ys) ≡ count ch xs + count ch ys
count-append ch [] ys = omega arith
count-append ch (x ∷ xs) ys = ground (arith, count-append ch xs ys)

count-update :
    (ch i v : ℕ) (xs : List ℕ)
    → i < length xs
    → count ch (update i v xs) + one_if (item_at xs i == ch) ≡ count ch xs + one_if (v == ch)
count-update ch i v [] h = absurd (omega (arith, h))
count-update ch zero v (x ∷ xs) h = ground arith
count-update ch (suc i) v (x ∷ xs) h = ground (arith, count-update ch i v xs (omega (arith, h)))

length-update : (i v : ℕ) (xs : List ℕ) → length (update i v xs) ≡ length xs
length-update i v [] = refl
length-update zero v (x ∷ xs) = refl
length-update (suc i) v (x ∷ xs) = ap suc (length-update i v xs)

-- The last item, and those before it.
count-take :
    (ch n : ℕ) (xs : List ℕ)
    → length xs ≡ suc n
    → count ch (take n xs) + one_if (item_at xs n == ch) ≡ count ch xs
count-take ch n [] h = absurd (omega (arith, h))
count-take ch zero (x ∷ []) h = ground arith
count-take ch zero (x ∷ y ∷ ys) h = absurd (omega (arith, h))
count-take ch (suc n) (x ∷ xs) h = ground (arith, count-take ch n xs (omega (arith, h)))

item_at-update :
    (i n v : ℕ) (xs : List ℕ) → v ≡ item_at xs n → item_at (update i v xs) n ≡ item_at xs n
item_at-update i n v [] h = refl
item_at-update zero zero v (x ∷ xs) h = h
item_at-update zero (suc n) v (x ∷ xs) h = refl
item_at-update (suc i) zero v (x ∷ xs) h = refl
item_at-update (suc i) (suc n) v (x ∷ xs) h = item_at-update i n v xs h

-- The subscriber at a position goes, and no other.
count-swap_remove :
    (ch i : ℕ) (xs : List ℕ)
    → i < length xs
    → count ch (swap_remove i xs) + one_if (item_at xs i == ch) ≡ count ch xs
unfolding swap_remove
count-swap_remove ch i xs h =
    let n = length xs - 1 in
    let v = item_at xs n in
    omega (
      arith,
      h,
      count-update ch i v xs h,
      count-take ch n (update i v xs) (omega (arith, h, length-update i v xs)),
      ap (λ x. one_if (x == ch)) (item_at-update i n v xs refl),
    )

-- A position that is found, counted from one on, has the channel; where none is found it is not
-- there.
pub data Finds (ch : ℕ) (xs : List ℕ) (i : ℕ) : Option ℕ → Type 0 where
  found : (n k : ℕ) → k ≡ n + i → n < length xs → item_at xs n ≡ ch → Finds ch xs i (some k)
  missing : count ch xs ≡ 0 → Finds ch xs i none

Finds-cons :
    {ch : ℕ} {xs : List ℕ} {i : ℕ} (x : ℕ) {o : Option ℕ}
    → Finds ch xs (i + 1) o
    → (ch == x) ≡ false
    → Finds ch (x ∷ xs) i o
Finds-cons {ch} {xs} {i} x (found n k e h a) d =
    found (suc n) k (omega (arith, e)) (omega (arith, h)) a
Finds-cons {ch} {xs} x (missing z) d = missing (ground (arith, z, d))

pub find_index-Finds : (ch : ℕ) (xs : List ℕ) (i : ℕ) → Finds ch xs i (find_index ch xs i)
unfolding find_index
find_index-Finds ch [] i = missing refl
find_index-Finds ch (x ∷ xs) i = elim (Bool-cases (ch == x)) [
  | inl e ↦ rw e (found 0 i (omega arith) (omega arith) (ground (arith, e)))
  | inr e ↦ rw e (Finds-cons x (find_index-Finds ch xs (i + 1)) e)
]

-- What is left of the subscribers.
pub count-swap_found :
    (ch c k : ℕ) (xs : List ℕ)
    → Finds c xs 0 (some k)
    → count ch (swap_remove k xs) + one_if (c == ch) ≡ count ch xs
count-swap_found ch c _ xs (found n k e h a) =
    let same : k ≡ n = omega (arith, e) in
    let at : item_at xs k ≡ c = ap (item_at xs) same ∙ a in
    omega (arith, count-swap_remove ch k xs (omega (arith, e, h)), ap (λ x. one_if (x == ch)) at)
