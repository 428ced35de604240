-- ===== src/Memory/Tree.antt =====
-- github.com/tidwall/btree is other code: an ordered tree is its operations, with what its
-- documentation says of them in terms of the items in ascending order.
use defradg.Prelude.{◌≡◌, Bool, true, List, [], ◌∷◌, Option, none, some, All, if◌then◌else◌}

-- Every item is less than all behind it.
abbrev pub IsSorted : {A : Type 0} → (A → A → Bool) → List A → Type 0
IsSorted less [] = Unit
IsSorted less (x ∷ xs) = All (λ y. less x y ≡ true) xs × IsSorted less xs

module _ {A : Type 0} (less : A → A → Bool) where
  -- An item goes to its place, and takes that of an item which is neither less nor greater.
  abbrev pub list_set : A → List A → List A
  list_set x [] = x ∷ []
  list_set x (y ∷ ys) =
      let rest = list_set x ys in
      if less x y then x ∷ y ∷ ys else if less y x then y ∷ rest else x ∷ ys

  abbrev pub list_delete : A → List A → List A
  list_delete x [] = []
  list_delete x (y ∷ ys) =
      let rest = list_delete x ys in
      if less x y then y ∷ rest else if less y x then y ∷ rest else ys

  -- The greatest item that is not greater than the pivot.
  abbrev pub last_upto : A → List A → Option A
  last_upto p [] = none
  last_upto p (x ∷ xs) = elim (last_upto p xs) [
    | some y ↦ some y
    | none ↦ if less p x then none else some x
  ]

pub record Btree (A : Type 0) (less : A → A → Bool) : Type 1 where
  pub Tree : Type 0
  pub empty : Tree
  -- the items that `Iter` goes through, in its order
  pub items : Tree → List A
  pub set : Tree → A → Tree
  pub delete : Tree → A → Tree
  -- the first item that `Descend` calls its function on
  pub descend : Tree → A → Option A
  pub items_sorted : (t : Tree) → IsSorted less (items t)
  pub items-empty : items empty ≡ []
  pub items-set : (t : Tree) (x : A) → items (set t x) ≡ list_set less x (items t)
  pub items-delete : (t : Tree) (x : A) → items (delete t x) ≡ list_delete less x (items t)
  pub descend_lem : (t : Tree) (p : A) → descend t p ≡ last_upto less p (items t)
