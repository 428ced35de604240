-- ===== src/Memory/Model.antt =====
-- A tree over a sorted list: what is asked of an ordered tree can be met.
use defradg.Prelude.{◌≡◌, refl, Bool, true, false, List, [], ◌∷◌, All, Bool-cases, inl, inr}
use defradg.Memory.Tree.{Btree, IsSorted, list_set, list_delete, last_upto}

-- An order of which equals are before the same items.
pub record IsOrder {A : Type 0} (less : A → A → Bool) : Type 0 where
  pub trans : (x y z : A) → less x y ≡ true → less y z ≡ true → less x z ≡ true
  pub same_left :
      (x y z : A) → less x y ≡ false → less y x ≡ false → less y z ≡ true → less x z ≡ true

module _ {A : Type 0} (less : A → A → Bool) (o : IsOrder less) where
  All-map : {P Q : A → Type 0} (xs : List A) → ((x : A) → P x → Q x) → All P xs → All Q xs
  All-map [] f h = tt
  All-map (x ∷ xs) f h = (f x h.0, All-map xs f h.1)

  All-set : (P : A → Type 0) (x : A) (xs : List A) → P x → All P xs → All P (list_set less x xs)
  All-set P x [] h hs = (h, tt)
  All-set P x (y ∷ ys) h hs = elim (Bool-cases (less x y)) [
    | inl p ↦ rw p (h, hs)
    | inr p ↦ elim (Bool-cases (less y x)) [
      | inl q ↦ rw p (rw q (hs.0, All-set P x ys h hs.1))
      | inr q ↦ rw p (rw q (h, hs.1))
    ]
  ]

  pub set-IsSorted : (x : A) (xs : List A) → IsSorted less xs → IsSorted less (list_set less x xs)
  set-IsSorted x [] h = (tt, tt)
  set-IsSorted x (y ∷ ys) h = elim (Bool-cases (less x y)) [
    | inl p ↦ rw p ((p, All-map ys (λ z. o.trans x y z p) h.0), h)
    | inr p ↦ elim (Bool-cases (less y x)) [
      | inl q ↦ rw p (rw q (All-set (λ z. less y z ≡ true) x ys q h.0, set-IsSorted x ys h.1))
      | inr q ↦ rw p (rw q (All-map ys (λ z. o.same_left x y z p q) h.0, h.1))
    ]
  ]

  All-delete : (P : A → Type 0) (x : A) (xs : List A) → All P xs → All P (list_delete less x xs)
  All-delete P x [] hs = tt
  All-delete P x (y ∷ ys) hs = elim (Bool-cases (less x y)) [
    | inl p ↦ rw p (hs.0, All-delete P x ys hs.1)
    | inr p ↦ elim (Bool-cases (less y x)) [
      | inl q ↦ rw p (rw q (hs.0, All-delete P x ys hs.1))
      | inr q ↦ rw p (rw q hs.1)
    ]
  ]

  pub delete-IsSorted :
      (x : A) (xs : List A) → IsSorted less xs → IsSorted less (list_delete less x xs)
  delete-IsSorted x [] h = tt
  delete-IsSorted x (y ∷ ys) h = elim (Bool-cases (less x y)) [
    | inl p ↦ rw p (All-delete (λ z. less y z ≡ true) x ys h.0, delete-IsSorted x ys h.1)
    | inr p ↦ elim (Bool-cases (less y x)) [
      | inl q ↦ rw p (rw q (All-delete (λ z. less y z ≡ true) x ys h.0, delete-IsSorted x ys h.1))
      | inr q ↦ rw p (rw q h.1)
    ]
  ]

  abbrev pub sorted_tree : Btree A less
  sorted_tree = record {
    Tree = (xs : List A) × IsSorted less xs;
    empty = ([], tt);
    items = λ t. t.0;
    set = λ t x. (list_set less x t.0, set-IsSorted x t.0 t.1);
    delete = λ t x. (list_delete less x t.0, delete-IsSorted x t.0 t.1);
    descend = λ t p. last_upto less p t.0;
    items_sorted = λ t. t.1;
    items-empty = refl;
    items-set = λ t x. refl;
    items-delete = λ t x. refl;
    descend_lem = λ t p. refl;
  }
