-- ===== src/Store/Parts.antt =====
-- Stores below a path, and stores of two parts.
use defradg.Prelude.{
  ◌≡◌, refl, ap, Bytes, Bool, true, false, [], ◌∷◌, ◌++◌, All, arith, bytes_eq, bytes_eq_iff,
  has_prefix,
}
use defradg.Keys.{slash}
use defradg.Store.{Store, find, insert, remove, below, is_some}

-- Writes below a path, and those elsewhere.
module _ (p : Bytes) where
  abbrev pub under : Bytes → Bool
  under k = has_prefix k (p ++ slash ∷ [])

  pub find-below : (k : Bytes) (s : Store) → under k ≡ true → find k (below p s) ≡ find k s
  unfolding find below
  find-below k [] h = refl
  find-below k ((j, w) ∷ s) h = ground (arith, bytes_eq_iff j k, ap under, find-below k s h)

  pub below-insert :
      (k v : Bytes) (s : Store) → under k ≡ true → below p (insert k v s) ≡ insert k v (below p s)
  unfolding insert below
  below-insert k v [] h = ground arith
  below-insert k v ((j, w) ∷ s) h = ground (arith, bytes_eq_iff j k, ap under, below-insert k v s h)

  pub below-remove : (k : Bytes) (s : Store) → below p (remove k s) ≡ remove k (below p s)
  unfolding remove below
  below-remove k [] = refl
  below-remove k ((j, w) ∷ s) = ground (arith, below-remove k s)

-- Writes to a store of two parts.
pub remove-append : (k : Bytes) (s t : Store) → remove k (s ++ t) ≡ remove k s ++ remove k t
unfolding remove
remove-append k [] t = refl
remove-append k ((j, w) ∷ s) t = ground (arith, remove-append k s t)

pub remove-absent : (k : Bytes) (s : Store) → is_some (find k s) ≡ false → remove k s ≡ s
unfolding remove find is_some
remove-absent k [] h = refl
remove-absent k ((j, w) ∷ s) h = ground (arith, remove-absent k s)

-- `insert` at a key that the first part lacks.
pub insert-append :
    (k v : Bytes) (s t : Store)
    → All (λ e. bytes_eq e.0 k ≡ false) s
    → insert k v (s ++ t) ≡ s ++ insert k v t
unfolding insert
insert-append k v [] t h = refl
insert-append k v ((j, w) ∷ s) t h = rw (h.0, insert-append k v s t h.1) refl
