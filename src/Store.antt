-- ===== src/Store.antt =====
-- datastore/store.go, DSReaderWriter: the operations that the CRDTs and the clock are written over.
-- The store behind them and go-datastore's `NewKey` are other code: a store is a list of entries, a
-- `Backend` says which operations fail and how `NewKey` cleans a path.
pub mod Laws
pub mod Parts
pub mod Txn
use defradg.Prelude.{
  Bytes, Bool, true, false, List, [], ◌∷◌, ◌++◌, Option, none, some, bytes_eq, has_prefix,
  if◌then◌else◌, Result, ok, err, io_failure, not_found,
}
use defradg.Prelude.Exec.{Exec}
use defradg.Keys.{slash}

pub data Op : Type 0 where
  get_op put_op has_op delete_op query_op next_op : Op

pub record Backend : Type 0 where
  pub new_key : Bytes → Bytes
  pub fails : Op → Bytes → Bool

abbrev pub Store : Type 0
Store = List (Bytes × Bytes)

unfoldable pub find : Bytes → Store → Option Bytes
find k [] = none
find k ((j, v) ∷ s) = if bytes_eq j k then some v else find k s

unfoldable pub insert : Bytes → Bytes → Store → Store
insert k v [] = (k, v) ∷ []
insert k v ((j, w) ∷ s) = if bytes_eq j k then (k, v) ∷ s else (j, w) ∷ insert k v s

unfoldable pub remove : Bytes → Store → Store
remove k [] = []
remove k ((j, w) ∷ s) = let rest = remove k s in if bytes_eq j k then rest else (j, w) ∷ rest

-- The entries strictly below a path, as a query with that prefix gives them.
unfoldable pub below : Bytes → Store → Store
below p [] = []
below p ((j, w) ∷ s) =
    let rest = below p s in if has_prefix j (p ++ slash ∷ []) then (j, w) ∷ rest else rest

unfoldable pub lookup_result : Option Bytes → Result Bytes
lookup_result none = err not_found
lookup_result (some v) = ok v

unfoldable pub is_some : Option Bytes → Bool
is_some none = false
is_some (some v) = true

module _ (b : Backend) where
  -- `store.Get(ctx, key.ToDS())`, for the text of a key; so are the others.
  unfoldable pub get : Bytes → Exec Store Bytes
  get k s =
      if b.fails get_op (b.new_key k)
      then (err io_failure, s)
      else (lookup_result (find (b.new_key k) s), s)

  unfoldable pub has : Bytes → Exec Store Bool
  has k s =
      if b.fails has_op (b.new_key k)
      then (err io_failure, s)
      else (ok (is_some (find (b.new_key k) s)), s)

  unfoldable pub put : Bytes → Bytes → Exec Store (Unit {0})
  put k v s =
      if b.fails put_op (b.new_key k)
      then (err io_failure, s)
      else (ok tt, insert (b.new_key k) v s)

  unfoldable pub delete : Bytes → Exec Store (Unit {0})
  delete k s =
      if b.fails delete_op (b.new_key k)
      then (err io_failure, s)
      else (ok tt, remove (b.new_key k) s)

  -- The entries are those at the time of the query. Whether each is read well is up to `next_op`.
  unfoldable pub query : Bytes → Exec Store Store
  query p s =
      if b.fails query_op (b.new_key p)
      then (err io_failure, s)
      else (ok (below (b.new_key p) s), s)
