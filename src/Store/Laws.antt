-- ===== src/Store/Laws.antt =====
-- What a store shows after a write, and its operations where the storage does not fail.
use defradg.Prelude.{
  ◌≡◌, refl, Bytes, false, [], ◌∷◌, none, some, bytes_eq, bytes_eq_iff, arith, if◌then◌else◌, ok,
}
use defradg.Store.{
  Op, get_op, put_op, has_op, delete_op, query_op, Backend, Store, find, insert, remove,
  lookup_result, is_some, get, has, put, delete, query, below,
}

pub find-insert :
    (k j v : Bytes) (s : Store)
    → find j (insert k v s) ≡ (if bytes_eq k j then some v else find j s)
unfolding find insert
find-insert k j v [] = refl
find-insert k j v ((i, w) ∷ s) =
    ground (arith, bytes_eq_iff k j, bytes_eq_iff i k, bytes_eq_iff i j, find-insert k j v s)

pub find-remove :
    (k j : Bytes) (s : Store) → find j (remove k s) ≡ (if bytes_eq k j then none else find j s)
unfolding find remove
find-remove k j [] = ground arith
find-remove k j ((i, w) ∷ s) =
    ground (arith, bytes_eq_iff k j, bytes_eq_iff i k, bytes_eq_iff i j, find-remove k j s)

-- No operation fails, and `NewKey` leaves the path as it is.
pub record IsHealthy (b : Backend) (k : Bytes) : Type 0 where
  pub works : (o : Op) → b.fails o k ≡ false
  pub clean : b.new_key k ≡ k

module _ (b : Backend) (k : Bytes) (s : Store) (h : IsHealthy b k) where
  pub get_healthy : get b k s ≡ (lookup_result (find k s), s)
  unfolding get
  get_healthy = rw h.clean (rw (h.works get_op))

  pub has_healthy : has b k s ≡ (ok (is_some (find k s)), s)
  unfolding has
  has_healthy = rw h.clean (rw (h.works has_op))

  pub put_healthy : (v : Bytes) → put b k v s ≡ (ok tt, insert k v s)
  unfolding put
  put_healthy v = rw h.clean (rw (h.works put_op))

  pub delete_healthy : delete b k s ≡ (ok tt, remove k s)
  unfolding delete
  delete_healthy = rw h.clean (rw (h.works delete_op))

  pub query_healthy : query b k s ≡ (ok (below k s), s)
  unfolding query
  query_healthy = rw h.clean (rw (h.works query_op))
