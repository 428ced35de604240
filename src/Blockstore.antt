-- ===== src/Blockstore.antt =====
-- datastore/blockstore.go: the blocks of the DAG, stored under their hashes. The hash of a Cid, whether
-- it is defined, and `Prefix().Sum` are go-cid's.
use defradg.Prelude.{
  Bytes, Bool, false, List, [], ◌∷◌, Result, ok, err, Error, is_not_found, block_not_found,
  hash_mismatch, if◌then◌else◌,
}
use defradg.Prelude.Exec.{Exec, pure, raise, attempt, wrap, ◌>>=◌, ◌>>◌}
use defradg.Store
use defradg.Store.{Backend}

pub record Block (Cid : Type 0) : Type 0 where
  pub cid : Cid
  pub raw_data : Bytes

-- `err == nil && exists`
abbrev is_stored : Result Bool → Bool
is_stored (ok exists) = exists
is_stored (err e) = false

-- `if errors.Is(err, ds.ErrNotFound) { return nil, ipld.ErrNotFound{Cid: k} }`
abbrev no_block : Error → Error
no_block e = if is_not_found e then block_not_found else e

-- `store` is the store behind it, and `hash_key` the text of `dshelp.MultihashToDsKey(k.Hash())`.
module _ {Cid : Type 0} (store : Backend) (hash_key : Cid → Bytes) where
  unfoldable pub has : Cid → Exec Store.Store Bool
  has k = Store.has store (hash_key k)

  unfoldable pub put : Block Cid → Exec Store.Store (Unit {0})
  put block = do
    exists ← attempt (Store.has store (hash_key block.cid))
    if is_stored exists then pure tt else Store.put store (hash_key block.cid) block.raw_data

  unfoldable pub put_many : List (Block Cid) → Exec Store.Store (Unit {0})
  put_many [] = pure tt
  put_many (block ∷ blocks) = do
    exists ← attempt (Store.has store (hash_key block.cid))
    if is_stored exists then pure tt else Store.put store (hash_key block.cid) block.raw_data
    put_many blocks

  unfoldable pub delete_block : Cid → Exec Store.Store (Unit {0})
  delete_block k = Store.delete store (hash_key k)

  -- `sum k bdata` is `k.Prefix().Sum(bdata)`, and `equals` compares two Cids.
  module _ (defined : Cid → Bool) (sum : Cid → Bytes → Result Cid) (equals : Cid → Cid → Bool)
      (rehash : Bool) where
    unfoldable pub checked : Cid → Bytes → Result (Block Cid)
    checked k bdata =
        if rehash
        then elim (sum k bdata) [
          | err e ↦ err e
          | ok rbcid ↦
              if equals rbcid k
              then ok (record { cid = rbcid; raw_data = bdata })
              else err hash_mismatch
        ]
        else ok (record { cid = k; raw_data = bdata })

    unfoldable pub get : Cid → Exec Store.Store (Block Cid)
    get k =
        if defined k
        then (do bdata ← wrap no_block (Store.get store (hash_key k)); λ s. (checked k bdata, s))
        else raise block_not_found
