-- ===== src/Clock.antt =====
-- merkle/clock: the heads of a Merkle DAG, and the processing of a node that joins it.
pub mod Heads
pub mod Tests
pub mod Process
pub mod Node
pub mod Add
pub mod Single
pub mod Advance
pub mod Grow
use defradg.Prelude.{
  ℕ, Bytes, codes, Bool, true, false, ◌||◌, List, [], ◌∷◌, ◌++◌, Option, none, some, bytes_eq,
  bytes_lt, ltb, if◌then◌else◌, Error, Result, ok, err, decoding_height, adding_head, checking_head,
  replacing_head, could_not_find_block, merging_delta, failed_to_get_next_q_result, io_failure,
}
use defradg.Prelude.Exec.{Exec, pure, raise, attempt, wrap, ◌>>=◌, ◌>>◌}
use defradg.Keys.{HeadStoreKey, head_to_string, head_with_cid, new_head_store_key}
use defradg.Varint.{put_uvarint, uvarint}
use defradg.Store.{Backend, Store, get, put, has, delete, query, next_op}
use defradg.Crdt.{DagLink}

-- `l.Name == "_head"`
unfoldable pub has_heads : {Cid : Type 0} → List (DagLink Cid) → Bool
has_heads [] = false
has_heads (l ∷ ls) = bytes_eq l.name (codes "_head") || has_heads ls

abbrev pub height_of : Bytes → Result ℕ
height_of v = elim (uvarint v) [ none ↦ err decoding_height | some n ↦ ok n ]

-- `append(heads, headKey.Cid)`; a key that is read always has a Cid.
abbrev with_head : {Cid : Type 0} → HeadStoreKey Cid → List Cid × ℕ → List Cid × ℕ
with_head k (cs, n) = elim k.cid [ none ↦ (cs, n) | some c ↦ (c ∷ cs, n) ]

module _ {Cid : Type 0} (cid_bytes : Cid → Bytes) where
  -- `sort.Slice` by the bytes of the Cid.
  unfoldable pub insert_head : Cid → List Cid → List Cid
  insert_head c [] = c ∷ []
  insert_head c (d ∷ ds) =
      let rest = insert_head c ds in
      if bytes_lt (cid_bytes d) (cid_bytes c) then d ∷ rest else c ∷ d ∷ ds

  unfoldable pub sort_heads : List Cid → List Cid
  sort_heads [] = []
  sort_heads (c ∷ cs) = insert_head c (sort_heads cs)

-- The heads are stored under `namespace`; `cid_bytes` is `Cid.Bytes`.
module _ {Cid : Type 0} (cid_string : Cid → Bytes) (cid_decode : Bytes → Result Cid) (b : Backend)
    (namespace : HeadStoreKey Cid) where
  unfoldable pub key : Cid → Bytes
  key c = head_to_string cid_string cid_decode (head_with_cid namespace c)

  unfoldable pub write : Cid → ℕ → Exec Store (Unit {0})
  write c height = put b (key c) (put_uvarint height)

  unfoldable pub is_head : Cid → Exec Store Bool
  is_head c = has b (key c)

  unfoldable pub replace : Cid → Cid → ℕ → Exec Store (Unit {0})
  replace old new height = do delete b (key old); write new height

  -- The loop of List over the results, with the greatest height so far.
  unfoldable pub heads_of : Store → ℕ → Exec Store (List Cid × ℕ)
  heads_of [] max_height = pure ([], max_height)
  heads_of ((j, v) ∷ entries) max_height =
      if b.fails next_op j then raise (failed_to_get_next_q_result io_failure) else do
        head_key ← λ s. (new_head_store_key cid_string cid_decode j, s)
        height ← λ s. (height_of v, s)
        rest ← heads_of entries (if ltb max_height height then height else max_height)
        pure (with_head head_key rest)

  unfoldable pub list : (Cid → Bytes) → Exec Store (List Cid × ℕ)
  list cid_bytes = do
    entries ← query b (head_to_string cid_string cid_decode namespace)
    found ← heads_of entries 0
    pure (sort_heads cid_bytes found.0, found.1)

  -- The rest of ProcessNode, for a node `root` at a height; `known` is `dagstore.Has`.
  module _ (known : Cid → Result Bool) (root : Cid) (height : ℕ) where
    -- A link that is no head: the root is a head if its block is here, and otherwise it is a child.
    -- The error of this Write is only logged.
    unfoldable pub scan_block : Cid → Exec Store (List Cid)
    scan_block c = do
      here ← wrap could_not_find_block (λ s. (known c, s))
      if here then (do attempt (write root height); pure []) else pure (c ∷ [])

    unfoldable pub scan_link : Cid → Exec Store (List Cid)
    scan_link c = do
      head ← wrap checking_head (is_head c)
      if head then (do wrap replacing_head (replace c root height); pure []) else scan_block c

    unfoldable pub scan_links : List (DagLink Cid) → Exec Store (List Cid)
    scan_links [] = pure []
    scan_links (l ∷ ls) = do
      children ← scan_link l.cid
      rest ← scan_links ls
      pure (children ++ rest)

    -- The heads of ProcessNode, behind the merge of the delta.
    unfoldable pub process_heads : List (DagLink Cid) → Exec Store (List Cid)
    process_heads links = do
      if has_heads links then pure tt else wrap adding_head (write root height)
      scan_links links

    -- ProcessNode: the state of the CRDT beside the heads, `merge` being its Merge of the delta.
    unfoldable pub process_node :
        {D : Type 0} → Exec D (Unit {0}) → List (DagLink Cid) → Exec (D × Store) (List Cid)
    process_node merge links (d, s) =
        let (r, d') = wrap merging_delta merge d in
        elim r [
          | err e ↦ (err e, (d', s))
          | ok _ ↦ (let (cs, s') = process_heads links s in (cs, (d', s')))
        ]
