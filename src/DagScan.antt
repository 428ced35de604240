-- ===== src/DagScan.antt =====
-- planner/commit.go and db/fetcher/dag.go: the scan of the DAG of commits from its heads. A Cid is its
-- text. What Next makes of a block, the fields of a commit, is a parameter.
pub mod Reached
pub mod Tests
use defradg.Prelude.{
  ℕ, zero, suc, ◌+◌, Bytes, codes, Bool, true, false, not, ◌||◌, List, [], ◌∷◌, ◌++◌, reverse,
  Option, none, some, ltb, bytes_eq, if◌then◌else◌, Error, Result, ok, err, panic, ◌>>=◌,
}
use defradg.Keys.{HeadStoreKey, new_head_store_key}

-- FetchNext of the heads: over the results of its query, keys of heads.
module _ (cid_string : Bytes → Bytes) (cid_decode : Bytes → Result Bytes) where
  abbrev wanted : Option Bytes → HeadStoreKey Bytes → Bool
  wanted none k = true
  wanted (some f) k = bytes_eq f k.field_id

  unfoldable pub fetch_next_head :
      Option Bytes → List (Result Bytes) → Result (Option Bytes) × List (Result Bytes)
  fetch_next_head field [] = (ok none, [])
  fetch_next_head field (err e ∷ rs) = (err e, rs)
  fetch_next_head field (ok k ∷ rs) =
      let rest = fetch_next_head field rs in
      elim (new_head_store_key cid_string cid_decode k) [
        | err e ↦ (err e, rs)
        | ok key ↦ if wanted field key then (ok key.cid, rs) else rest
      ]

-- `n.visitedNodes[c]`
unfoldable pub has : Bytes → List Bytes → Bool
has c [] = false
has c (d ∷ ds) = bytes_eq d c || has c ds

-- What is asked for: a depth, and a Cid.
pub record CommitSelect : Type 0 where
  pub depth : Option ℕ
  pub cid : Option Bytes

-- `fetched` is what FetchNext gives of the heads.
pub record DagScanNode : Type 0 where
  pub depth_visited : ℕ
  pub visited_nodes : List Bytes
  pub queued_cids : List Bytes
  pub fetched : List (Result Bytes)

abbrev pub dag_scan : List (Result Bytes) → DagScanNode
dag_scan fetched = record {
  depth_visited = 0;
  visited_nodes = [];
  queued_cids = [];
  fetched = fetched;
}

-- The links of a block that are named "_head".
unfoldable pub head_links : List (Bytes × Bytes) → List Bytes
head_links [] = []
head_links ((name, cid) ∷ ls) =
    let rest = head_links ls in if bytes_eq name (codes "_head") then cid ∷ rest else rest

-- The result of Next, or that it calls itself.
pub data Outcome (Commit : Type 0) : Type 0 where
  done again : Outcome Commit
  failed : Error → Outcome Commit
  found : Commit → Outcome Commit

-- `store.Get`, with the commit of a block, and its links.
module _ {Commit : Type 0} (read_block : Bytes → Result (Commit × List (Bytes × Bytes)))
    (select : CommitSelect) where
  -- `!Depth.HasValue() || depthVisited < Depth.Value()`
  abbrev goes_deeper : Option ℕ → ℕ → Bool
  goes_deeper none visited = true
  goes_deeper (some depth) visited = ltb visited depth

  abbrev is_selected : Option Bytes → Bytes → Bool
  is_selected none c = true
  is_selected (some cid) c = bytes_eq c cid

  -- A block that has been read.
  abbrev visited :
      Bytes → DagScanNode → Result (Commit × List (Bytes × Bytes)) → Outcome Commit × DagScanNode
  visited c n (err e) = (failed e, n)
  visited c n (ok (commit, links)) = (
    (if is_selected select.cid c then found commit else again),
    record n {
      depth_visited = suc n.depth_visited;
      visited_nodes = c ∷ n.visited_nodes;
      queued_cids =
          if goes_deeper select.depth (suc n.depth_visited)
          then reverse (head_links links) ++ n.queued_cids
          else n.queued_cids;
    },
  )

  unfoldable pub visit : Bytes → DagScanNode → Outcome Commit × DagScanNode
  visit c n = if has c n.visited_nodes then (again, n) else visited c n (read_block c)

  abbrev fetch : List (Result Bytes) → DagScanNode → Outcome Commit × DagScanNode
  fetch [] n = (done, n)
  fetch (err e ∷ rest) n = (failed e, record n { fetched = rest })
  fetch (ok c ∷ rest) n = visit c (record n { fetched = rest; depth_visited = 0 })

  abbrev take_next : List Bytes → DagScanNode → Outcome Commit × DagScanNode
  take_next [] n = fetch n.fetched n
  take_next (c ∷ cs) n = visit c (record n { queued_cids = cs })

  -- The body of Next.
  unfoldable pub next : DagScanNode → Outcome Commit × DagScanNode
  next n = take_next n.queued_cids n

  abbrev pub scanned :
      (DagScanNode → Result (List Commit)) → Outcome Commit × DagScanNode → Result (List Commit)
  scanned rest (done, n) = ok []
  scanned rest (again, n) = rest n
  scanned rest (failed e, n) = err e
  scanned rest (found x, n) = rest n >>= (λ xs. ok (x ∷ xs))

  -- Next until it is done, where a call of itself is one more round.
  unfoldable pub scan : ℕ → DagScanNode → Result (List Commit)
  scan zero n = err panic
  scan (suc rounds) n = let rest = scan rounds in scanned rest (next n)
