-- ===== src/Clock/Tests.antt =====
-- merkle/clock on a concrete headstore, and the theorems of Clock at it.
use defradg.Prelude.{
  ℕ, ◌≡◌, refl, Bytes, codes, Bool, true, false, not, ◌||◌, List, [], ◌∷◌, All, none, Result, ok,
  arith, bytes_eq, Lacks,
}
use defradg.Keys.{HeadStoreKey, head_to_string, head_with_cid, slash}
use defradg.Varint.{put_uvarint}
use defradg.Store.{Backend, Store, find, insert, below}
use defradg.Store.Laws.{IsHealthy}
use defradg.Crdt.{DagLink}
use defradg.Clock.{has_heads, key, process_heads, list}
use defradg.Clock.Heads.{entries, Lists, list-entries}
use defradg.Clock.Process.{Fits, Gives, head_value, reaches_any, process_heads_lem}

abbrev sound : Backend
sound = record { new_key = λ k. k; fails = λ o k. false }

IsHealthy-at : (k : Bytes) → IsHealthy sound k
IsHealthy-at k = record { works = λ o. refl; clean = refl }

abbrev place : HeadStoreKey Bytes
place = record { doc_key = codes "doc"; field_id = codes "1"; cid = none }

-- Blocks whose Cid has one byte are here.
abbrev known : Bytes → Result Bool
known (x ∷ []) = ok true
known _ = ok false

abbrev text : Bytes → Bytes
text c = key (λ x. x) ok sound place c

-- One head, `a`.
abbrev start : Store
start = insert (text (codes "a")) (put_uvarint 1) []

abbrev links : List (DagLink Bytes)
links =
    record { name = codes "_head"; cid = codes "a" }
    ∷ record { name = codes "name"; cid = codes "far" }
    ∷ []

fits : All (Fits (λ x. x) ok sound place known (codes "r") 2) links
unfolding key head_to_string head_with_cid
fits = (
  record { healthy = IsHealthy-at _; here = true; found = refl; below = refl },
  (record { healthy = IsHealthy-at _; here = false; found = refl; below = refl }, tt),
)

process_heads_lem_example :
    Gives
      (λ x. x)
      ok
      sound
      place
      known
      (codes "r")
      2
      (IsHealthy-at (text (codes "r")))
      (process_heads (λ x. x) ok sound place known (codes "r") 2 links start).0
    × ((j : Bytes)
        → find j (process_heads (λ x. x) ok sound place known (codes "r") 2 links start).1
          ≡ head_value
              (λ x. x)
              ok
              sound
              place
              known
              (codes "r")
              2
              (not (has_heads links)
                || reaches_any (λ x. x) ok sound place known (codes "r") 2 start links)
              links
              start
              j)
process_heads_lem_example =
    process_heads_lem (λ x. x) ok sound place known (codes "r") 2 (IsHealthy-at (text (codes "r")))
      links start fits

-- Two Cids.
abbrev string : Bool → Bytes
string true = codes "a"
string false = codes "b"

abbrev decode : Bytes → Result Bool
decode s = ok (bytes_eq s (codes "a"))

decode-string : (c : Bool) → decode (string c) ≡ ok c
decode-string true = refl
decode-string false = refl

string-Lacks : (c : Bool) → Lacks slash (string c)
string-Lacks true = (omega arith, tt)
string-Lacks false = (omega arith, tt)

abbrev field : HeadStoreKey Bool
field = record { doc_key = codes "doc"; field_id = codes "1"; cid = none }

abbrev heads : List (Bool × ℕ)
heads = (false, 3) ∷ (true, 1) ∷ []

abbrev stored : Store
stored = entries string decode decode-string string-Lacks sound field string heads

list-entries_example : Lists heads (list string decode sound field string stored).0
unfolding key head_to_string head_with_cid below
list-entries_example =
    list-entries string decode decode-string string-Lacks sound field string heads stored
      (record { full = refl; plain = (omega arith, (omega arith, (omega arith, tt))) })
      (record { full = refl; plain = (omega arith, tt) })
      (IsHealthy-at (head_to_string string decode field))
      (
        record { small = omega arith; works = refl },
        (record { small = omega arith; works = refl }, tt),
      )
      refl
