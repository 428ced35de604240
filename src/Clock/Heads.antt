-- ===== src/Clock/Heads.antt =====
-- merkle/clock/heads.go, List: the heads that are stored, and the greatest of their heights.
use mathlib.Core.List.Perm
use mathlib.Core.List.{Perm}
use defradg.Prelude.{
  ℕ, ◌^◌, ◌≤◌, ◌<◌, ◌≡◌, refl, Bytes, Bool, true, false, ◌||◌, List, [], ◌∷◌, All, arith, Lacks,
  bytes_lt, ltb, ◌==◌, if◌then◌else◌, Result, ok, Bool-cases, inl, inr,
}
use defradg.Keys.{HeadStoreKey, head_to_string, head_with_cid, slash}
use defradg.Keys.RoundTrip.{IsSegment, new_head_store_key-head_to_string}
use defradg.Varint.{put_uvarint, uvarint-put_uvarint}
use defradg.Store.{Backend, Store, below, next_op}
use defradg.Store.Laws.{IsHealthy, query_healthy}
use defradg.Clock.{height_of, key, heads_of, insert_head, sort_heads, list}

-- A number is at least the heights of heads, and is one of them, or 0.
abbrev pub among : {Cid : Type 0} → ℕ → List (Cid × ℕ) → Bool
among g [] = false
among g ((c, n) ∷ hs) = n == g || among g hs

pub record IsHighest {Cid : Type 0} (g : ℕ) (hs : List (Cid × ℕ)) : Type 0 where
  pub bound : All (λ h. h.1 ≤ g) hs
  pub reached : (g == 0 || among g hs) ≡ true

abbrev pub cids : {Cid : Type 0} → List (Cid × ℕ) → List Cid
cids [] = []
cids ((c, n) ∷ hs) = c ∷ cids hs

-- The result of List is no error, and is these heads with the greatest of their heights.
pub data Lists {Cid : Type 0} (hs : List (Cid × ℕ)) : Result (List Cid × ℕ) → Type 0 where
  lists : {cs : List Cid} {g : ℕ} → Perm cs (cids hs) → IsHighest g hs → Lists hs (ok (cs, g))

-- The greatest of a number and the heights of heads.
abbrev pub highest : {Cid : Type 0} → ℕ → List (Cid × ℕ) → ℕ
highest m [] = m
highest m ((c, n) ∷ hs) = highest (if ltb m n then n else m) hs

highest-le : {Cid : Type 0} (m : ℕ) (hs : List (Cid × ℕ)) → m ≤ highest m hs
highest-le m [] = omega arith
highest-le m ((c, n) ∷ hs) = ground (arith, highest-le (if ltb m n then n else m) hs)

highest-All : {Cid : Type 0} (m : ℕ) (hs : List (Cid × ℕ)) → All (λ h. h.1 ≤ highest m hs) hs
highest-All m [] = tt
highest-All m ((c, n) ∷ hs) =
    let k = if ltb m n then n else m in
    (ground (arith, highest-le (if ltb m n then n else m) hs), highest-All k hs)

highest-among :
    {Cid : Type 0} (m : ℕ) (hs : List (Cid × ℕ))
    → (highest m hs == m || among (highest m hs) hs) ≡ true
highest-among m [] = ground arith
highest-among m ((c, n) ∷ hs) = ground (arith, highest-among (if ltb m n then n else m) hs)

height_of-put_uvarint : (n : ℕ) → n < 2 ^ 64 → height_of (put_uvarint n) ≡ ok n
height_of-put_uvarint n h = rw (uvarint-put_uvarint n h, height_of) refl

module _ {Cid : Type 0} (cid_bytes : Cid → Bytes) where
  insert_head-perm : (c : Cid) (cs : List Cid) → Perm (insert_head cid_bytes c cs) (c ∷ cs)
  unfolding insert_head
  insert_head-perm c [] = Perm.refl (c ∷ [])
  insert_head-perm c (d ∷ ds) = elim (Bool-cases (bytes_lt (cid_bytes d) (cid_bytes c))) [
    | inl e ↦ rw e (Perm.trans (Perm.cons d (insert_head-perm c ds)) (Perm.swap c d ds))
    | inr e ↦ rw e (Perm.refl (c ∷ d ∷ ds))
  ]

  sort_heads-perm : (cs : List Cid) → Perm (sort_heads cid_bytes cs) cs
  unfolding sort_heads
  sort_heads-perm [] = Perm.refl []
  sort_heads-perm (c ∷ cs) =
      Perm.trans (insert_head-perm c (sort_heads cid_bytes cs)) (Perm.cons c (sort_heads-perm cs))

module _ {Cid : Type 0} (cid_string : Cid → Bytes) (cid_decode : Bytes → Result Cid)
    (decode-string : (c : Cid) → cid_decode (cid_string c) ≡ ok c)
    (string-Lacks : (c : Cid) → Lacks slash (cid_string c)) (b : Backend) (ns : HeadStoreKey Cid)
    (cid_bytes : Cid → Bytes) where
  -- The entries under which heads with their heights are stored.
  abbrev pub entries : List (Cid × ℕ) → Store
  entries [] = []
  entries ((c, n) ∷ hs) = (key cid_string cid_decode b ns c, put_uvarint n) ∷ entries hs

  -- A head that a query reads, with a height of 64 bits.
  pub record IsReadable (h : Cid × ℕ) : Type 0 where
    pub small : h.1 < 2 ^ 64
    pub works : b.fails next_op (key cid_string cid_decode b ns h.0) ≡ false

  heads_of-entries :
      (hs : List (Cid × ℕ)) (m : ℕ) (s : Store)
      → IsSegment ns.doc_key
      → IsSegment ns.field_id
      → All IsReadable hs
      → heads_of cid_string cid_decode b ns (entries hs) m s ≡ (ok (cids hs, highest m hs), s)
  unfolding heads_of key head_with_cid
  heads_of-entries [] m s d f h = refl
  heads_of-entries ((c, n) ∷ hs) m s d f h =
      let p =
        new_head_store_key-head_to_string cid_string cid_decode decode-string string-Lacks
          (head_with_cid ns c) c refl d f in
      rw
        (
          h.0.works,
          p,
          height_of-put_uvarint n h.0.small,
          heads_of-entries hs (if ltb m n then n else m) s d f h.1,
        )
        refl

  pub list_works :
      (hs : List (Cid × ℕ)) (s : Store)
      → IsSegment ns.doc_key
      → IsSegment ns.field_id
      → IsHealthy b (head_to_string cid_string cid_decode ns)
      → All IsReadable hs
      → below (head_to_string cid_string cid_decode ns) s ≡ entries hs
      → list cid_string cid_decode b ns cid_bytes s
        ≡ (ok (sort_heads cid_bytes (cids hs), highest 0 hs), s)
  unfolding list
  list_works hs s d f w h e =
      rw
        (
          query_healthy b (head_to_string cid_string cid_decode ns) s w,
          e,
          heads_of-entries hs 0 s d f h,
        )
        refl

  -- Where the storage works, and below the path of a field's heads stand heads and nothing else, List
  -- gives the heads, in some order, and a height that is at least all of theirs and is one of them or 0.
  pub list-entries :
      (hs : List (Cid × ℕ)) (s : Store)
      → IsSegment ns.doc_key
      → IsSegment ns.field_id
      → IsHealthy b (head_to_string cid_string cid_decode ns)
      → All IsReadable hs
      → below (head_to_string cid_string cid_decode ns) s ≡ entries hs
      → Lists hs (list cid_string cid_decode b ns cid_bytes s).0
  list-entries hs s d f w h e = rw (list_works hs s d f w h e) (
      lists (sort_heads-perm cid_bytes (cids hs))
        (record { bound = highest-All 0 hs; reached = highest-among 0 hs }))
