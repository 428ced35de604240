-- ===== src/Clock/Process.antt =====
-- merkle/clock/clock.go, ProcessNode: which heads there are after it.
use defradg.Prelude.{
  ℕ, ◌≡◌, refl, ap, ◌∙◌, Bytes, Bool, true, false, not, ◌||◌, List, [], ◌∷◌, ◌++◌, All, Option,
  none, some, arith, bytes_eq, bytes_eq_iff, if◌then◌else◌, Result, ok, err, merging_delta,
  Bool-cases, inl, inr,
}
use defradg.Prelude.Exec.{rewrap_ok}
use defradg.Keys.{HeadStoreKey}
use defradg.Varint.{put_uvarint}
use defradg.Store.{Backend, Store, find, insert, remove, is_some}
use defradg.Store.Laws.{
  IsHealthy, has_healthy, put_healthy, delete_healthy, find-insert, find-remove,
}
use defradg.Crdt.{DagLink}
use defradg.Clock.{
  has_heads, key, write, is_head, replace, scan_block, scan_link, scan_links, process_heads,
  process_node,
}

abbrev here_of : Result Bool → Bool
here_of (ok h) = h
here_of (err e) = false

module _ {Cid : Type 0} (cid_string : Cid → Bytes) (cid_decode : Bytes → Result Cid) (b : Backend)
    (ns : HeadStoreKey Cid) (known : Cid → Result Bool) (root : Cid) (height : ℕ) where
  abbrev pub text : Cid → Bytes
  text c = key cid_string cid_decode b ns c

  -- The storage works at the key of a link, whose block is known to be here or not, and the link is
  -- not to the node itself.
  pub record Fits (l : DagLink Cid) : Type 0 where
    pub healthy : IsHealthy b (text l.cid)
    pub here : Bool
    pub found : known l.cid ≡ ok here
    pub below : bytes_eq (text l.cid) (text root) ≡ false

  -- A link reaches the DAG that is here: it is a head, or its block is known.
  abbrev pub reaches : Store → DagLink Cid → Bool
  reaches s l = is_some (find (text l.cid) s) || here_of (known l.cid)

  -- What stands at a key of the heads behind one link.
  abbrev pub after : Store → DagLink Cid → Store
  after s l =
      if is_some (find (text l.cid) s)
      then insert (text root) (put_uvarint height) (remove (text l.cid) s)
      else if here_of (known l.cid)
      then insert (text root) (put_uvarint height) s
      else s

  abbrev children : Store → DagLink Cid → List Cid
  children s l = if reaches s l then [] else l.cid ∷ []

  -- Whether a key of the heads is that of a link.
  abbrev pub named : List (DagLink Cid) → Bytes → Bool
  named [] j = false
  named (l ∷ ls) j = bytes_eq (text l.cid) j || named ls j

  abbrev pub reaches_any : Store → List (DagLink Cid) → Bool
  reaches_any s [] = false
  reaches_any s (l ∷ ls) = reaches s l || reaches_any s ls

  -- What stands at a key, if the node becomes a head or not.
  abbrev pub head_value : Bool → List (DagLink Cid) → Store → Bytes → Option Bytes
  head_value joins ls s j =
      if bytes_eq (text root) j
      then (if joins then some (put_uvarint height) else find j s)
      else if named ls j
      then none
      else find j s

  is_none : (o : Option Bytes) → is_some o ≡ false → o ≡ none
  unfolding is_some
  is_none none h = refl
  is_none (some v) h = cc

  find-after :
      (l : DagLink Cid) (s : Store) (j : Bytes)
      → Fits l
      → find j (after s l) ≡ head_value (reaches s l) (l ∷ []) s j
  find-after l s j h = ground (
    arith,
    find-insert (text root) j (put_uvarint height) (remove (text l.cid) s),
    find-insert (text root) j (put_uvarint height) s,
    find-remove (text l.cid) j s,
    h.below,
    is_none (find (text l.cid) s),
    bytes_eq_iff (text l.cid) j,
    bytes_eq_iff (text root) j,
  )

  not_here : (l : DagLink Cid) (s : Store) (h : Fits l) → reaches s l ≡ false → h.here ≡ false
  not_here l s h e =
      let q : here_of (known l.cid) ≡ h.here = ap here_of h.found in ground (arith, q)

  after_unreached : (l : DagLink Cid) (s : Store) → reaches s l ≡ false → after s l ≡ s
  after_unreached l s h = ground arith

  abbrev pub after_all : Store → List (DagLink Cid) → Store
  after_all s [] = s
  after_all s (l ∷ ls) = after_all (after s l) ls

  find-after_all :
      (ls : List (DagLink Cid)) (s : Store) (j : Bytes)
      → All Fits ls
      → find j (after_all s ls) ≡ head_value (reaches_any s ls) ls s j
  find-after_all [] s j h = ground arith
  find-after_all (l ∷ ls) s j h = elim (Bool-cases (reaches s l)) [
    | inl e ↦ ground (arith, e, find-after_all ls (after s l) j h.1, find-after l s j h.0)
    | inr e ↦ rw (after_unreached l s e) (
        ground (
          arith,
          e,
          find-after_all ls s j h.1,
          find-after l s j h.0,
          ap (find j) (after_unreached l s e),
        ))
  ]

  module _ (healthy : IsHealthy b (text root)) where
    scan_link_works :
        (l : DagLink Cid) (s : Store)
        → Fits l
        → scan_link cid_string cid_decode b ns known root height l.cid s
          ≡ (ok (children s l), after s l)
    unfolding scan_link scan_block is_head replace write
    scan_link_works l s h = elim (Bool-cases (is_some (find (text l.cid) s))) [
      | inl e ↦
          rw
            (
              has_healthy b _ s h.healthy,
              e,
              delete_healthy b _ s h.healthy,
              put_healthy b (text root) (remove (text l.cid) s) healthy (put_uvarint height),
            )
            refl
      | inr e ↦ elim (Bool-cases h.here) [
        | inl f ↦
            let q : known l.cid ≡ ok true = h.found ∙ ap ok f in
            rw
              (
                has_healthy b _ s h.healthy,
                e,
                q,
                put_healthy b (text root) s healthy (put_uvarint height),
              )
              refl
        | inr f ↦
            let q : known l.cid ≡ ok false = h.found ∙ ap ok f in
            rw (has_healthy b _ s h.healthy, e, q) refl
      ]
    ]

    -- A list of links whose blocks are not here.
    abbrev pub Missing : List Cid → Type 0
    Missing = All (λ c. known c ≡ ok false)

    Missing-children :
        (l : DagLink Cid) (s : Store)
        → Fits l
        → (cs : List Cid) → Missing cs
        → Missing (children s l ++ cs)
    Missing-children l s h cs m = elim (Bool-cases (reaches s l)) [
      | inl e ↦ rw e m
      | inr e ↦ let q : known l.cid ≡ ok false = h.found ∙ ap ok (not_here l s h e) in rw e (q, m)
    ]

    scan_links_works :
        (ls : List (DagLink Cid)) (s : Store)
        → All Fits ls
        → (cs : List Cid) × (scan_links cid_string cid_decode b ns known root height ls s
            ≡ (ok cs, after_all s ls))
          × Missing cs
    unfolding scan_links
    scan_links_works [] s h = ([], refl, tt)
    scan_links_works (l ∷ ls) s h =
        let (cs, e, m) = scan_links_works ls (after s l) h.1 in
        (children s l ++ cs, rw (scan_link_works l s h.0, e) refl, Missing-children l s h.0 cs m)

    -- A result that is no error, and is a list of links whose blocks are not here.
    pub data Gives : Result (List Cid) → Type 0 where
      gives : (cs : List Cid) → Missing cs → Gives (ok cs)

    pub children_of : {r : Result (List Cid)} → Gives r → (cs : List Cid) × (r ≡ ok cs)
    children_of (gives cs m) = (cs, refl)

    pub process_heads-after_all :
        (ls : List (DagLink Cid)) (s : Store)
        → All Fits ls
        → Gives (process_heads cid_string cid_decode b ns known root height ls s).0
          × ((process_heads cid_string cid_decode b ns known root height ls s).1
              ≡ after_all
                  (if has_heads ls then s else insert (text root) (put_uvarint height) s)
                  ls)
    unfolding process_heads write
    process_heads-after_all ls s h = elim (Bool-cases (has_heads ls)) [
      | inl e ↦ let (cs, p, m) = scan_links_works ls s h in (rw (e, p) (gives cs m), rw (e, p) refl)
      | inr e ↦
          let (cs, p, m) = scan_links_works ls (insert (text root) (put_uvarint height) s) h in
          let q = put_healthy b (text root) s healthy (put_uvarint height) in
          (rw (e, q, p) (gives cs m), rw (e, q, p) refl)
    ]

    -- Where the storage works, the links are not to the node itself, and it is known of each block
    -- whether it is here, ProcessNode leaves these heads: the node is one if it has no link to a head
    -- or one of its links is to a head or to a block that is here (and if it was one before); what it
    -- links to is none; and all others are as before. Its children are links to blocks that are not
    -- here.
    pub process_heads_lem :
        (ls : List (DagLink Cid)) (s : Store)
        → All Fits ls
        → Gives (process_heads cid_string cid_decode b ns known root height ls s).0
          × ((j : Bytes)
              → find j (process_heads cid_string cid_decode b ns known root height ls s).1
                ≡ head_value (not (has_heads ls) || reaches_any s ls) ls s j)
    process_heads_lem ls s h =
        let (g, e) = process_heads-after_all ls s h in
        (
          g,
          elim (Bool-cases (has_heads ls)) [
            | inl f ↦ λ j. rw (e, f) (find-after_all ls s j h)
            | inr f ↦ λ j.
                rw (e, f)
                  (ground (
                    arith,
                    find-after_all ls (insert (text root) (put_uvarint height) s) j h,
                    find-insert (text root) j (put_uvarint height) s,
                  ))
          ],
        )

    -- Where the merge succeeds, the heads follow.
    pub process_node_ok :
        {D : Type 0} (merge : D → Result (Unit {0}) × D) (ls : List (DagLink Cid)) (d : D)
        (s : Store)
        → (merge d).0 ≡ ok tt
        → process_node cid_string cid_decode b ns known root height merge ls (d, s) ≡ (
          (process_heads cid_string cid_decode b ns known root height ls s).0,
          ((merge d).1, (process_heads cid_string cid_decode b ns known root height ls s).1),
        )
    unfolding process_node
    process_node_ok {D} merge ls d s h =
        let heads = process_heads cid_string cid_decode b ns known root height ls s in
        let F : Result (Unit {0}) × D → Result (List Cid) × (D × Store) =
          λ p. elim p.0 [ err e ↦ (err e, (p.1, s)) | ok _ ↦ (heads.0, (p.1, heads.1)) ] in
        let G : Result (Unit {0}) → Result (List Cid) × (D × Store) = λ r. elim r [
          | err e ↦ (err e, ((merge d).1, s))
          | ok _ ↦ (heads.0, ((merge d).1, heads.1))
        ] in
        ap F (rewrap_ok merging_delta (merge d) tt h) ∙ ap G h
