-- ===== src/Clock/Advance.antt =====
-- merkle/clock/clock.go, AddDAGNode: the new node is the only head behind it, one above the others.
use defradg.Prelude.{
  ℕ, ◌≡◌, ◌≢◌, refl, sym, ap, ◌∙◌, Bytes, codes, Bool, true, false, List, [], ◌∷◌, map, All, none,
  some, arith, bytes_eq, bytes_eq_iff, bytes_eq_refl, bytes_eq_of_ne, has_prefix-append, Lacks,
  Result, ok, Bool-cases, inl, inr,
}
use defradg.Keys.{HeadStoreKey, head_to_string, head_with_cid, slash, new_head_store_key}
use defradg.Keys.RoundTrip.{IsSegment, new_head_store_key-head_to_string}
use defradg.Varint.{put_uvarint}
use defradg.Store.{Backend, Store, find, insert, below, is_some}
use defradg.Store.Laws.{IsHealthy}
use defradg.Store.Parts.{under, below-insert}
use defradg.Crdt.{DagLink}
use defradg.Clock.{key, has_heads, process_heads}
use defradg.Clock.Heads.{entries, cids}
use defradg.Clock.Process.{Fits, reaches_any, named, process_heads-after_all}
use defradg.Clock.Single.{steps-single, steps-joins, below-steps}
use defradg.Clock.Node.Links.{any_link, head_link}

module _ {Cid : Type 0} (cid_string : Cid → Bytes) (cid_decode : Bytes → Result Cid)
    (decode-string : (c : Cid) → cid_decode (cid_string c) ≡ ok c)
    (string-Lacks : (c : Cid) → Lacks slash (cid_string c)) (heads : Backend)
    (ns : HeadStoreKey Cid) (blocks : Backend) (hash_key : Cid → Bytes) where
  abbrev pub at : Cid → Bytes
  at = key cid_string cid_decode heads ns

  abbrev pub place : Bytes
  place = head_to_string cid_string cid_decode ns

  -- The storage works for the heads of a field of a document, and for blocks.
  pub record IsSound : Type 0 where
    pub doc : IsSegment ns.doc_key
    pub field : IsSegment ns.field_id
    pub whole : ns.cid ≡ none
    pub at_namespace : IsHealthy heads place
    pub at_head : (c : Cid) → IsHealthy heads (at c)
    pub at_block : (c : Cid) → IsHealthy blocks (hash_key c)

  module _ (sound : IsSound) where
    at-under : (c : Cid) → under place (at c) ≡ true
    unfolding key head_to_string head_with_cid
    at-under c = rw sound.whole (rw (has_prefix-append _ (slash ∷ cid_string c) (slash ∷ [])) refl)

    at-injective : (c d : Cid) → c ≢ d → bytes_eq (at c) (at d) ≡ false
    unfolding key head_with_cid
    at-injective c d n = bytes_eq_of_ne (at c) (at d) (λ e.
        let p =
          new_head_store_key-head_to_string cid_string cid_decode decode-string string-Lacks
            (head_with_cid ns c) c refl sound.doc sound.field in
        let q =
          new_head_store_key-head_to_string cid_string cid_decode decode-string string-Lacks
            (head_with_cid ns d) d refl sound.doc sound.field in
        let same : head_with_cid ns c ≡ head_with_cid ns d =
          cc (sym p ∙ (ap (new_head_store_key cid_string cid_decode) e ∙ q)) in
        let parts : some c ≡ some d = ap (λ k. k.cid) same in n (cc parts))

    module _ (known : Cid → Result Bool) (root : Cid) (height : ℕ) where
      abbrev pub Fit : DagLink Cid → Type 0
      Fit = Fits cid_string cid_decode heads ns known root height

      abbrev links_to : List (DagLink Cid) → Bytes → Bool
      links_to = named cid_string cid_decode heads ns known root height

      abbrev joins : Store → List (DagLink Cid) → Bool
      joins = reaches_any cid_string cid_decode heads ns known root height

      -- Links of a node that is none of them.
      pub fits :
          ((c : Cid) → (h : Bool) × (known c ≡ ok h))
          → (ls : List (DagLink Cid)) → All (λ l. l.cid ≢ root) ls
          → All Fit ls
      fits here [] h = tt
      fits here (l ∷ ls) h = (
        record {
          healthy = sound.at_head l.cid;
          here = (here l.cid).0;
          found = (here l.cid).1;
          below = at-injective l.cid root h.0;
        },
        fits here ls h.1,
      )

      links_to-any_link :
          (ls : List (DagLink Cid)) (j : Bytes)
          → links_to ls j ≡ any_link (λ l. bytes_eq (at l.cid) j) ls
      links_to-any_link [] j = refl
      links_to-any_link (l ∷ ls) j = ground (arith, links_to-any_link ls j)

      links_to-below :
          (ls : List (DagLink Cid)) (j : Bytes)
          → All Fit ls
          → links_to ls j ≡ true
          → bytes_eq j (at root) ≡ false
      links_to-below [] j f h = cc h
      links_to-below (l ∷ ls) j f h = elim (Bool-cases (bytes_eq (at l.cid) j)) [
        | inl e ↦ ground (arith, f.0.below, bytes_eq_iff (at l.cid) j)
        | inr e ↦ links_to-below ls j f.1 (ground (arith, e, h))
      ]

      joins-links_to :
          (ls : List (DagLink Cid)) (s : Store) (j : Bytes)
          → links_to ls j ≡ true
          → is_some (find j s) ≡ true
          → joins s ls ≡ true
      joins-links_to [] s j h p = cc h
      joins-links_to (l ∷ ls) s j h p =
          ground (arith, bytes_eq_iff (at l.cid) j, joins-links_to ls s j)

      module _ (cid_bytes : Cid → Bytes) where
        abbrev pub stored : List (Cid × ℕ) → Store
        stored = entries cid_string cid_decode decode-string string-Lacks heads ns cid_bytes

        -- Links that have those to the heads among them.
        abbrev pub Covers : List (DagLink Cid) → List (Cid × ℕ) → Type 0
        Covers ls hs =
            (q : DagLink Cid → Bool)
            → any_link q (map head_link (cids hs)) ≡ true
            → any_link q ls ≡ true

        Covers-head :
            (ls : List (DagLink Cid)) (c : Cid) (n : ℕ) (hs : List (Cid × ℕ))
            → Covers ls ((c, n) ∷ hs)
            → links_to ls (at c) ≡ true
        Covers-head ls c n hs h =
            links_to-any_link ls (at c)
            ∙ h (λ l. bytes_eq (at l.cid) (at c)) (rw (bytes_eq_refl (at c)) refl)

        Covers-tail :
            (ls : List (DagLink Cid)) (c : Cid) (n : ℕ) (hs : List (Cid × ℕ))
            → Covers ls ((c, n) ∷ hs)
            → Covers ls hs
        Covers-tail ls c n hs h q e = h q (ground (arith, e))

        linked :
            (ls : List (DagLink Cid)) (hs : List (Cid × ℕ))
            → All Fit ls
            → Covers ls hs
            → All (λ e. (links_to ls e.0 ≡ true) × (bytes_eq e.0 (at root) ≡ false)) (stored hs)
        linked ls [] f h = tt
        linked ls ((c, n) ∷ hs) f h =
            let to = Covers-head ls c n hs h in
            ((to, links_to-below ls (at c) f to), linked ls hs f (Covers-tail ls c n hs h))

        -- The node is the only head, if it links to all heads, and to nothing named "_head" where
        -- there are none.
        pub single_head :
            (ls : List (DagLink Cid)) (s : Store) (hs : List (Cid × ℕ))
            → All Fit ls
            → Covers ls hs
            → has_heads ls
              ≡ any_link (λ l. bytes_eq l.name (codes "_head")) (map head_link (cids hs))
            → below place s ≡ stored hs
            → below place (process_heads cid_string cid_decode heads ns known root height ls s).1
              ≡ stored ((root, height) ∷ [])
        single_head ls s [] f h e p =
            let run =
              (process_heads-after_all cid_string cid_decode heads ns known root height
                (sound.at_head root) ls s f).1 in
            rw (run, e)
              (below-steps cid_string cid_decode heads ns known root height place ls
                  (insert (at root) (put_uvarint height) s) (at-under root) at-under
                ∙ (rw (below-insert place (at root) (put_uvarint height) s (at-under root), p)
                    (unfold insert in
                      steps-single cid_string cid_decode heads ns known root height ls [] f tt)))
        single_head ls s ((c, n) ∷ hs) f h e p =
            let run =
              (process_heads-after_all cid_string cid_decode heads ns known root height
                (sound.at_head root) ls s f).1 in
            let there : is_some (find (at c) (stored ((c, n) ∷ hs))) ≡ true =
              unfold find in unfold is_some in rw (bytes_eq_refl (at c)) refl in
            rw (run, e)
              (below-steps cid_string cid_decode heads ns known root height place ls s
                  (at-under root) at-under
                ∙ (rw p (
                    steps-joins cid_string cid_decode heads ns known root height ls
                      (stored ((c, n) ∷ hs)) f (linked ls ((c, n) ∷ hs) f h)
                      (joins-links_to ls (stored ((c, n) ∷ hs)) (at c) (Covers-head ls c n hs h)
                        there))))
