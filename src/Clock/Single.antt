-- ===== src/Clock/Single.antt =====
-- merkle/clock/clock.go, ProcessNode on a node that links to all of the heads: it is the only head
-- behind it.
use defradg.Prelude.{
  ℕ, ◌≡◌, refl, sym, ap, subst, ◌∙◌, Bytes, Bool, true, false, List, [], ◌∷◌, ◌++◌, All, arith,
  bytes_eq, bytes_eq_iff, bytes_eq_refl, Result, Bool-cases, inl, inr,
}
use defradg.Keys.{HeadStoreKey}
use defradg.Varint.{put_uvarint}
use defradg.Store.{Backend, Store, find, insert, remove, below, is_some}
use defradg.Store.Parts.{
  under, find-below, below-insert, below-remove, remove-append, remove-absent, insert-append,
}
use defradg.Crdt.{DagLink}
use defradg.Clock.Process.{text, Fits, after, after_all, reaches, reaches_any, named}

module _ {Cid : Type 0} (cid_string : Cid → Bytes) (cid_decode : Bytes → Result Cid) (b : Backend)
    (ns : HeadStoreKey Cid) (known : Cid → Result Bool) (root : Cid) (height : ℕ) where
  abbrev at : Cid → Bytes
  at = text cid_string cid_decode b ns known root height

  abbrev Fit : DagLink Cid → Type 0
  Fit = Fits cid_string cid_decode b ns known root height

  abbrev step : Store → DagLink Cid → Store
  step = after cid_string cid_decode b ns known root height

  abbrev steps : Store → List (DagLink Cid) → Store
  steps = after_all cid_string cid_decode b ns known root height

  abbrev joins : Store → List (DagLink Cid) → Bool
  joins = reaches_any cid_string cid_decode b ns known root height

  abbrev links_to : List (DagLink Cid) → Bytes → Bool
  links_to = named cid_string cid_decode b ns known root height

  -- Entries that the links name, and the node itself is none of them.
  abbrev Linked : List (DagLink Cid) → Store → Type 0
  Linked ls = All (λ e. (links_to ls e.0 ≡ true) × (bytes_eq e.0 (at root) ≡ false))

  abbrev single : Store
  single = (at root, put_uvarint height) ∷ []

  Linked-lacks :
      (ls : List (DagLink Cid)) (s : Store)
      → Linked ls s
      → All (λ e. bytes_eq e.0 (at root) ≡ false) s
  Linked-lacks ls [] h = tt
  Linked-lacks ls (e ∷ s) h = (h.0.1, Linked-lacks ls s h.1)

  Linked-remove :
      (l : DagLink Cid) (ls : List (DagLink Cid)) (s : Store)
      → Linked (l ∷ ls) s
      → Linked ls (remove (at l.cid) s)
  unfolding remove
  Linked-remove l ls [] h = tt
  Linked-remove l ls ((j, w) ∷ s) h = elim (Bool-cases (bytes_eq j (at l.cid))) [
    | inl e ↦ rw e (Linked-remove l ls s h.1)
    | inr e ↦ rw e (
      (ground (arith, bytes_eq_iff j (at l.cid), bytes_eq_iff (at l.cid) j, h.0.0), h.0.1),
      Linked-remove l ls s h.1,
    )
  ]

  -- The node, written again where it is the last entry.
  insert-single :
      (ls : List (DagLink Cid)) (s : Store)
      → Linked ls s
      → insert (at root) (put_uvarint height) (s ++ single) ≡ s ++ single
  insert-single ls s h =
      insert-append (at root) (put_uvarint height) s single (Linked-lacks ls s h)
      ∙ ap (λ t. s ++ t) (unfold insert in rw (bytes_eq_refl (at root)) refl)

  remove-single :
      (l : DagLink Cid) (s : Store)
      → Fit l
      → remove (at l.cid) (s ++ single) ≡ remove (at l.cid) s ++ single
  remove-single l s f =
      remove-append (at l.cid) s single
      ∙ ap (λ t. remove (at l.cid) s ++ t)
          (remove-absent (at l.cid) single (
            unfold find in
            unfold is_some in
            ground (
              arith,
              f.below,
              bytes_eq_iff (at l.cid) (at root),
              bytes_eq_iff (at root) (at l.cid),
            )))

  -- One link, while the node is a head: the head that it links to goes.
  step-single :
      (l : DagLink Cid) (ls : List (DagLink Cid)) (s : Store)
      → Fit l
      → Linked (l ∷ ls) s
      → step (s ++ single) l ≡ remove (at l.cid) s ++ single
  step-single l ls s f h =
      let rest = insert-single ls (remove (at l.cid) s) (Linked-remove l ls s h) in
      elim (Bool-cases (is_some (find (at l.cid) (s ++ single)))) [
        | inl e ↦ rw (e, remove-single l s f, rest) refl
        | inr e ↦
            let same : remove (at l.cid) s ++ single ≡ s ++ single =
              sym (remove-single l s f) ∙ remove-absent (at l.cid) (s ++ single) e in
            ground (arith, e, same, insert-single (l ∷ ls) s h)
      ]

  pub steps-single :
      (ls : List (DagLink Cid)) (s : Store)
      → All Fit ls
      → Linked ls s
      → steps (s ++ single) ls ≡ single
  steps-single [] [] f h = refl
  steps-single [] (e ∷ s) f h = cc (h.0.0)
  steps-single (l ∷ ls) s f h =
      rw (step-single l ls s f.0 h)
        (steps-single ls (remove (at l.cid) s) f.1 (Linked-remove l ls s h))

  insert-end :
      (ls : List (DagLink Cid)) (s : Store)
      → Linked ls s
      → insert (at root) (put_uvarint height) s ≡ s ++ single
  unfolding insert
  insert-end ls [] h = refl
  insert-end ls (e ∷ s) h = rw (h.0.1, insert-end ls s h.1) refl

  -- A link that the node joins the DAG by, while the node is not a head yet.
  step-joins :
      (l : DagLink Cid) (ls : List (DagLink Cid)) (s : Store)
      → Linked (l ∷ ls) s
      → reaches cid_string cid_decode b ns known root height s l ≡ true
      → step s l ≡ remove (at l.cid) s ++ single
  step-joins l ls s h e = ground (
    arith,
    e,
    insert-end (l ∷ ls) s h,
    insert-end ls (remove (at l.cid) s) (Linked-remove l ls s h),
    remove-absent (at l.cid) s,
  )

  unreached_absent :
      (l : DagLink Cid) (s : Store)
      → reaches cid_string cid_decode b ns known root height s l ≡ false
      → is_some (find (at l.cid) s) ≡ false
  unreached_absent l s e = ground arith

  step-unreached :
      (l : DagLink Cid) (s : Store)
      → reaches cid_string cid_decode b ns known root height s l ≡ false
      → step s l ≡ s
  step-unreached l s e = ground arith

  -- A node that links to all heads, and joins the DAG, is the only head behind its links.
  pub steps-joins :
      (ls : List (DagLink Cid)) (s : Store)
      → All Fit ls
      → Linked ls s
      → joins s ls ≡ true
      → steps s ls ≡ single
  steps-joins [] s f h j = cc j
  steps-joins (l ∷ ls) s f h j =
      elim (Bool-cases (reaches cid_string cid_decode b ns known root height s l)) [
        | inl e ↦
            rw (step-joins l ls s h e)
              (steps-single ls (remove (at l.cid) s) f.1 (Linked-remove l ls s h))
        | inr e ↦
            let linked = Linked-remove l ls s h in
            let same = remove-absent (at l.cid) s (unreached_absent l s e) in
            rw (step-unreached l s e)
              (steps-joins ls s f.1 (subst (Linked ls) same linked) (ground (arith, e, j)))
      ]

  -- The heads below a path are changed by the links as they are without the rest of the store.
  below-step :
      (p : Bytes) (l : DagLink Cid) (s : Store)
      → under p (at root) ≡ true
      → under p (at l.cid) ≡ true
      → below p (step s l) ≡ step (below p s) l
  below-step p l s r u = ground (
    arith,
    find-below p (at l.cid) s u,
    below-insert p (at root) (put_uvarint height) s r,
    below-insert p (at root) (put_uvarint height) (remove (at l.cid) s) r,
    below-remove p (at l.cid) s,
  )

  pub below-steps :
      (p : Bytes) (ls : List (DagLink Cid)) (s : Store)
      → under p (at root) ≡ true
      → ((c : Cid) → under p (at c) ≡ true)
      → below p (steps s ls) ≡ steps (below p s) ls
  below-steps p [] s r u = refl
  below-steps p (l ∷ ls) s r u =
      below-steps p ls (step s l) r u ∙ ap (λ t. steps t ls) (below-step p l s r (u l.cid))
