-- ===== src/Order/Sort.antt =====
-- planner/values.go, SortAll: the documents in order.
use mathlib.Core.List.Perm
use mathlib.Core.List.{Perm, reverse_aux, reverse-reverse, perm_middle, reverse_perm}
use defradg.Prelude.{
  ◌≡◌, refl, ap, sym, subst, ◌∙◌, append-nil, Bool, true, false, List, [], ◌∷◌, ◌++◌, reverse, All,
  Result, ok, Bool-cases, inl, inr,
}
use defradg.Order.{insert_doc, insert_docs}

module _ {R : Type 0} (less : R → R → Result Bool) where
  -- No document is less than one before it.
  abbrev pub Ordered : List R → Type 0
  Ordered [] = Unit
  Ordered (d ∷ ds) = All (λ e. less e d ≡ ok false) ds × Ordered ds

  -- The same from the last document on.
  abbrev Descends : List R → Type 0
  Descends [] = Unit
  Descends (d ∷ ds) = All (λ e. less d e ≡ ok false) ds × Descends ds

  -- `less` is decided on documents of a kind, and is a strict weak order on them.
  pub record IsOrder (P : R → Type 0) : Type 0 where
    pub decided : (a c : R) → P a → P c → (t : Bool) × (less a c ≡ ok t)
    pub asymm : (a c : R) → P a → P c → less a c ≡ ok true → less c a ≡ ok false
    pub trans :
        (a c d : R)
        → P a
        → P c
        → P d
        → less a c ≡ ok false
        → less c d ≡ ok false
        → less a d ≡ ok false

  module _ (P : R → Type 0) (order : IsOrder P) where
    record Inserts (d : R) (es : List R) (r : Result (List R)) : Type 1 where
      front : List R
      done : r ≡ ok front
      descends : Descends front
      keeps : (Q : R → Type 0) → Q d → All Q es → All Q front
      perm : Perm front (d ∷ es)

    All-trans :
        (d e : R) (es : List R)
        → P d
        → P e
        → All P es
        → less d e ≡ ok false
        → All (λ x. less e x ≡ ok false) es
        → All (λ x. less d x ≡ ok false) es
    All-trans d e [] p q ps h hs = tt
    All-trans d e (x ∷ es) p q ps h hs =
        (order.trans d e x p q ps.0 h hs.0, All-trans d e es p q ps.1 h hs.1)

    insert_doc-Inserts :
        (d : R) (es : List R) → P d → All P es → Descends es → Inserts d es (insert_doc less d es)
    unfolding insert_doc
    insert_doc-Inserts d [] p ps h = record {
      front = d ∷ [];
      done = refl;
      descends = (tt, tt);
      keeps = λ Q q qs. (q, tt);
      perm = Perm.refl (d ∷ []);
    }
    insert_doc-Inserts d (e ∷ es) p ps h =
        let (t, lt) = order.decided d e p ps.0 in
        let i = insert_doc-Inserts d es p ps.1 h.1 in
        elim (Bool-cases t) [
          | inl f ↦
              let less_de : less d e ≡ ok true = lt ∙ ap ok f in
              rw (less_de, i.done)
                (record {
                  front = e ∷ i.front;
                  done = refl;
                  descends = (
                    i.keeps (λ x. less e x ≡ ok false) (order.asymm d e p ps.0 less_de) h.0,
                    i.descends,
                  );
                  keeps = λ Q q qs. (qs.0, i.keeps Q q qs.1);
                  perm = Perm.trans (Perm.cons e i.perm) (Perm.swap d e es);
                })
          | inr f ↦
              let not_less : less d e ≡ ok false = lt ∙ ap ok f in
              rw not_less (record {
                front = d ∷ e ∷ es;
                done = refl;
                descends = ((not_less, All-trans d e es p ps.0 ps.1 not_less h.0), h);
                keeps = λ Q q qs. (q, qs);
                perm = Perm.refl (d ∷ e ∷ es);
              })
        ]

    -- No document of the second list is less than one of the first.
    abbrev Behind : List R → List R → Type 0
    Behind ds = All (λ d. All (λ e. less e d ≡ ok false) ds)

    Behind-cons :
        (x : R) (acc xs : List R)
        → All (λ y. less x y ≡ ok false) xs
        → Behind acc xs
        → Behind (x ∷ acc) xs
    Behind-cons x acc [] h b = tt
    Behind-cons x acc (y ∷ xs) h b = ((h.0, b.0), Behind-cons x acc xs h.1 b.1)

    Ordered-reverse_aux :
        (xs acc : List R) → Descends xs → Behind acc xs → Ordered acc → Ordered (reverse_aux xs acc)
    Ordered-reverse_aux [] acc h b o = o
    Ordered-reverse_aux (x ∷ xs) acc h b o =
        Ordered-reverse_aux xs (x ∷ acc) h.1 (Behind-cons x acc xs h.0 b.1) (b.0, o)

    Behind-nil : (xs : List R) → Behind [] xs
    Behind-nil [] = tt
    Behind-nil (x ∷ xs) = (tt, Behind-nil xs)

    record Sorts (ds es : List R) (r : Result (List R)) : Type 0 where
      front : List R
      done : r ≡ ok front
      descends : Descends front
      perm : Perm front (ds ++ es)

    insert_docs-Sorts :
        (ds es : List R) → All P ds → All P es → Descends es → Sorts ds es (insert_docs less ds es)
    unfolding insert_docs
    insert_docs-Sorts [] es p ps h = record {
      front = es;
      done = refl;
      descends = h;
      perm = Perm.refl es;
    }
    insert_docs-Sorts (d ∷ ds) es p ps h =
        let i = insert_doc-Inserts d es p.0 ps h in
        let s = insert_docs-Sorts ds i.front p.1 (i.keeps P p.0 ps) i.descends in
        rw i.done (record {
          front = s.front;
          done = s.done;
          descends = s.descends;
          perm = Perm.trans s.perm (Perm.trans (Perm.append_left ds i.perm) (perm_middle ds es));
        })

    -- The documents that SortAll leaves: those that there were, in order.
    pub record IsSorted (ds : List R) (r : Result (List R)) : Type 0 where
      pub sorted : List R
      pub front_is : r ≡ ok (reverse sorted)
      pub ordered : Ordered sorted
      pub same : Perm sorted ds

    pub insert_docs-IsSorted : (ds : List R) → All P ds → IsSorted ds (insert_docs less ds [])
    insert_docs-IsSorted ds p =
        let s = insert_docs-Sorts ds [] p tt tt in
        record {
          sorted = reverse s.front;
          front_is = s.done ∙ ap ok (sym (reverse-reverse s.front));
          ordered = Ordered-reverse_aux s.front [] s.descends (Behind-nil s.front) tt;
          same = Perm.trans (reverse_perm s.front) (subst (Perm s.front) (append-nil ds) s.perm);
        }
