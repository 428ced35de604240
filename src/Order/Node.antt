-- ===== src/Order/Node.antt =====
-- planner/order.go, Next: what an order node gives of the plan below it.
use mathlib.Core.Logic.{∥∥₁_elim}
use mathlib.Core.List.{Perm, Permᴰ, reverse-reverse}
use defradg.Prelude.{
  ℕ, zero, suc, ◌+◌, ◌%◌, ◌^◌, ◌≡◌, refl, sym, ap, ◌∙◌, Bool, true, false, List, [], ◌∷◌, ◌++◌,
  append_assoc, map, reverse, length, length-append, append-nil, subst, All, Option, none, some,
  leb, arith, Error, Result, ok, err,
}
use defradg.Limit.{Rows, done, failed, row}
use defradg.Limit.Calls.{rows_of}
use defradg.Order.{
  less, ValuesNode, new_container_values_node, add_doc, next_value, doc_at, value_of, insert_docs,
  sort_all, OrderNode, order_by, consume, next, value, then_next,
}
use defradg.Order.Sort.{IsOrder, Ordered, insert_docs-IsSorted}

ℕ-set : IsSet ℕ
ℕ-set = hlevel

module _ {R : Type 0} (copy : R → R) (less : R → R → Result Bool) where
  abbrev add : Result R → Option (List R) → Option (List R)
  add (ok r) (some rs) = some (r ∷ rs)
  add _ _ = none

  abbrev gather : Result Bool × OrderNode R → (OrderNode R → Option (List R)) → Option (List R)
  gather (ok true, n) f = add (value copy less n) (f n)
  gather (ok false, n) f = some []
  gather (err e, n) f = none

  -- The values of a node between calls of Next, up to the call that gives false: none, if this needs
  -- more calls, or if one fails.
  unfoldable pub collect : ℕ → OrderNode R → Option (List R)
  collect zero n = none
  collect (suc k) n = gather (next copy less n) (collect k)

  doc_at-append : (ds : List R) (e : R) (es : List R) → doc_at (ds ++ (e ∷ es)) (length ds) ≡ ok e
  unfolding doc_at
  doc_at-append [] e es = refl
  doc_at-append (d ∷ ds) e es = doc_at-append ds e es

  -- A node that has given so many of its documents.
  abbrev giving : Rows R → Option (ValuesNode R) → ℕ → List R → ℕ → OrderNode R
  giving rows st it ds i = record {
    ahead = rows;
    value_iter = some (record { docs = ds; given = i });
    strategy = st;
    need_sort = false;
    iterations = it;
  }

  next-last :
      (rows : Rows R) (st : Option (ValuesNode R)) (it : ℕ) (ds : List R)
      → (next copy less (giving rows st it ds (length ds))).0 ≡ ok false
  unfolding next next_value
  next-last rows st it ds = let e : leb (length ds) (length ds) ≡ true = ground arith in rw e refl

  next-giving :
      (rows : Rows R) (st : Option (ValuesNode R)) (it : ℕ) (ds : List R) (e : R) (es : List R)
      → next copy less (giving rows st it (ds ++ (e ∷ es)) (length ds))
        ≡ (ok true, giving rows st ((it + 1) % 2 ^ 64) (ds ++ (e ∷ es)) (suc (length ds)))
  unfolding next next_value
  next-giving rows st it ds e es =
      let h : leb (length (ds ++ (e ∷ es))) (length ds) ≡ false =
        ground (arith, length-append ds (e ∷ es)) in
      rw h refl

  gather-end :
      (r : Result Bool × OrderNode R) (f : OrderNode R → Option (List R))
      → r.0 ≡ ok false
      → gather r f ≡ some []
  gather-end (ok true, n) f h = cc h
  gather-end (ok false, n) f h = refl
  gather-end (err e, n) f h = cc h

  collect-giving :
      (rows : Rows R) (st : Option (ValuesNode R)) (it : ℕ) (ds es all : List R)
      → ds ++ es ≡ all
      → collect (suc (length es)) (giving rows st it all (length ds)) ≡ some es
  unfolding collect value value_of
  collect-giving rows st it ds [] all h =
      gather-end (next copy less (giving rows st it all (length ds))) (collect zero) (
        subst (λ l. (next copy less (giving rows st it l (length ds))).0 ≡ ok false)
          (sym (append-nil ds) ∙ h) (next-last rows st it ds))
  collect-giving rows st it ds (e ∷ es) all h =
      subst (λ l. collect (suc (length (e ∷ es))) (giving rows st it l (length ds)) ≡ some (e ∷ es))
        h
        (rw (next-giving rows st it ds e es, doc_at-append ds e es)
          (ap (add (ok e)) (
            subst
              (λ k.
                collect (suc (length es)) (giving rows st ((it + 1) % 2 ^ 64) (ds ++ (e ∷ es)) k)
                ≡ some es)
              (ground (arith, length-append ds (e ∷ [])))
              (collect-giving rows st ((it + 1) % 2 ^ 64) (ds ++ (e ∷ [])) es (ds ++ (e ∷ es))
                (append_assoc ds (e ∷ []) es)))))

  -- A node that takes in the rows of its plan.
  abbrev taking : Rows R → Option (ValuesNode R) → ℕ → OrderNode R
  taking rows st it = record {
    ahead = rows;
    value_iter = none;
    strategy = st;
    need_sort = true;
    iterations = it;
  }

  abbrev holding : List R → Option (ValuesNode R)
  holding ds = some (record { docs = ds; given = 0 })

  consume-rows :
      (rs ds front : List R) (rows : Rows R) (it : ℕ)
      → insert_docs less (ds ++ map copy rs) [] ≡ ok front
      → (consume copy less (rows_of rs) (taking rows (holding ds) it))
        ≡ (ok tt, giving done (holding (reverse front)) it (reverse front) 0)
  unfolding consume sort_all add_doc
  consume-rows [] ds front rows it h =
      rw (ap (λ l. insert_docs less l []) (sym (append-nil ds)) ∙ h) refl
  consume-rows (r ∷ rs) ds front rows it h =
      consume-rows rs (ds ++ (copy r ∷ [])) front rows it
        (ap (λ l. insert_docs less l []) (append_assoc ds (copy r ∷ []) (map copy rs)) ∙ h)

  consume-order_by :
      (rs front : List R) (it : ℕ) (rows : Rows R)
      → insert_docs less (map copy rs) [] ≡ ok front
      → consume copy less (rows_of rs) (taking rows none it)
        ≡ (ok tt, giving done (holding (reverse front)) it (reverse front) 0)
  unfolding consume sort_all add_doc new_container_values_node
  consume-order_by [] front it rows h = rw h refl
  consume-order_by (r ∷ rs) front it rows h = consume-rows rs (copy r ∷ []) front rows it h

  -- The first call of Next takes in all rows.
  collect-order_by :
      (rs es : List R)
      → insert_docs less (map copy rs) [] ≡ ok (reverse es)
      → collect (suc (length es)) (order_by copy less (rows_of rs)) ≡ some es
  unfolding collect order_by next
  collect-order_by rs es h = rw (consume-order_by rs (reverse es) 1 (rows_of rs) h) (
      subst
        (λ l.
          gather (next copy less (giving done (holding l) 0 l 0)) (collect (length es)) ≡ some es)
        (sym (reverse-reverse es)) (collect-giving done (holding es) 0 [] es es refl))

  length-permᴰ : {ds es : List R} → Permᴰ ds es → length ds ≡ length es
  length-permᴰ Permᴰ.nil = refl
  length-permᴰ (Permᴰ.cons p q) = ap suc (length-permᴰ q)
  length-permᴰ (Permᴰ.swap {l = l} p q) = refl
  length-permᴰ (Permᴰ.trans p q) = length-permᴰ p ∙ length-permᴰ q

  length-perm : {ds es : List R} → Perm ds es → length ds ≡ length es
  length-perm {ds} {es} p = ∥∥₁_elim p (ℕ-set (length ds) (length es)) length-permᴰ

  length-map : (rs : List R) → length (map copy rs) ≡ length rs
  length-map [] = refl
  length-map (r ∷ rs) = ap suc (length-map rs)

  -- The values that a node gives, one call after another, are copies of the rows, in order.
  pub record Gives (rs : List R) (r : Option (List R)) : Type 0 where
    pub given : List R
    pub all : r ≡ some given
    pub ordered : Ordered less given
    pub same : Perm given (map copy rs)

  -- An order node over a plan whose rows, copied, are of a kind that Less orders gives one copy of
  -- each of them, none of which is less than one before it, and then says that there is no more.
  pub collect-Gives :
      (P : R → Type 0)
      → IsOrder less P
      → (rs : List R) → All P (map copy rs)
      → Gives rs (collect (suc (length rs)) (order_by copy less (rows_of rs)))
  collect-Gives P order rs p =
      let s = insert_docs-IsSorted less P order (map copy rs) p in
      let n : length s.sorted ≡ length rs = length-perm s.same ∙ length-map rs in
      record {
        given = s.sorted;
        all =
            subst (λ k. collect (suc k) (order_by copy less (rows_of rs)) ≡ some s.sorted) n
              (collect-order_by rs s.sorted s.front_is);
        ordered = s.ordered;
        same = s.same;
      }

  -- A failure of the plan is the result of Next, after any rows.
  abbrev pub rows_then : List R → Error → Rows R
  rows_then [] e = failed e
  rows_then (r ∷ rs) e = row r (rows_then rs e)

  consume-failed :
      (rs : List R) (e : Error) (n : OrderNode R) → (consume copy less (rows_then rs e) n).0 ≡ err e
  unfolding consume
  consume-failed [] e n = refl
  consume-failed (r ∷ rs) e n = consume-failed rs e _

  then_next-err :
      (e : Error) (r : Result (Unit {0}) × OrderNode R)
      → r.0 ≡ err e
      → (then_next copy less r).0 ≡ err e
  then_next-err e (err e', n) h = cc h
  then_next-err e (ok _, n) h = cc h

  pub next-failed :
      (rs : List R) (e : Error) → (next copy less (order_by copy less (rows_then rs e))).0 ≡ err e
  unfolding next order_by
  next-failed rs e = then_next-err e _ (consume-failed rs e _)
