-- ===== src/Order.antt =====
-- db/base/compare.go, planner/values.go and planner/order.go: the node of a plan that gives the rows
-- of the plan below it in order.
pub mod Sort
pub mod Compare
pub mod Less
pub mod Node
pub mod Tests
use defradg.Prelude.{
  ℕ, zero, suc, ◌+◌, ◌%◌, ◌^◌, Bytes, Bool, true, false, not, ◌&&◌, List, [], ◌∷◌, ◌++◌, reverse,
  length, Option, none, some, ltb, leb, ◌==◌, bytes_eq, bytes_lt, if◌then◌else◌, Error, Result, ok,
  err, panic, ◌>>=◌, ℤ, pos, negsuc, int_lt, int_eq,
}
use defradg.Limit.{Rows, done, failed, row}

-- What is asked of Go's floating-point numbers and of the package time.
pub record Std : Type 1 where
  pub Float : Type 0
  pub float_eq : Float → Float → Bool
  pub float_gt : Float → Float → Bool
  pub Time : Type 0
  pub time_equal : Time → Time → Bool
  pub time_after : Time → Time → Bool

-- An `any` in a document: each constructor is the dynamic type that it holds; `other` is any type that
-- these functions do not tell apart.
mutual
  pub data Field (L : Std) : Type 0 where
    nil other : Field L
    bool : Bool → Field L
    int int64 : ℤ → Field L
    uint64 : ℕ → Field L
    float64 : L.Float → Field L
    time : L.Time → Field L
    text bytes : Bytes → Field L
    doc : Fields L → Field L

  pub data Fields (L : Std) : Type 0 where
    no_fields : Fields L
    field : Field L → Fields L → Fields L

abbrev pub minus_one : ℤ
minus_one = negsuc 0

-- Two tests, `a == b` and `a > b`, as in each of the functions that compare.
abbrev pub by_tests : Bool → Bool → ℤ
by_tests eq gt = if eq then pos 0 else if gt then pos 1 else minus_one

unfoldable pub compare_bool : Bool → Bool → ℤ
compare_bool a b = by_tests (if a then b else not b) (a && not b)

unfoldable pub compare_int : ℤ → ℤ → ℤ
compare_int a b = by_tests (int_eq a b) (int_lt b a)

unfoldable pub compare_uint : ℕ → ℕ → ℤ
compare_uint a b = by_tests (a == b) (ltb b a)

-- `strings.Compare` and `bytes.Compare`
unfoldable pub compare_bytes : Bytes → Bytes → ℤ
compare_bytes a b = by_tests (bytes_eq a b) (bytes_lt b a)

unfoldable pub compare_float : (L : Std) → L.Float → L.Float → ℤ
compare_float L a b = by_tests (L.float_eq a b) (L.float_gt a b)

unfoldable pub compare_time : (L : Std) → L.Time → L.Time → ℤ
compare_time L a b = by_tests (L.time_equal a b) (L.time_after a b)

module _ {L : Std} where
  -- Compare, whose type assertions on `b` panic.
  unfoldable pub compare : Field L → Field L → Result ℤ
  compare nil nil = ok (pos 0)
  compare nil b = ok minus_one
  compare a nil = ok (pos 1)
  compare (bool v) (bool w) = ok (compare_bool v w)
  compare (int v) (int64 w) = ok (compare_int v w)
  compare (int64 v) (int64 w) = ok (compare_int v w)
  compare (uint64 v) (uint64 w) = ok (compare_uint v w)
  compare (float64 v) (float64 w) = ok (compare_float L v w)
  compare (time v) (time w) = ok (compare_time L v w)
  compare (text v) (text w) = ok (compare_bytes v w)
  compare (bytes v) (bytes w) = ok (compare_bytes v w)
  compare other b = ok (pos 0)
  compare (doc v) b = ok (pos 0)
  compare a b = err panic

  -- `obj.Fields[i]`
  unfoldable pub field_at : Fields L → ℕ → Result (Field L)
  field_at no_fields i = err panic
  field_at (field v vs) zero = ok v
  field_at (field v vs) (suc i) = field_at vs i

  abbrev sub_fields : Field L → Option (Fields L)
  sub_fields (doc vs) = some vs
  sub_fields _ = none

  -- getMapPropList, of one property and more.
  unfoldable pub get_map_prop_list : Fields L → ℕ → List ℕ → Result (Field L)
  get_map_prop_list obj p [] = field_at obj p
  get_map_prop_list obj p (q ∷ qs) = do
    val ← field_at obj p
    elim (sub_fields val) [ none ↦ ok nil | some sub ↦ get_map_prop_list sub q qs ]

  unfoldable pub get_doc_prop : Fields L → List ℕ → Result (Field L)
  get_doc_prop obj [] = ok nil
  get_doc_prop obj (p ∷ ps) = get_map_prop_list obj p ps

-- mapper.OrderCondition, in the direction DESC or not.
pub record OrderCondition : Type 0 where
  pub field_indexes : List ℕ
  pub descending : Bool

module _ {L : Std} where
  -- The loop of docValueLess, which returns in its first round.
  unfoldable pub doc_value_less : List OrderCondition → Fields L → Fields L → Result Bool
  doc_value_less [] a b = ok false
  doc_value_less (order ∷ ordering) a b = do
    va ← get_doc_prop a order.field_indexes
    vb ← get_doc_prop b order.field_indexes
    c ← compare va vb
    ok (if order.descending then int_lt (pos 0) c else int_lt c (pos 0))

-- core/doc.go, Doc.
pub record Doc (L : Std) : Type 0 where
  pub hidden : Bool
  pub fields_of : Fields L
  pub status : ℕ

-- Clone makes a new Doc with copies of the fields; the rest of the new one is zero.
unfoldable pub clone : {L : Std} → Doc L → Doc L
clone d = record { hidden = false; fields_of = d.fields_of; status = 0 }

-- valuesNode.Less, of two documents.
unfoldable pub less : {L : Std} → List OrderCondition → Doc L → Doc L → Result Bool
less ordering da db = doc_value_less ordering da.fields_of db.fields_of

-- valuesNode. `given` is `docIndex + 1`, since docIndex begins at -1.
pub record ValuesNode (R : Type 0) : Type 0 where
  pub docs : List R
  pub given : ℕ

module _ {R : Type 0} where
  unfoldable pub new_container_values_node : ValuesNode R
  new_container_values_node = record { docs = []; given = 0 }

  -- AddDoc, which adds a copy of the document.
  unfoldable pub add_doc : (R → R) → R → ValuesNode R → ValuesNode R
  add_doc copy d n = record n { docs = n.docs ++ (copy d ∷ []) }

  unfoldable pub next_value : ValuesNode R → Bool × ValuesNode R
  next_value n =
      if leb (length n.docs) n.given then (false, n) else (true, record n { given = suc n.given })

  -- `docs.At`
  unfoldable pub doc_at : List R → ℕ → Result R
  doc_at [] i = err panic
  doc_at (d ∷ ds) zero = ok d
  doc_at (d ∷ ds) (suc i) = doc_at ds i

  abbrev value_at : List R → ℕ → Result R
  value_at ds zero = err panic
  value_at ds (suc i) = doc_at ds i

  unfoldable pub value_of : ValuesNode R → Result R
  value_of n = value_at n.docs n.given

  -- sort.Stable, as the insertion sort that it is on up to 20 items: an item moves to the front past
  -- those that it is less than. The items before it are given from the last on. Of more items it merges
  -- blocks that are sorted so, which has the same result where `less` is a strict weak order that does not
  -- fail; where it is none, this is the sort of up to 20 items only.
  module _ (less : R → R → Result Bool) where
    unfoldable pub insert_doc : R → List R → Result (List R)
    insert_doc d [] = ok (d ∷ [])
    insert_doc d (e ∷ es) = do
      lt ← less d e
      let rest = insert_doc d es
      if lt then (do es' ← rest; ok (e ∷ es')) else ok (d ∷ e ∷ es)

    unfoldable pub insert_docs : List R → List R → Result (List R)
    insert_docs [] front = ok front
    insert_docs (d ∷ ds) front = do front' ← insert_doc d front; insert_docs ds front'

    unfoldable pub sort_all : ValuesNode R → Result (ValuesNode R)
    sort_all n = do front ← insert_docs n.docs []; ok (record n { docs = reverse front })

-- orderNode over a plan. Once the documents are sorted, `value_iter` is the strategy that holds them.
pub record OrderNode (R : Type 0) : Type 0 where
  pub ahead : Rows R
  pub value_iter : Option (ValuesNode R)
  pub strategy : Option (ValuesNode R)
  pub need_sort : Bool
  pub iterations : ℕ

module _ {R : Type 0} (copy : R → R) (less : R → R → Result Bool) where
  -- OrderBy, over a plan.
  unfoldable pub order_by : Rows R → OrderNode R
  order_by rows = record {
    ahead = rows;
    value_iter = none;
    strategy = none;
    need_sort = true;
    iterations = 0;
  }

  abbrev pub strategy_of : Option (ValuesNode R) → ValuesNode R
  strategy_of none = new_container_values_node
  strategy_of (some v) = v

  -- Finish, and the end of the loop.
  abbrev pub finish : Result (ValuesNode R) → OrderNode R → Result (Unit {0}) × OrderNode R
  finish (err e) n = (err e, n)
  finish (ok v) n = (ok tt, record n { value_iter = some v; strategy = some v; need_sort = false })

  -- The loop of Next that takes in the rows of the plan.
  unfoldable pub consume : Rows R → OrderNode R → Result (Unit {0}) × OrderNode R
  consume done n =
      let v = strategy_of n.strategy in
      finish (sort_all less v) (record n { ahead = done; strategy = some v })
  consume (failed e) n =
      (err e, record n { ahead = failed e; strategy = some (strategy_of n.strategy) })
  consume (row d rows) n =
      consume rows (record n { strategy = some (add_doc copy d (strategy_of n.strategy)) })

  -- `n.valueIter.Next()`, of a nil interface if there is none.
  abbrev next_of : Option (ValuesNode R) → OrderNode R → Result Bool × OrderNode R
  next_of none n = (err panic, n)
  next_of (some v) n = let (more, v') = next_value v in (ok more, record n { value_iter = some v' })

  abbrev pub then_next : Result (Unit {0}) × OrderNode R → Result Bool × OrderNode R
  then_next (err e, n) = (err e, n)
  then_next (ok _, n) = next_of n.value_iter n

  unfoldable pub next : OrderNode R → Result Bool × OrderNode R
  next n =
      let n' = record n { iterations = (n.iterations + 1) % 2 ^ 64 } in
      if n.need_sort then then_next (consume n.ahead n') else next_of n.value_iter n'

  unfoldable pub value : OrderNode R → Result R
  value n = elim n.value_iter [ none ↦ err panic | some v ↦ value_of v ]
