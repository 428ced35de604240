-- ===== src/Connor/Eq.antt =====
-- connor/eq.go, ne.go, and.go, or.go, in.go, nin.go and connor.go: a condition evaluated on data.
--
-- A condition holds conditions, so that `eq` calls itself through the operators. Here it is one
-- recursion on the condition: an operator is given, of its condition, the condition itself, `eq` of
-- it (a function of the data), and `eq` of each element, if it is a []any.
use defradg.Prelude.{
  Bytes, codes, Bool, true, false, not, List, [], ◌∷◌, Option, none, some, bytes_eq, if◌then◌else◌,
  Result, ok, err, ◌>>=◌, unhandled_type, unknown_operator,
}
use defradg.Connor.Value.{
  Std, FilterKey, Value, bool, text, int32, int64, float64, time, array, conditions, doc, docs,
  maybe_bool, maybe_int, maybe_float, maybe_text, Values, stop, push, Entries, done, entry, Docs,
  no_docs, with_doc, get_prop, get_operator_or_default, numbers_equal,
}
use defradg.Connor.Compare.{is_nil, ge, gt, le, lt, time_equal}
use defradg.Connor.Like.{like, nlike}

-- `!m`, or the error.
abbrev pub negated : Result Bool → Result Bool
negated (ok m) = ok (not m)
negated (err e) = err e

-- What `eq` with some condition makes of data.
abbrev pub Test : Std → Type 0
Test L = Value L → Result Bool

module _ {L : Std} where
  -- The loop of `eq` over documents, `f` being `eq` of the condition.
  unfoldable pub eq_docs : Test L → Docs L → Result Bool
  eq_docs f no_docs = ok false
  eq_docs f (with_doc d ds) =
      let rest = eq_docs f ds in do m ← f (doc d); if m then ok true else rest

  -- The switch of `eq` on the data, before that on the condition.
  unfoldable pub eq_data : Value L → Test L → Test L
  eq_data c f (docs ds) = eq_docs f ds
  eq_data c f (maybe_bool none) = ok (is_nil c)
  eq_data c f (maybe_bool (some b)) = f (bool b)
  eq_data c f (maybe_int none) = ok (is_nil c)
  eq_data c f (maybe_int (some n)) = f (int64 n)
  eq_data c f (maybe_float none) = ok (is_nil c)
  eq_data c f (maybe_float (some x)) = f (float64 x)
  eq_data c f (maybe_text none) = ok (is_nil c)
  eq_data c f (maybe_text (some s)) = f (text s)
  eq_data c f d = f d

  unfoldable pub and : Option (List (Test L)) → Test L
  and none d = err unhandled_type
  and (some []) d = ok true
  and (some (c ∷ cs)) d = let rest = and (some cs) d in do m ← c d; if m then rest else ok false

  unfoldable pub or : Option (List (Test L)) → Test L
  or none d = err unhandled_type
  or (some []) d = ok false
  or (some (c ∷ cs)) d = let rest = or (some cs) d in do m ← c d; if m then ok true else rest

  unfoldable pub in_ : Option (List (Test L)) → Test L
  in_ none d = err unhandled_type
  in_ (some []) d = ok false
  in_ (some (c ∷ cs)) d = let rest = in_ (some cs) d in do m ← c d; if m then ok true else rest

  unfoldable pub nin : Option (List (Test L)) → Test L
  unfolding in_
  nin cs d = negated (in_ cs d)

  unfoldable pub ne : Test L → Test L
  ne c d = negated (c d)

  -- `matchWith`, of a condition, its `eq` and those of its elements.
  unfoldable pub match_with : Bytes → Value L → Test L → Option (List (Test L)) → Test L
  match_with op c eq_c elements d =
      if bytes_eq op (codes "_and")
      then and elements d
      else if bytes_eq op (codes "_eq")
      then eq_c d
      else if bytes_eq op (codes "_ge")
      then ge c d
      else if bytes_eq op (codes "_gt")
      then gt c d
      else if bytes_eq op (codes "_in")
      then in_ elements d
      else if bytes_eq op (codes "_le")
      then le c d
      else if bytes_eq op (codes "_lt")
      then lt c d
      else if bytes_eq op (codes "_ne")
      then ne eq_c d
      else if bytes_eq op (codes "_nin")
      then nin elements d
      else if bytes_eq op (codes "_or")
      then or elements d
      else if bytes_eq op (codes "_like")
      then like c d
      else if bytes_eq op (codes "_nlike")
      then nlike c d
      else err unknown_operator

  -- The loop of `eq` over the entries of a condition, of which each is a test.
  unfoldable pub eq_entries : List (Test L) → Test L
  eq_entries [] d = ok true
  eq_entries (e ∷ es) d = let rest = eq_entries es d in do m ← e d; if m then rest else ok false

  -- One entry: its operator on the data that its key picks.
  unfoldable pub eq_entry : FilterKey → Value L → Test L → Option (List (Test L)) → Test L
  unfolding match_with
  eq_entry key c eq_c elements d = do
    prop ← get_prop key d
    match_with (get_operator_or_default key (codes "_eq")) c eq_c elements prop

-- `reflect.DeepEqual` is Go's.
module _ {L : Std} (deep_equal : Value L → Value L → Bool) where
  abbrev pub eq_string : Bytes → Test L
  eq_string c (text d) = ok (bytes_eq d c)
  eq_string c _ = ok false

  unfoldable mutual
    pub eq : Value L → Test L
    eq (text c) d = eq_data (text c) (eq_string c) d
    eq (int64 c) d = eq_data (int64 c) (λ x. ok (numbers_equal (int64 c) x)) d
    eq (int32 c) d = eq_data (int32 c) (λ x. ok (numbers_equal (int32 c) x)) d
    eq (float64 c) d = eq_data (float64 c) (λ x. ok (numbers_equal (float64 c) x)) d
    eq (conditions es) d = eq_data (conditions es) (eq_entries (entry_tests es)) d
    eq (time c) d = eq_data (time c) (λ x. ok (time_equal c x)) d
    eq c d = eq_data c (λ x. ok (deep_equal c x)) d

    -- The elements of a condition that is a []any, as tests.
    pub elements : Value L → Option (List (Test L))
    elements (array cs) = some (eqs cs)
    elements _ = none

    pub eqs : Values L → List (Test L)
    eqs stop = []
    eqs (push c cs) = eq c ∷ eqs cs

    pub entry_tests : Entries L → List (Test L)
    entry_tests done = []
    entry_tests (entry key c es) = eq_entry key c (eq c) (elements c) ∷ entry_tests es

  -- `Match`, with conditions that are a map.
  unfoldable pub match : Entries L → Test L
  match es d = eq (conditions es) d
