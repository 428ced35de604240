-- ===== src/Order/Tests.antt =====
-- planner/order.go and db/base/compare.go on concrete documents, and the theorems of Order there.
use defradg.Prelude.{ℕ, ◌≡◌, refl, Bytes, codes, true, false, List, [], ◌∷◌, some, err, panic, pos}
use defradg.Limit.Calls.{rows_of}
use defradg.Order.{
  Std, Field, no_fields, field, nil, int, uint64, text, Doc, OrderCondition, clone, compare, less,
  doc_value_less, get_doc_prop, get_map_prop_list, field_at, order_by, next, value, value_of,
  next_value, consume, sort_all, add_doc, insert_docs, insert_doc, doc_at,
  new_container_values_node, compare_uint,
}
use defradg.Order.Node.{collect}

abbrev plain : Std
plain = record {
  Float = ℕ;
  float_eq = λ a b. true;
  float_gt = λ a b. false;
  Time = ℕ;
  time_equal = λ a b. true;
  time_after = λ a b. false;
}

-- Two values of type int panic, since the second one is asserted to be an int64.
int_panics : compare {L = plain} (int (pos 1)) (int (pos 2)) ≡ err panic
unfolding compare
int_panics = refl

abbrev person : Bytes → Field plain → Doc plain
person name age = record {
  hidden = false;
  fields_of = field (text name) (field age no_fields);
  status = 0;
}

abbrev by_age : OrderCondition
by_age = record { field_indexes = 1 ∷ []; descending = true }

abbrev by_name : OrderCondition
by_name = record { field_indexes = 0 ∷ []; descending = false }

abbrev people : List (Doc plain)
people =
    person (codes "John") (uint64 21)
    ∷ person (codes "Bob") (uint64 21)
    ∷ person (codes "Carlo") nil
    ∷ []

-- Of two of one age, the name does not decide.
john_before_bob :
    collect clone
      (less (by_age ∷ by_name ∷ []))
      4
      (order_by clone (less (by_age ∷ by_name ∷ [])) (rows_of people))
    ≡ some people
unfolding collect order_by next value value_of next_value consume sort_all add_doc insert_docs
    insert_doc doc_at new_container_values_node clone less doc_value_less get_doc_prop
    get_map_prop_list field_at compare compare_uint
john_before_bob = refl
