-- ===== src/Connor/Tests.antt =====
-- connor: conditions on concrete data, and the theorems of Connor at them.
use mathlib.Core.List.Perm
use mathlib.Core.List.{map}
use defradg.Prelude.{
  ◌≡◌, refl, ℕ, codes, Bool, true, false, [], ◌∷◌, ◌++◌, some, arith, ok, err, bad_time,
  unhandled_type, ℤ, pos, int_eq, int_le, int_lt, bytes_eq,
}
use defradg.Connor.Value.{
  Std, property, operator, Value, nil, text, int64, array, conditions, doc, Values, stop, push,
  Entries, done, entry, Doc, fields, numbers_equal, try_upcast, get_prop, get_operator_or_default,
}
use defradg.Connor.Compare.{gt}
use defradg.Connor.Like.{percent, like}
use defradg.Connor.Like.Pattern
use defradg.Connor.Like.Agree.{like-matches}
use defradg.Connor.Eq.{
  negated, eq, eq_data, eq_entries, eq_entry, entry_tests, elements, eqs, and, or, nin, ne, match,
}
use defradg.Connor.Logic.{nin-and_ne, match_any_order, match_hides_error}

-- Integers in place of floating-point numbers, and numbers for times.
abbrev toy : Std
toy = record {
  Float32 = ℤ;
  Float64 = ℤ;
  float_eq = int_eq;
  float_lt = int_lt;
  float_le = int_le;
  widen = λ x. x;
  of_int = λ x. x;
  to_int = λ x. x;
  Time = ℕ;
  before = λ a b. false;
  after = λ a b. false;
  same = λ a b. true;
  parse = λ s. err bad_time;
}

abbrev equal_texts : Value toy → Value toy → Bool
equal_texts (text a) (text b) = bytes_eq a b
equal_texts _ _ = false

abbrev ann : Doc toy
ann = fields (push (text (codes "Ann")) (push (int64 (pos 41)) stop))

abbrev name_entry : Entries toy → Entries toy
name_entry = entry (property 0) (text (codes "Ann"))

abbrev age_entry : Entries toy → Entries toy
age_entry = entry (property 1) (conditions (entry (operator (codes "_gt")) (int64 (pos 40)) done))

matches_both : match equal_texts (name_entry (age_entry done)) (doc ann) ≡ ok true
unfolding match eq eq_data eq_entries eq_entry get_prop get_operator_or_default gt try_upcast
matches_both = refl

abbrev ages : Values toy
ages = push (int64 (pos 40)) (push (int64 (pos 41)) stop)

in_ages : nin (elements equal_texts (array ages)) (int64 (pos 41)) ≡ ok false
unfolding nin eq eq_data numbers_equal try_upcast
in_ages = refl

nin-and_ne_example :
    (nin (elements equal_texts (array ages)) (int64 (pos 41))
      ≡ and (some (map ne (eqs equal_texts ages))) (int64 (pos 41)))
    × (negated (or (elements equal_texts (array ages)) (int64 (pos 41)))
        ≡ and (some (map ne (eqs equal_texts ages))) (int64 (pos 41)))
nin-and_ne_example = nin-and_ne toy equal_texts ages (int64 (pos 41))

match_any_order_example :
    match equal_texts (name_entry (age_entry done)) (doc ann)
    ≡ match equal_texts (age_entry (name_entry done)) (doc ann)
unfolding entry_tests eq_entry get_prop get_operator_or_default eq_data eq_entries gt try_upcast
match_any_order_example =
    match_any_order toy equal_texts (name_entry (age_entry done)) (age_entry (name_entry done)) ann
      ((true, refl), ((true, refl), tt)) (Perm.swap _ _ _)

abbrev wrong : Entries toy → Entries toy
wrong = entry (operator (codes "_and")) nil

abbrev other_name : Entries toy → Entries toy
other_name = entry (property 0) (text (codes "Bob"))

match_hides_error_example :
    (match equal_texts (other_name (wrong done)) (doc ann) ≡ ok false)
    × (match equal_texts (wrong (other_name done)) (doc ann) ≡ err unhandled_type)
unfolding match eq eq_data eq_entries eq_entry get_prop get_operator_or_default and
match_hides_error_example =
    match_hides_error toy equal_texts (property 0) (operator (codes "_and")) (text (codes "Bob"))
      nil ann unhandled_type refl refl

like-matches_example :
    (like {L = toy} (text (percent ∷ codes "nn")) (text (codes "Ann"))
      ≡ ok (Pattern.matches (percent ∷ codes "nn") (codes "Ann")))
    × (like {L = toy} (text (codes "nn" ++ percent ∷ [])) (text (codes "Ann"))
        ≡ ok (Pattern.matches (codes "nn" ++ percent ∷ []) (codes "Ann")))
    × (like {L = toy} (text (percent ∷ codes "nn" ++ percent ∷ [])) (text (codes "Ann"))
        ≡ ok (Pattern.matches (percent ∷ codes "nn" ++ percent ∷ []) (codes "Ann")))
    × (like {L = toy} (text (codes "nn")) (text (codes "Ann"))
        ≡ ok (Pattern.matches (codes "nn") (codes "Ann")))
like-matches_example =
    like-matches toy 110 (codes "n") (codes "Ann") (omega arith, (omega arith, tt))
