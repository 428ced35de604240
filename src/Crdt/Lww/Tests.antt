-- ===== src/Crdt/Lww/Tests.antt =====
-- core/crdt/lwwreg.go: a register on a store, and the theorems of Lww at concrete deltas.
use mathlib.Core.List.Perm
use defradg.Prelude.{◌≡◌, refl, ℕ, false, Bytes, codes, List, [], ◌∷◌, ok, arith}
use defradg.Keys.Distinct.{IsAddress}
use defradg.Keys.{DataStoreKey, to_string, with_priority_flag}
use defradg.Store.{Backend, find, insert, get, put, lookup_result}
use defradg.Store.Laws.{IsHealthy}
use defradg.Crdt.{LwwRegDelta, get_priority, set_priority}
use defradg.Crdt.Priority.{get_priority-set_priority}
use defradg.Crdt.Lww.{LwwRegister}
use defradg.Crdt.Lww.Join.{later, join}
use defradg.Crdt.Lww.Merge.{Works, Shows}
use defradg.Crdt.Lww.Convergence.{greatest, merge_all, merge_all_converges}

abbrev calm : Backend
calm = record { new_key = λ s. s; fails = λ o k. false }

abbrev reg : LwwRegister
reg = record {
  key = record {
    collection_id = codes "1";
    instance_type = codes "v";
    doc_key = codes "bae";
    field_id = codes "2";
  };
  schema_version_id = codes "s";
  field_name = codes "name";
}

abbrev delta : ℕ → Bytes → LwwRegDelta
delta p v = record {
  schema_version_id = codes "s";
  priority = p;
  payload = v;
  doc_key = codes "bae";
  field_name = codes "name";
}

IsHealthy-example : (k : Bytes) → IsHealthy calm k
IsHealthy-example k = record { works = λ o. refl; clean = refl }

works_example : Works calm reg.key
works_example = record {
  at_priority = IsHealthy-example _;
  at_marker = IsHealthy-example _;
  at_value = IsHealthy-example _;
  at_deleted = IsHealthy-example _;
}

address_example : IsAddress reg.key
address_example = record {
  collection = record { full = refl; plain = omega arith };
  doc = record { full = refl; plain = omega arith };
  field = omega arith;
}

nothing_shown : Shows reg.key [] (0, [])
unfolding find lookup_result
nothing_shown = record { prio = refl; val = refl }

abbrev first_deltas : List LwwRegDelta
first_deltas = delta 3 (codes "a") ∷ delta 3 (codes "b") ∷ []

abbrev other_deltas : List LwwRegDelta
other_deltas = delta 3 (codes "b") ∷ delta 3 (codes "a") ∷ []

merge_all_converges_example :
    Shows reg.key
      (merge_all calm reg works_example address_example ℕ first_deltas [])
      (greatest (0, []) first_deltas)
    × Shows reg.key
        (merge_all calm reg works_example address_example ℕ other_deltas [])
        (greatest (0, []) first_deltas)
merge_all_converges_example =
    merge_all_converges calm reg works_example address_example ℕ first_deltas other_deltas [] []
      (0, []) nothing_shown nothing_shown
      (record { bound = omega arith }, (record { bound = omega arith }, tt))
      (record { bound = omega arith }, (record { bound = omega arith }, tt))
      (Perm.swap (delta 3 (codes "b")) (delta 3 (codes "a")) [])

the_greater_value : greatest (0, []) other_deltas ≡ (3, codes "b")
unfolding join later
the_greater_value = refl

-- At the register's key itself, and at that of another field.
get_priority-set_priority_example :
    ((set_priority calm reg.key 300 []).0 ≡ ok tt)
    × ((get_priority calm reg.key (set_priority calm reg.key 300 []).1).0 ≡ ok 300)
unfolding to_string with_priority_flag
get_priority-set_priority_example =
    get_priority-set_priority calm reg.key reg.key 300 [] (omega arith)
      (record { works = λ o. refl; clean = refl }) (record { works = λ o. refl; clean = refl })

abbrev other_key : DataStoreKey
other_key = record reg.key { field_id = codes "3" }

no_priority_there : (get_priority calm other_key (set_priority calm reg.key 300 []).1).0 ≡ ok 0
unfolding get_priority set_priority to_string with_priority_flag get put find insert lookup_result
no_priority_there = refl
