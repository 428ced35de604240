-- ===== src/Group/Tests.antt =====
-- planner/arbitrary_join.go: rows of a name, an age and, at the index 2, a group.
use defradg.Prelude.{
  some, block_not_found, false, true, Bool, ℕ, ◌≡◌, refl, Bytes, codes, ◌||◌, List, [], ◌∷◌, arith,
  is_empty, ok, err, panic,
}
use defradg.Prelude.Decimal.{sprint}
use defradg.Limit.{Rows, row, failed}
use defradg.Group.{
  OrderedMap, value, docs, generate_key, join, field_at, join_sources, child_indexes_of,
  join_source, merge_row, append_row, merge_parent, append_child, append_doc, set_cell, cell_at,
  clear_children, clear_child, copy_cells, is_child, cells_of, nils,
}
use defradg.Group.Children.{rows_of, children_of, has_group, Once, having, some_has, join-groups}
use defradg.Group.Pipe.{new_pipe_node, next_parent, next_child, pipe_next, give, load, at}
use defradg.Group.Readers.{of_reader, run, run-reads}
use defradg.Group.Keys.{generate_key-shared}

unfoldable bytes_text : Bytes → Bytes
bytes_text b = b

abbrev alice : List Bytes
alice = codes "Alice" ∷ codes "30" ∷ [] ∷ []

abbrev bob : List Bytes
bob = codes "Bob" ∷ codes "30" ∷ [] ∷ []

abbrev carol : List Bytes
carol = codes "Carol" ∷ codes "40" ∷ [] ∷ []

abbrev parents : List (List Bytes)
parents = alice ∷ bob ∷ carol ∷ []

abbrev children : List (List Bytes)
children = carol ∷ bob ∷ alice ∷ []

abbrev sources : List (ℕ × Rows (List Bytes) × Rows (List Bytes))
sources = (2, rows_of [] is_empty bytes_text parents, rows_of [] is_empty bytes_text children) ∷ []

key_of_bob : generate_key [] is_empty bytes_text bob (1 ∷ []) ≡ ok (codes "1_30_")
unfolding generate_key field_at sprint bytes_text
key_of_bob = refl

-- A field that a row does not have.
no_field : generate_key [] is_empty bytes_text bob (3 ∷ []) ≡ err panic
unfolding generate_key field_at
no_field = refl

-- By age; the children come in their own order.
abbrev by_age : OrderedMap [] is_empty bytes_text
by_age =
    (codes "1_30_", value (codes "Bob") ∷ value (codes "30") ∷ docs (bob ∷ alice ∷ []) ∷ [])
    ∷ (codes "1_40_", value (codes "Carol") ∷ value (codes "40") ∷ docs (carol ∷ []) ∷ [])
    ∷ []

joined_by_age : join [] is_empty bytes_text (1 ∷ []) 3 sources ≡ ok by_age
unfolding join join_sources child_indexes_of join_source merge_row append_row merge_parent
    append_child append_doc set_cell cell_at clear_children clear_child copy_cells is_child cells_of
    nils generate_key field_at sprint bytes_text
joined_by_age = refl

join-groups_example :
    (m : OrderedMap [] is_empty bytes_text) × (join [] is_empty bytes_text (1 ∷ []) 3 sources
      ≡ ok m)
    × Once [] is_empty bytes_text m
    × ((k : Bytes)
        → (children_of [] is_empty bytes_text 2 k m
            ≡ having [] is_empty bytes_text (1 ∷ []) k children)
          × (has_group [] is_empty bytes_text k m ≡ (
              some_has [] is_empty bytes_text (1 ∷ []) k parents
              || some_has [] is_empty bytes_text (1 ∷ []) k children)))
unfolding generate_key field_at sprint bytes_text
join-groups_example =
    join-groups [] is_empty bytes_text refl (1 ∷ []) 3 2 (omega arith) parents children
      (
        (refl, (codes "1_30_", refl)),
        ((refl, (codes "1_30_", refl)), ((refl, (codes "1_40_", refl)), tt)),
      )
      (
        (refl, (codes "1_40_", refl)),
        ((refl, (codes "1_30_", refl)), ((refl, (codes "1_30_", refl)), tt)),
      )

-- "A_1_B" beside "C", and "A" beside "B_1_C".
generate_key-shared_example :
    generate_key [] is_empty bytes_text (codes "A_1_B" ∷ codes "C" ∷ []) (0 ∷ 1 ∷ [])
    ≡ generate_key [] is_empty bytes_text (codes "A" ∷ codes "B_1_C" ∷ []) (0 ∷ 1 ∷ [])
unfolding bytes_text sprint
generate_key-shared_example =
    generate_key-shared [] is_empty bytes_text (codes "A") (codes "B") (codes "C") (codes "A_1_B")
      (codes "C") (codes "A") (codes "B_1_C") refl refl refl refl

abbrev two_rows : Rows ℕ
two_rows = row 7 (row 8 (failed block_not_found))

-- The children's reader is first two rows behind, and then meets the failure.
abbrev turns : List Bool
turns = true ∷ true ∷ false ∷ true ∷ false ∷ false ∷ []

turns_taken :
    run turns (record { last_parent = 0; last_child = 0 }) (new_pipe_node two_rows)
    ≡ (true, ok (some 7))
      ∷ (true, ok (some 8))
      ∷ (false, ok (some 7))
      ∷ (true, err block_not_found)
      ∷ (false, ok (some 8))
      ∷ (false, err block_not_found)
      ∷ []
unfolding new_pipe_node next_parent next_child pipe_next give load at
turns_taken = refl

run-reads_example :
    (of_reader true
        (run turns (record { last_parent = 0; last_child = 0 }) (new_pipe_node two_rows))
      ≡ ok (some 7) ∷ ok (some 8) ∷ err block_not_found ∷ [])
    × (of_reader false
          (run turns (record { last_parent = 0; last_child = 0 }) (new_pipe_node two_rows))
        ≡ ok (some 7) ∷ ok (some 8) ∷ err block_not_found ∷ [])
run-reads_example = run-reads turns two_rows
