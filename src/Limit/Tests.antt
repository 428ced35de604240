-- ===== src/Limit/Tests.antt =====
-- planner/limit.go on concrete rows, and the theorems of Limit at them.
use defradg.Prelude.{ℕ, ◌^◌, ◌-◌, ◌≡◌, refl, [], ◌∷◌, some, arith}
use defradg.Limit.{new_limit_node, advance, next}
use defradg.Limit.Calls.{rows_of, collect}
use defradg.Limit.Window.{window, collect-window, collect_wraps}

two_of_four :
    collect {R = ℕ} 5 (new_limit_node {R = ℕ} 2 1 (rows_of (1 ∷ 2 ∷ 3 ∷ 4 ∷ [])))
    ≡ some (2 ∷ 3 ∷ [])
unfolding collect new_limit_node next advance
two_of_four = refl

collect-window_example :
    collect {R = ℕ} 5 (new_limit_node 2 1 (rows_of (1 ∷ 2 ∷ 3 ∷ 4 ∷ [])))
    ≡ some (window 2 1 (1 ∷ 2 ∷ 3 ∷ 4 ∷ []))
collect-window_example = collect-window {R = ℕ} 2 1 (1 ∷ 2 ∷ 3 ∷ 4 ∷ []) (omega arith) (omega arith)

collect_wraps_example :
    collect {R = ℕ} 1 (new_limit_node (2 ^ 64 - 1) 1 (rows_of (1 ∷ 2 ∷ []))) ≡ some []
collect_wraps_example =
    collect_wraps {R = ℕ} (2 ^ 64 - 1) 1 (rows_of (1 ∷ 2 ∷ [])) (omega arith) (omega arith)
