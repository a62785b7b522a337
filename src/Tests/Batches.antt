-- ===== src/Tests/Batches.antt =====
-- Examples for benchmarks/e2e/serve_multitenant.py and benchmarks/e2e/serve_to_completion.py: a batch of two rows of different lengths.
use adapter_slots_plus_plus.Common.{◌≤◌, ℕ, ◌≡◌, refl, List, [], ◌∷◌, some, arith, length}
use adapter_slots_plus_plus.Multitenant.{sgmv_draft, spec_iter, nospec_iter}
use adapter_slots_plus_plus.Multitenant.RowModel.{row_model, row_model-IsRagged}
use adapter_slots_plus_plus.Multitenant.Rows.{Extends, spec_iter_lem, nospec_iter_lem}
use adapter_slots_plus_plus.Serving.{Completion, speculative, run_to_completion}
use adapter_slots_plus_plus.Serving.Finish.{AllFinished, run_to_completion_lem}

-- The next token counts the tokens so far; the draft is wrong behind five.
abbrev counter : List ℕ → ℕ
counter = length

abbrev short_counter : List ℕ → ℕ
short_counter (a ∷ b ∷ c ∷ d ∷ e ∷ ctx) = 0
short_counter ctx = length ctx

abbrev rows : List (List ℕ)
rows = (7 ∷ 8 ∷ 9 ∷ []) ∷ (4 ∷ []) ∷ []

spec_iter_lem_example :
    (rows' : List (List ℕ)) × (produced : ℕ) × (spec_iter
        (row_model short_counter)
        (row_model counter)
        rows
        (1 ∷ 0 ∷ [])
        3
        sgmv_draft
        2
      ≡ some (rows', produced))
    × Extends counter 1 4 rows rows' produced
spec_iter_lem_example =
    spec_iter_lem (row_model-IsRagged short_counter 2) (row_model-IsRagged counter 2) rows
      (1 ∷ 0 ∷ []) 3 sgmv_draft (λ e. cc) (omega arith) refl (omega arith, (omega arith, tt))

nospec_iter_lem_example :
    (rows' : List (List ℕ)) × (nospec_iter (row_model counter) rows 2 ≡ some (rows', 2))
    × Extends counter 1 1 rows rows' 2
nospec_iter_lem_example =
    nospec_iter_lem (row_model-IsRagged counter 2) rows (omega arith)
      (omega arith, (omega arith, tt))

run_to_completion_lem_example :
    (c : Completion) × (run_to_completion
        (row_model short_counter)
        (row_model counter)
        3
        8
        2
        speculative
        rows
      ≡ some c)
    × (c.iters ≤ 8)
    × AllFinished c.iters c.finish_iter
    × (c.requested ≤ c.emitted)
    × (c.requested ≡ 16)
run_to_completion_lem_example =
    run_to_completion_lem (row_model-IsRagged short_counter 2) (row_model-IsRagged counter 2) 3 8
      speculative rows (omega arith) (omega arith, (omega arith, tt)) (omega arith) (omega arith)
