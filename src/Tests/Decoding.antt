-- ===== src/Tests/Decoding.antt =====
-- Examples for benchmarks/e2e/spec_loops.py and benchmarks/e2e/serve_kv_graph.py: a target whose
-- next token is the sum of all it has seen (`sum_mod`), one that always says 5 (`always_five`), and a
-- draft that predicts the sum only while it has seen fewer than five tokens (`half_right`).
use adapter_slots_plus_plus.Common.{
  true, ℕ, ◌+◌, ◌%◌, ◌≡◌, refl, List, [], ◌∷◌, some, arith, length, ltb, if◌then◌else◌,
}
use adapter_slots_plus_plus.Models.{CachedModel, token_model, token_model-IsCausal}
use adapter_slots_plus_plus.Models.Greedy.{greedy, accepted, predictions}
use adapter_slots_plus_plus.SpecLoops.{nospec_kv, nospec_nokv}
use adapter_slots_plus_plus.SpecLoops.Reference.{nospec_kv-nospec_nokv}
use adapter_slots_plus_plus.SpecLoops.Output.{Returns, spec_kv_lem}
use adapter_slots_plus_plus.SpecLoops.Lossless.{
  Agree, spec_kv-first_round, spec_kv-lossless, spec_kv-lossy,
}
use adapter_slots_plus_plus.ServeKvGraph.{Graphed, graphed_spec, graphed_nospec}
use adapter_slots_plus_plus.ServeKvGraph.SlotModel.{slot_model, slot_model-IsStatic}
use adapter_slots_plus_plus.ServeKvGraph.Spec.{graphed_spec_lem}
use adapter_slots_plus_plus.ServeKvGraph.Plain.{graphed_nospec_lem}

abbrev sum_mod : List ℕ → ℕ
sum_mod [] = 1
sum_mod (x ∷ xs) = (x + sum_mod xs) % 7

abbrev adder : CachedModel
adder = token_model sum_mod

abbrev half_right : List ℕ → ℕ
half_right ctx = if ltb (length ctx) 5 then sum_mod ctx else 0

abbrev always_five : List ℕ → ℕ
always_five ctx = 5

abbrev prompt : List ℕ
prompt = 3 ∷ 1 ∷ 4 ∷ []

nospec_kv-nospec_nokv_example :
    (nospec_kv adder prompt 4 ≡ nospec_nokv adder prompt 4)
    × (nospec_nokv adder prompt 4 ≡ some (greedy sum_mod 4 prompt))
nospec_kv-nospec_nokv_example =
    nospec_kv-nospec_nokv (token_model-IsCausal sum_mod) prompt 4 (omega arith) (omega arith)

spec_kv_lem_example :
    Returns (token_model-IsCausal half_right) (token_model-IsCausal sum_mod) 3 6 prompt
spec_kv_lem_example =
    spec_kv_lem (token_model-IsCausal half_right) (token_model-IsCausal sum_mod) 3 6 prompt
      (omega arith) (omega arith)

spec_kv-first_round_example :
    Agree (token_model-IsCausal half_right) (token_model-IsCausal sum_mod) 3 3 prompt
unfolding accepted predictions greedy
spec_kv-first_round_example =
    spec_kv-first_round (token_model-IsCausal half_right) (token_model-IsCausal sum_mod) 3 3 prompt
      (omega arith) (omega arith) (omega arith) (omega arith)

spec_kv-lossless_example :
    Agree (token_model-IsCausal half_right) (token_model-IsCausal always_five) 3 9 prompt
spec_kv-lossless_example =
    spec_kv-lossless (token_model-IsCausal half_right) (token_model-IsCausal always_five) 3 9 prompt
      (omega arith) (omega arith) (omega arith) (λ w. refl)

spec_kv-lossy_example :
    ¬ Agree (token_model-IsCausal half_right) (token_model-IsCausal sum_mod) 3 4 prompt
unfolding accepted predictions greedy
spec_kv-lossy_example =
    spec_kv-lossy (token_model-IsCausal half_right) (token_model-IsCausal sum_mod) 3 4 prompt
      (omega arith) (omega arith) (omega arith) (λ e. cc)

-- A graph for `s` tokens, with a cache that an earlier call has left full.
abbrev stale : (f : List ℕ → ℕ) → ℕ → Graphed (slot_model f 12)
stale f s = record {
  s = s;
  graph = true;
  cache = 9 ∷ 9 ∷ 9 ∷ 9 ∷ 9 ∷ 9 ∷ 9 ∷ 9 ∷ 9 ∷ 9 ∷ 9 ∷ 9 ∷ [];
}

graphed_spec_lem_example :
    graphed_spec
      (slot_model half_right 12)
      (slot_model sum_mod 12)
      (stale half_right 1)
      (stale sum_mod 4)
      prompt
      3
      6
    ≡ some (greedy sum_mod 6 prompt)
graphed_spec_lem_example =
    graphed_spec_lem (slot_model-IsStatic half_right 12) (slot_model-IsStatic sum_mod 12) 1
      (omega arith) (stale half_right 1) (stale sum_mod 4) prompt 3 6 (refl, refl) (refl, refl)
      (omega arith) (omega arith) (omega arith)

graphed_nospec_lem_example :
    graphed_nospec (slot_model sum_mod 12) (stale sum_mod 2) prompt 9
    ≡ some (greedy sum_mod 9 prompt)
graphed_nospec_lem_example =
    graphed_nospec_lem (slot_model-IsStatic sum_mod 12) 2 (omega arith) (stale sum_mod 2) prompt 9
      (refl, refl) (omega arith) (omega arith)
