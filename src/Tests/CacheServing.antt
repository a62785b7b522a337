-- ===== src/Tests/CacheServing.antt =====
-- Examples for `run_kv` of benchmarks/e2e/serve_kv_eager.py: two prompts of different lengths, a
-- target whose next token is the number of tokens it sees, and a draft that guesses 3.
use adapter_slots_plus_plus.Common.{ℕ, suc, ◌≡◌, ◌≤◌, [], ◌∷◌, List, refl, some, arith}
use adapter_slots_plus_plus.Multitenant.{max_length}
use adapter_slots_plus_plus.Serving.{speculative}
use adapter_slots_plus_plus.KvEager.Iter.{KvModel}
use adapter_slots_plus_plus.KvEager.Run.{Request, run_kv, serve, any_unfinished}
use adapter_slots_plus_plus.KvEager.Finish.{AllFinished}
use adapter_slots_plus_plus.KvEager.Complete.{run_kv_lem}

abbrev count : KvModel
count [] = 0
count (s ∷ row) = suc (count row)

abbrev guess : KvModel
guess row = 3

abbrev two_prompts : List (List ℕ)
two_prompts = (5 ∷ 6 ∷ []) ∷ (7 ∷ []) ∷ []

-- 9 is the end of a sequence.
run_kv_lem_example :
    (requests : List Request) × (it : ℕ) × (run_kv guess count 2 3 9 speculative two_prompts
      ≡ some (requests, it))
    × (it ≤ 3)
    × AllFinished count 3 9 it requests two_prompts
unfolding max_length
run_kv_lem_example =
    run_kv_lem guess count 2 3 9 (omega arith) speculative two_prompts (omega arith)
      (omega arith, (omega arith, tt)) (omega arith) (omega arith)

-- The first request accepts no guess at first; the second reads its prompt behind the padding.
run_kv-two_prompts :
    run_kv guess count 2 3 9 speculative two_prompts
    ≡ some (
      record { committed = 2 ∷ 3 ∷ 4 ∷ []; finish = some 2 }
          ∷ record { committed = 1 ∷ 2 ∷ 3 ∷ 4 ∷ []; finish = some 3 }
          ∷ [],
      3,
    )
unfolding run_kv serve any_unfinished
run_kv-two_prompts = refl
