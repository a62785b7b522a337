-- ===== src/Tests/Selection.antt =====
-- An example for benchmarks/e2e/recipe.py: two seeds, one of which always learns the target.
use mathlib.Core.Option
use adapter_slots_plus_plus.Common.{
  ℕ, zero, suc, ◌<◌, ◌≡◌, refl, List, [], ◌∷◌, some, true, false, arith, ltb, ltb→lt, lt→ltb,
  le→ltb_false, length,
}
use adapter_slots_plus_plus.Models.{CachedModel, token_model, logits_after}
use adapter_slots_plus_plus.Models.Greedy.{accepted}
use adapter_slots_plus_plus.SpecLoops.{spec_kv, spec_loop, round, propose, last_token, verify}
use adapter_slots_plus_plus.Recipe.{
  Best, SeedBest, val_accept, count_accepted, distill_draft_es, snapshot_steps, checkpoints,
}
use adapter_slots_plus_plus.Recipe.Select.{AtLeast, AtLeastSeeds, IsOwn, distill_draft_es_lem}
use adapter_slots_plus_plus.Tests.Scheduling.{hundredths}

abbrev fours : CachedModel
fours = token_model (λ ctx. 4)

abbrev lengths : CachedModel
lengths = token_model (λ ctx. length ctx)

abbrev learnt : ℕ → ℕ → CachedModel
learnt zero s = lengths
learnt (suc seed) s = fours

abbrev prompts : List (List ℕ)
prompts = (1 ∷ 2 ∷ []) ∷ []

abbrev value : CachedModel → ℕ
value d = Option.get_or (val_accept hundredths fours prompts 2 4 d) 0

valued :
    (seed s : ℕ)
    → val_accept hundredths fours prompts 2 4 (learnt seed s) ≡ some (value (learnt seed s))
unfolding val_accept count_accepted spec_kv spec_loop round propose last_token logits_after verify
    accepted
valued zero s = refl
valued (suc seed) s = refl

lt_irrefl : (a : ℕ) → ltb a a ≡ false
lt_irrefl a = le→ltb_false a a (omega arith)

lt_trans : (a b c : ℕ) → ltb a b ≡ true → ltb b c ≡ true → ltb a c ≡ true
lt_trans a b c h k =
    let a_b : a < b = ltb→lt a b h in
    let b_c : b < c = ltb→lt b c k in lt→ltb a c (omega (arith, a_b, b_c))

distill_draft_es_lem_example :
    let snaps = snapshot_steps (checkpoints 300 (150 ∷ 300 ∷ 450 ∷ [])) 1 300 in
    (per_seed : List (SeedBest hundredths)) × (best : Best hundredths) × (distill_draft_es
        hundredths fours prompts 2 4 learnt 300
        (150 ∷ 300 ∷ 450 ∷ [])
        (0 ∷ 1 ∷ [])
        (some lengths)
      ≡ some (per_seed, best))
    × IsOwn hundredths fours prompts 2 4 learnt value best
    × AtLeast hundredths fours prompts 2 4 learnt value best lengths
    × AtLeastSeeds hundredths fours prompts 2 4 learnt value best snaps (0 ∷ 1 ∷ [])
distill_draft_es_lem_example =
    distill_draft_es_lem hundredths fours prompts 2 4 learnt value lt_irrefl lt_trans valued 300
      (150 ∷ 300 ∷ 450 ∷ []) (0 ∷ 1 ∷ []) lengths (valued 0 0)
