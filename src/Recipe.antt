-- ===== src/Recipe.antt =====
-- `distill_draft_es` of benchmarks/e2e/recipe.py from its validation on: the draft that is deployed is
-- selected by its acceptance on the validation prompts. Training is a parameter: `snapshot` is the
-- draft of a seed at a checkpoint.
pub mod Select
use adapter_slots_plus_plus.Common.{
  ℕ, zero, suc, ◌+◌, ◌*◌, List, [], ◌∷◌, ◌++◌, Option, none, some, Bool, true, false, leb, ◌==◌,
  if◌then◌else◌, ◌>>=◌,
}
use adapter_slots_plus_plus.Models.{CachedModel}
use adapter_slots_plus_plus.SpecLoops.{spec_kv}
use adapter_slots_plus_plus.Bridge.Gwar.{Floats}

-- `[c for c in ckpt_steps if c <= steps] or [steps]`
unfoldable pub kept_steps : ℕ → List ℕ → List ℕ
kept_steps steps [] = []
kept_steps steps (c ∷ ckpt_steps) =
    let rest = kept_steps steps ckpt_steps in if leb c steps then c ∷ rest else rest

unfoldable pub checkpoints : ℕ → List ℕ → List ℕ
unfolding kept_steps
checkpoints steps ckpt_steps = elim (kept_steps steps ckpt_steps) [
  | [] ↦ steps ∷ []
  | ◌∷◌ c ckpts ↦ c ∷ ckpts
]

unfoldable pub is_in : ℕ → List ℕ → Bool
is_in s [] = false
is_in s (c ∷ ckpts) = let rest = is_in s ckpts in if c == s then true else rest

-- `sorted(snaps)`: the steps from `s` on, `k` of them, at which a snapshot was taken
unfoldable pub snapshot_steps : List ℕ → ℕ → ℕ → List ℕ
unfolding is_in
snapshot_steps ckpts s zero = []
snapshot_steps ckpts s (suc k) =
    let rest = snapshot_steps ckpts (suc s) k in if is_in s ckpts then s ∷ rest else rest

pub data DraftKind : Type 0 where
  shared : DraftKind
  faithful : DraftKind

module _ (fl : Floats) where
  open fl use {Float, sub, lt, ratio}

  pub record Best : Type 1 where
    pub kind : DraftKind
    pub seed : Option ℕ
    pub step : Option ℕ
    pub val : Float
    pub merged : Option CachedModel

  -- An entry of `per_seed`.
  pub record SeedBest : Type 0 where
    pub seed : ℕ
    pub step : Option ℕ
    pub val : Float

  -- `-1.0`
  unfoldable pub minus_one : Float
  minus_one = sub (ratio 0 1) (ratio 1 1)

  module _ (target : CachedModel) (val_prompts : List (List ℕ)) (gamma eval_tokens : ℕ) where
    unfoldable pub count_accepted : CachedModel → List (List ℕ) → ℕ → ℕ → Option (ℕ × ℕ)
    count_accepted draft [] tot st = some (tot, st)
    count_accepted draft (vids ∷ prompts) tot st = do
      (ids, a, s) ← spec_kv draft target vids gamma eval_tokens
      count_accepted draft prompts (tot + a) (st + s)

    -- Without a verify step, the division raises.
    unfoldable pub val_accept : CachedModel → Option Float
    val_accept draft = do
      (tot, st) ← count_accepted draft val_prompts 0 0
      if st * gamma == 0 then none else some (ratio tot (st * gamma))

    unfoldable pub start : Option CachedModel → Option Best
    unfolding val_accept minus_one
    start none =
        some (record { kind = shared; seed = none; step = none; val = minus_one; merged = none })
    start (some shared_draft) = do
      sv ← val_accept shared_draft
      some
          (record { kind = shared; seed = none; step = none; val = sv; merged = some shared_draft })

    unfoldable pub better : Best → ℕ → ℕ → CachedModel → Float → Best
    better best seed s d v =
        if lt best.val v
        then record { kind = faithful; seed = some seed; step = some s; val = v; merged = some d }
        else best

    unfoldable pub better_step : SeedBest → ℕ → ℕ → Float → SeedBest
    better_step s_best seed s v =
        if lt s_best.val v then record { seed = seed; step = some s; val = v } else s_best

    module _ (snapshot : ℕ → ℕ → CachedModel) where
      -- The loop over a seed's snapshots.
      unfoldable pub try_steps : ℕ → List ℕ → SeedBest → Best → Option (SeedBest × Best)
      unfolding better better_step
      try_steps seed [] s_best best = some (s_best, best)
      try_steps seed (s ∷ snaps) s_best best = do
        let d = snapshot seed s
        v ← val_accept d
        try_steps seed snaps (better_step s_best seed s v) (better best seed s d v)

      -- The loop over the seeds.
      unfoldable pub try_seeds :
          List ℕ → List ℕ → List SeedBest → Best → Option (List SeedBest × Best)
      unfolding try_steps
      try_seeds snaps [] per_seed best = some (per_seed, best)
      try_seeds snaps (seed ∷ seeds) per_seed best = do
        (s_best, best') ←
            try_steps seed snaps (record { seed = seed; step = none; val = minus_one }) best
        try_seeds snaps seeds (per_seed ++ s_best ∷ []) best'

      -- The selection, and `per_seed`.
      unfoldable pub distill_draft_es :
          ℕ → List ℕ → List ℕ → Option CachedModel → Option (List SeedBest × Best)
      distill_draft_es steps ckpt_steps seeds shared_draft = do
        best ← start shared_draft
        try_seeds (snapshot_steps (checkpoints steps ckpt_steps) 1 steps) seeds [] best
