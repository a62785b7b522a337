-- ===== src/Recipe/Select.antt =====
-- The draft that `distill_draft_es` (benchmarks/e2e/recipe.py) deploys is the best of its candidates.
use adapter_slots_plus_plus.Common.{
  ℕ, ◌≡◌, refl, inl, inr, List, [], ◌∷◌, ◌++◌, none, some, true, false, Bool-cases,
}
use adapter_slots_plus_plus.Models.{CachedModel}
use adapter_slots_plus_plus.Bridge.Gwar.{Floats}
use adapter_slots_plus_plus.Recipe.{
  Best, SeedBest, val_accept, start, better, better_step, try_steps, try_seeds, distill_draft_es,
  snapshot_steps, checkpoints, minus_one, shared,
}

module _ (fl : Floats) (target : CachedModel) (val_prompts : List (List ℕ)) (gamma eval_tokens : ℕ)
    (snapshot : ℕ → ℕ → CachedModel) (value : CachedModel → fl.Float) where
  -- The best candidate so far is at least as good as a draft.
  abbrev pub AtLeast : Best fl → CachedModel → Type 0
  AtLeast best d = fl.lt best.val (value d) ≡ false

  -- It is at least as good as a seed's drafts at these steps, and as all seeds' drafts.
  abbrev pub AtLeastSteps : Best fl → ℕ → List ℕ → Type 0
  AtLeastSteps best seed [] = Unit
  AtLeastSteps best seed (s ∷ snaps) = AtLeast best (snapshot seed s) × AtLeastSteps best seed snaps

  abbrev pub AtLeastSeeds : Best fl → List ℕ → List ℕ → Type 0
  AtLeastSeeds best snaps [] = Unit
  AtLeastSeeds best snaps (seed ∷ seeds) =
      AtLeastSteps best seed snaps × AtLeastSeeds best snaps seeds

  -- Its draft is there, with its value.
  abbrev pub IsOwn : Best fl → Type 1
  IsOwn best = (d : CachedModel) × (best.merged ≡ some d) × (best.val ≡ value d)

  -- A later best is at least as good as whatever the older one was.
  abbrev Improves : Best fl → Best fl → Type 1
  Improves best best' = (d : CachedModel) → AtLeast best d → AtLeast best' d

  module _ (lt_irrefl : (a : fl.Float) → fl.lt a a ≡ false)
      (lt_trans : (a b c : fl.Float) → fl.lt a b ≡ true → fl.lt b c ≡ true → fl.lt a c ≡ true)
      (valued : (seed s : ℕ)
        → val_accept fl target val_prompts gamma eval_tokens (snapshot seed s)
          ≡ some (value (snapshot seed s))) where
    better-Improves :
        (best : Best fl) (seed s : ℕ) (d : CachedModel)
        → Improves best (better fl target val_prompts gamma eval_tokens best seed s d (value d))
    unfolding better
    better-Improves best seed s d e h = elim (Bool-cases (fl.lt best.val (value d))) [
      | inl less ↦ rw less (elim (Bool-cases (fl.lt (value d) (value e))) [
        | inl more ↦
            let below : fl.lt best.val (value e) ≡ true =
              lt_trans best.val (value d) (value e) less more in
            absurd (cc)
        | inr enough ↦ enough
      ])
      | inr same ↦ rw same h
    ]

    better-AtLeast :
        (best : Best fl) (seed s : ℕ) (d : CachedModel)
        → AtLeast (better fl target val_prompts gamma eval_tokens best seed s d (value d)) d
    unfolding better
    better-AtLeast best seed s d = elim (Bool-cases (fl.lt best.val (value d))) [
      | inl less ↦ rw less (lt_irrefl (value d))
      | inr same ↦ rw same same
    ]

    better-IsOwn :
        (best : Best fl) (seed s : ℕ) (d : CachedModel)
        → IsOwn best
        → IsOwn (better fl target val_prompts gamma eval_tokens best seed s d (value d))
    unfolding better
    better-IsOwn best seed s d own = elim (Bool-cases (fl.lt best.val (value d))) [
      | inl less ↦ rw less (d, refl, refl)
      | inr same ↦ rw same own
    ]

    try_steps-AtLeast :
        (seed : ℕ) (snaps : List ℕ) (s_best : SeedBest fl) (best : Best fl)
        → IsOwn best
        → (s_best' : SeedBest fl) × (best' : Best fl) × (try_steps fl target val_prompts gamma
              eval_tokens snapshot seed snaps s_best best
            ≡ some (s_best', best'))
          × IsOwn best'
          × Improves best best'
          × AtLeastSteps best' seed snaps
    unfolding try_steps
    try_steps-AtLeast seed [] s_best best own = (s_best, best, refl, own, (λ d h. h), tt)
    try_steps-AtLeast seed (s ∷ snaps) s_best best own =
        let d = snapshot seed s in
        let best₁ = better fl target val_prompts gamma eval_tokens best seed s d (value d) in
        let (s_best', best', ran, own', up, all) =
          try_steps-AtLeast seed snaps
            (better_step fl target val_prompts gamma eval_tokens s_best seed s (value d)) best₁
            (better-IsOwn best seed s d own) in
        (
          s_best',
          best',
          rw (valued seed s, ran) refl,
          own',
          λ e h. up e (better-Improves best seed s d e h),
          (up d (better-AtLeast best seed s d), all),
        )

    AtLeastSteps-Improves :
        (best best' : Best fl) (seed : ℕ) (snaps : List ℕ)
        → Improves best best'
        → AtLeastSteps best seed snaps
        → AtLeastSteps best' seed snaps
    AtLeastSteps-Improves best best' seed [] up h = tt
    AtLeastSteps-Improves best best' seed (s ∷ snaps) up (h, hs) =
        (up (snapshot seed s) h, AtLeastSteps-Improves best best' seed snaps up hs)

    try_seeds-AtLeast :
        (snaps seeds : List ℕ) (per_seed : List (SeedBest fl)) (best : Best fl)
        → IsOwn best
        → (per_seed' : List (SeedBest fl)) × (best' : Best fl) × (try_seeds fl target val_prompts
              gamma eval_tokens snapshot snaps seeds per_seed best
            ≡ some (per_seed', best'))
          × IsOwn best'
          × Improves best best'
          × AtLeastSeeds best' snaps seeds
    unfolding try_seeds
    try_seeds-AtLeast snaps [] per_seed best own = (per_seed, best, refl, own, (λ d h. h), tt)
    try_seeds-AtLeast snaps (seed ∷ seeds) per_seed best own =
        let (s_best, best₁, ran, own₁, up₁, all₁) =
          try_steps-AtLeast seed snaps (record { seed = seed; step = none; val = minus_one fl })
            best own in
        let (per_seed', best', rest, own', up, all) =
          try_seeds-AtLeast snaps seeds (per_seed ++ s_best ∷ []) best₁ own₁ in
        (
          per_seed',
          best',
          rw (ran, rest) refl,
          own',
          λ d h. up d (up₁ d h),
          (AtLeastSteps-Improves best₁ best' seed snaps up all₁, all),
        )

    -- Given a shared draft, under a strict order of the values, and where validation has a value for
    -- the shared draft and for each snapshot, the selection returns a draft with its own value, which
    -- is not below that of the shared draft nor that of any seed's draft at any kept checkpoint.
    pub distill_draft_es_lem :
        (steps : ℕ) (ckpt_steps seeds : List ℕ) (shared_draft : CachedModel)
        → val_accept fl target val_prompts gamma eval_tokens shared_draft
          ≡ some (value shared_draft)
        → let snaps = snapshot_steps (checkpoints steps ckpt_steps) 1 steps in
          (per_seed : List (SeedBest fl)) × (best : Best fl) × (distill_draft_es fl target
              val_prompts gamma eval_tokens snapshot steps ckpt_steps seeds
              (some shared_draft)
            ≡ some (per_seed, best))
          × IsOwn best
          × AtLeast best shared_draft
          × AtLeastSeeds best snaps seeds
    unfolding distill_draft_es start
    distill_draft_es_lem steps ckpt_steps seeds shared_draft valued_shared =
        let snaps = snapshot_steps (checkpoints steps ckpt_steps) 1 steps in
        let (per_seed, best, ran, own, up, all) =
          try_seeds-AtLeast snaps seeds []
            (record {
              kind = shared;
              seed = none;
              step = none;
              val = value shared_draft;
              merged = some shared_draft;
            })
            (shared_draft, refl, refl) in
        (
          per_seed,
          best,
          rw valued_shared ran,
          own,
          up shared_draft (lt_irrefl (value shared_draft)),
          all,
        )
