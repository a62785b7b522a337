-- ===== src/SpecLoops/Output.antt =====
-- What `spec_kv` (benchmarks/e2e/spec_loops.py) returns, against greedy decoding of the target.
use adapter_slots_plus_plus.Common.{
  ℕ, zero, suc, ◌+◌, ◌*◌, ◌≤◌, ◌<◌, ◌≡◌, refl, ap, sym, ◌∙◌, subst, List, [], ◌∷◌, ◌++◌, some,
  arith, length, get_last?, take, drop_last, snoc-cases, get_last?-snoc, drop_last-snoc,
  length-append, lt→ltb,
}
use adapter_slots_plus_plus.Models.{CachedModel, IsCausal, next}
use adapter_slots_plus_plus.Models.Greedy.{
  greedy, predictions, accepted, accepted-le, accepted-greedy, length-greedy,
}
use adapter_slots_plus_plus.SpecLoops.{SpecState, round, spec_loop, spec_init, spec_kv}
use adapter_slots_plus_plus.SpecLoops.Round.{round_lem}
use adapter_slots_plus_plus.SpecLoops.Kept.{
  spec_loop_inv, take-greedy_more, context, Running, Counted, later, Running-cong, later-Running,
  first-Running, later-Counted, length-later,
}

module _ {draft target : CachedModel} (dlaw : IsCausal draft) (tlaw : IsCausal target) where
  -- How many proposals the first round accepts.
  abbrev pub first_accepted : ℕ → List ℕ → ℕ
  first_accepted gamma ids =
      let prop = greedy (next dlaw) gamma ids in accepted (predictions (next tlaw) ids prop) prop

  -- What the target decodes after from the second round on: the prompt and the first round's
  -- tokens, without the token before the last one.
  abbrev pub second_context : ℕ → List ℕ → List ℕ
  second_context gamma ids =
      let known = ids ++ greedy (next tlaw) (first_accepted gamma ids) ids in
      drop_last known ++ next tlaw known ∷ []

  -- The proposals of a round, and how many of them the target accepts.
  abbrev proposals : ℕ → SpecState draft target → List ℕ
  proposals gamma s = greedy (next dlaw) gamma (dlaw.contents s.draft_cache ++ s.pending ∷ [])

  abbrev agreed : ℕ → SpecState draft target → ℕ
  agreed gamma s =
      accepted (predictions (next tlaw) (context draft tlaw s) (proposals gamma s))
        (proposals gamma s)

  abbrev next_state : ℕ → SpecState draft target → draft.Cache → SpecState draft target
  next_state g s c' =
      let ctx = dlaw.contents s.draft_cache ++ s.pending ∷ [] in
      let y = next dlaw ctx in
      later draft tlaw s y (greedy (next dlaw) g (ctx ++ y ∷ [])) (agreed (suc g) s) c'

  agreed-le : (gamma : ℕ) (s : SpecState draft target) → agreed gamma s ≤ gamma
  agreed-le gamma s = omega (
    arith,
    accepted-le (predictions (next tlaw) (context draft tlaw s) (proposals gamma s))
        (proposals gamma s),
    length-greedy (next dlaw) gamma (dlaw.contents s.draft_cache ++ s.pending ∷ []),
  )

  -- A round from the second on.
  round-keeps :
      (g n_new : ℕ) (base first : List ℕ) (s : SpecState draft target)
      → Running draft tlaw base first s × Counted draft tlaw (suc g) n_new s
      → length s.committed_extra < n_new
      → (s' : SpecState draft target) × (round draft target (suc g) s ≡ some s')
        × (Running draft tlaw base first s' × Counted draft tlaw (suc g) n_new s')
        × (length s.committed_extra < length s'.committed_extra)
  unfolding greedy
  round-keeps g n_new base first s (r, v) less =
      let (c', run) = round_lem tlaw dlaw g s in
      let a = agreed (suc g) s in
      let agree = (accepted-greedy (next tlaw) (context draft tlaw s) (proposals (suc g) s)).0 in
      (
        next_state g s c',
        run,
        (
          later-Running draft tlaw s _ _ a c' agree r,
          later-Counted draft tlaw s _ _ a c' (agreed-le (suc g) s) less v,
        ),
        omega (arith, length-later draft tlaw s _ _ a c'),
      )

  -- What `spec_kv` returns: the first round's tokens are greedy decoding's, the later ones greedy
  -- decoding's after `second_context`. It returns the number of tokens that it is asked for.
  abbrev pub Returns : ℕ → ℕ → List ℕ → Type 0
  Returns gamma n_new ids =
      (acc_tot : ℕ) × (steps : ℕ) × (spec_kv draft target ids gamma n_new
        ≡ some (
          take n_new (
              greedy (next tlaw) (suc (first_accepted gamma ids)) ids
              ++ greedy (next tlaw) n_new (second_context gamma ids)),
          acc_tot,
          steps,
        ))
      × (acc_tot ≤ gamma * steps)
      × (n_new ≤ acc_tot + steps)
      × (acc_tot + steps ≤ n_new + gamma)

  -- The same at a state whose caches hold all of `ids` but its last token.
  module _ (g : ℕ) (ids : List ℕ) (s : SpecState draft target)
      (dseen : dlaw.contents s.draft_cache ++ s.pending ∷ [] ≡ ids)
      (tseen : tlaw.contents s.target_cache ++ s.pending ∷ [] ≡ ids) where
    first_tokens :
        greedy (next tlaw) (suc (agreed g s)) (context draft tlaw s)
        ≡ greedy (next tlaw) (suc (first_accepted g ids)) ids
    first_tokens = rw (tseen, dseen)

    second_tokens :
        (let known =
            context draft tlaw s ++ greedy (next tlaw) (agreed g s) (context draft tlaw s) in
          drop_last known ++ next tlaw known ∷ [])
        ≡ second_context g ids
    second_tokens = rw (tseen, dseen)

  -- The first round, from caches that hold all of `ids` but its last token.
  first_round :
      (g n_new : ℕ) (ids : List ℕ) (s : SpecState draft target)
      → dlaw.contents s.draft_cache ++ s.pending ∷ [] ≡ ids
      → tlaw.contents s.target_cache ++ s.pending ∷ [] ≡ ids
      → s.n ≡ length ids
      → s.committed_extra ≡ []
      → s.acc_tot ≡ 0
      → s.steps ≡ 0
      → 0 < n_new
      → (s' : SpecState draft target) × (round draft target (suc g) s ≡ some s')
        × (Running draft tlaw
              (second_context (suc g) ids)
              (greedy (next tlaw) (suc (first_accepted (suc g) ids)) ids)
              s'
            × Counted draft tlaw (suc g) n_new s')
        × (0 < length s'.committed_extra)
  unfolding greedy
  first_round g n_new ids s dseen tseen n_ids none_yet acc₀ steps₀ pos =
      let (c', run) = round_lem tlaw dlaw g s in
      let a = agreed (suc g) s in
      let prop = proposals (suc g) s in
      let agree = (accepted-greedy (next tlaw) (context draft tlaw s) prop).0 in
      let at_end : s.n ≡ suc (length (tlaw.contents s.target_cache)) = omega (
        arith,
        n_ids,
        ap length tseen,
        length-append {0} (tlaw.contents s.target_cache) (s.pending ∷ []),
      ) in
      let le : a ≤ length prop = omega (
        arith,
        agreed-le (suc g) s,
        length-greedy (next dlaw) (suc g) (dlaw.contents s.draft_cache ++ s.pending ∷ []),
      ) in
      (
        next_state g s c',
        run,
        (
          Running-cong draft tlaw (second_tokens (suc g) ids s dseen tseen)
              (ap (λ l. l ++ greedy (next tlaw) (suc a) (context draft tlaw s)) none_yet
                ∙ first_tokens (suc g) ids s dseen tseen)
              (first-Running draft tlaw s _ _ a c' at_end le agree),
          later-Counted draft tlaw s _ _ a c' (agreed-le (suc g) s) (rw none_yet pos) (record {
            counted = rw none_yet (omega arith);
            bounded = omega arith;
            overshoot = rw none_yet (omega arith);
          }),
        ),
        omega (arith, length-later draft tlaw s _ _ a c'),
      )

  spec_kv_run :
      (gamma n_new : ℕ) (ids : List ℕ) (y : ℕ) (s₁ s' : SpecState draft target) (tokens : List ℕ)
      → get_last? ids ≡ some y
      → 0 < n_new
      → round draft target gamma (spec_init draft target ids y) ≡ some s₁
      → spec_loop draft target n_new gamma n_new s₁ ≡ some s'
      → take n_new s'.committed_extra ≡ tokens
      → spec_kv draft target ids gamma n_new ≡ some (tokens, s'.acc_tot, s'.steps)
  unfolding spec_kv spec_loop spec_init
  spec_kv_run gamma n_new ids y s₁ s' tokens last pos run rest cut =
      rw (last, lt→ltb 0 n_new pos, run, rest, cut)

  Returns-snoc : (g n_new z : ℕ) (zs : List ℕ) (y : ℕ) → Returns (suc g) n_new ((z ∷ zs) ++ y ∷ [])
  unfolding spec_kv spec_loop spec_init
  Returns-snoc g zero z zs y =
      (0, 0, rw (get_last?-snoc (z ∷ zs) y), omega arith, omega arith, omega arith)
  Returns-snoc g (suc n) z zs y =
      let ids = (z ∷ zs) ++ y ∷ [] in
      let s = spec_init draft target ids y in
      let (s₁, run, kept, grows) =
        first_round g (suc n) ids s (filled dlaw) (filled tlaw) refl refl refl refl (omega arith) in
      let (s', rest, (r, v), enough) =
        spec_loop_inv draft target
          (λ s.
            Running draft tlaw (second_context (suc g) ids)
              (greedy (next tlaw) (suc (first_accepted (suc g) ids)) ids) s
            × Counted draft tlaw (suc g) (suc n) s)
          (suc g) (suc n) (round-keeps g (suc n) _ _) n s₁ kept (omega arith) in
      (
        s'.acc_tot,
        s'.steps,
        spec_kv_run (suc g) (suc n) ids y s₁ s' _ (get_last?-snoc (z ∷ zs) y) (omega arith) run rest
            (ap (take (suc n)) r.committed
              ∙ take-greedy_more (next tlaw) _ _ (suc n) r.more (suc n)
                  (omega (
                    arith,
                    enough,
                    ap length r.committed,
                    length-append {0} (greedy (next tlaw) (suc (first_accepted (suc g) ids)) ids)
                        (greedy (next tlaw) r.more (second_context (suc g) ids)),
                    length-greedy (next tlaw) r.more (second_context (suc g) ids),
                  ))
                  (omega arith)),
        v.bounded,
        omega (arith, v.counted),
        omega (arith, v.counted, v.overshoot),
      )
    where
      filled :
          {m : CachedModel} (law : IsCausal m)
          → law.contents (m.forward (drop_last ((z ∷ zs) ++ y ∷ [])) m.new_cache).1 ++ y ∷ []
            ≡ (z ∷ zs) ++ y ∷ []
      filled {m} law =
          rw (
            drop_last-snoc (z ∷ zs) y,
            law.forward_contents z zs m.new_cache,
            law.contents-new_cache,
          )

  -- On a prompt of at least two tokens and with at least one proposal a round, `spec_kv` does not
  -- raise and returns the first `n_new` tokens of this list: the first round's tokens are greedy
  -- decoding's after the prompt, all later ones are greedy decoding's after `second_context`, in which
  -- the token before the first round's last is missing. At most `gamma` proposals are accepted for
  -- each step, and proposals and steps together are `n_new` to `n_new + gamma`.
  pub spec_kv_lem :
      (gamma n_new : ℕ) (ids : List ℕ) → 0 < gamma → 1 < length ids → Returns gamma n_new ids
  spec_kv_lem zero n_new ids pos two = absurd (omega arith)
  spec_kv_lem (suc g) n_new [] pos two = absurd (omega arith)
  spec_kv_lem (suc g) n_new (x ∷ []) pos two = absurd (omega arith)
  spec_kv_lem (suc g) n_new (x ∷ w ∷ ws) pos two =
      let (zs, y, e) = snoc-cases w ws in
      subst (Returns (suc g) n_new) (ap (◌∷◌ x) (sym e)) (Returns-snoc g n_new x zs y)
