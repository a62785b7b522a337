-- ===== src/SpecLoops/Round.antt =====
-- One round of `spec_kv` (benchmarks/e2e/spec_loops.py): what the draft proposes, what the target
-- verifies, and what the target's cache holds afterwards.
use adapter_slots_plus_plus.Common.{
  ℕ, zero, suc, ◌+◌, ◌-◌, ◌≡◌, refl, sym, inl, inr, List, [], ◌∷◌, ◌++◌, some, append-nil,
  append_snoc, take, ◌==◌, Bool-cases, get_last?-cons,
}
use adapter_slots_plus_plus.Models.{CachedModel, IsCausal, next}
use adapter_slots_plus_plus.Models.Greedy.{greedy, predictions, accepted, accepted-greedy}
use adapter_slots_plus_plus.SpecLoops.{SpecState, cat, propose, roll_back_draft, verify, round}
use adapter_slots_plus_plus.SpecLoops.Reference.{argmax-logits_after, last_token-forward}

-- The draft proposes its own greedy continuation, and its cache then lacks the last proposal only.
pub propose-greedy :
    {m : CachedModel} (law : IsCausal m) (g x : ℕ) (c : m.Cache)
    → let prop = greedy (next law) g (law.contents c ++ x ∷ []) in
      (c' : m.Cache) × (propose m g x c ≡ some (prop, c'))
      × (law.contents c' ≡ law.contents c ++ take g (x ∷ prop))
unfolding propose greedy
propose-greedy law zero x c = (c, refl, sym (append-nil (law.contents c)))
propose-greedy {m} law (suc g) x c =
    let y = next law (law.contents c ++ x ∷ []) in
    let c₁ = (m.forward (x ∷ []) c).1 in
    let filled : law.contents c₁ ≡ law.contents c ++ x ∷ [] = law.forward_contents x [] c in
    let (c', run, holds) = propose-greedy law g y c₁ in
    (
      c',
      rw (last_token-forward law x [] c, run, filled),
      rw (holds, filled) (append_snoc (law.contents c) x _),
    )

-- The draft's side of a round never raises.
roll_back_draft_total :
    (draft target : CachedModel) (gamma n a p : ℕ) (ps : List ℕ) (c : draft.Cache)
    → (c' : draft.Cache) × (roll_back_draft draft target gamma n a (p ∷ ps) c ≡ some c')
unfolding roll_back_draft
roll_back_draft_total draft target gamma n a p ps c = elim (Bool-cases (a == gamma)) [
  | inl all ↦
      let (last, found) = get_last?-cons p ps in ((draft.forward (last ∷ []) c).1, rw (all, found))
  | inr part ↦ (draft.crop (n - 1 + a) c, rw part)
]

module _ {draft target : CachedModel} (tlaw : IsCausal target) where
  -- The state behind a round that accepted `a` proposals, at the target's context `ctx`.
  abbrev pub after_round :
      SpecState draft target → List ℕ → ℕ → List ℕ → draft.Cache → SpecState draft target
  after_round s ctx a prop c' = record {
    draft_cache = c';
    target_cache = target.crop (s.n - 1 + a) (target.forward (s.pending ∷ prop) s.target_cache).1;
    pending = next tlaw (ctx ++ greedy (next tlaw) a ctx);
    n = s.n + a + 1;
    committed_extra =
        s.committed_extra
        ++ (greedy (next tlaw) a ctx ++ next tlaw (ctx ++ greedy (next tlaw) a ctx) ∷ []);
    acc_tot = s.acc_tot + a;
    steps = s.steps + 1;
  }

  -- The target commits its own greedy tokens, after what its cache holds and the pending token.
  pub verify_lem :
      (gamma : ℕ) (s : SpecState draft target) (p : ℕ) (ps : List ℕ) (c : draft.Cache)
      → let ctx = tlaw.contents s.target_cache ++ s.pending ∷ [] in
        let a = accepted (predictions (next tlaw) ctx (p ∷ ps)) (p ∷ ps) in
        (c' : draft.Cache) × (verify draft target gamma s (p ∷ ps) c
          ≡ some (after_round s ctx a (p ∷ ps) c'))
  unfolding verify cat
  verify_lem gamma s p ps c =
      let c₀ = tlaw.contents s.target_cache in
      let ctx = c₀ ++ s.pending ∷ [] in
      let a = accepted (predictions (next tlaw) ctx (p ∷ ps)) (p ∷ ps) in
      let (prefix, bonus) = accepted-greedy (next tlaw) ctx (p ∷ ps) in
      let (c', rolled) = roll_back_draft_total draft target gamma s.n a p ps c in
      (
        c',
        rw (
          tlaw.forward_logits s.pending (p ∷ ps) s.target_cache,
          argmax-logits_after target.argmax tlaw.logits c₀ s.pending (p ∷ ps),
          bonus,
          rolled,
          prefix,
        ),
      )

  -- A round of at least one proposal, from the draft's proposal on.
  pub round_lem :
      (dlaw : IsCausal draft) (g : ℕ) (s : SpecState draft target)
      → let ctx = tlaw.contents s.target_cache ++ s.pending ∷ [] in
        let prop = greedy (next dlaw) (suc g) (dlaw.contents s.draft_cache ++ s.pending ∷ []) in
        let a = accepted (predictions (next tlaw) ctx prop) prop in
        (c' : draft.Cache) × (round draft target (suc g) s ≡ some (after_round s ctx a prop c'))
  unfolding round greedy
  round_lem dlaw g s =
      let (c, run, _) = propose-greedy dlaw (suc g) s.pending s.draft_cache in
      let y = next dlaw (dlaw.contents s.draft_cache ++ s.pending ∷ []) in
      let rest = greedy (next dlaw) g ((dlaw.contents s.draft_cache ++ s.pending ∷ []) ++ y ∷ []) in
      let (c', done) = verify_lem (suc g) s y rest c in (c', rw run done)
