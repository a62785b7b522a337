-- ===== src/SpecLoops/Kept.antt =====
-- What the rounds of `spec_kv` (benchmarks/e2e/spec_loops.py) keep: the target's cache against what
-- is committed, and the counters.
use adapter_slots_plus_plus.Common.{
  ℕ, zero, suc, ◌+◌, ◌-◌, ◌*◌, ◌≤◌, ◌<◌, ◌≡◌, refl, ap, sym, subst₂, ◌∙◌, inl, inr, List, [], ◌∷◌,
  ◌++◌, some, append-nil, append_assoc, length-take, arith, length, append_snoc, take, drop_last,
  Bool-cases, length-append, take-append_add, drop_last-append, drop_last-take, ltb, ltb→lt,
  ltb_false→le, le→ltb_false, false,
}
use adapter_slots_plus_plus.Models.{CachedModel, IsCausal, next}
use adapter_slots_plus_plus.Models.Greedy.{
  greedy, length-greedy, greedy-add, greedy-suc, take-greedy,
}
use adapter_slots_plus_plus.SpecLoops.{SpecState, round, spec_loop}
use adapter_slots_plus_plus.SpecLoops.Round.{after_round}

-- The rule of `spec_kv`'s loop: what each round keeps holds when it ends, and enough fuel is one
-- round for each token that is asked for.
pub spec_loop_inv {ℓ} :
    (draft target : CachedModel) (P : SpecState draft target → Type ℓ) (gamma n_new : ℕ)
    → ((s : SpecState draft target)
        → P s
        → length s.committed_extra < n_new
        → (s' : SpecState draft target) × (round draft target gamma s ≡ some s')
          × P s'
          × (length s.committed_extra < length s'.committed_extra))
    → (fuel : ℕ) (s : SpecState draft target) → P s
    → n_new ≤ fuel + length s.committed_extra
    → (s' : SpecState draft target) × (spec_loop draft target (suc fuel) gamma n_new s ≡ some s')
      × P s'
      × (n_new ≤ length s'.committed_extra)
unfolding spec_loop
spec_loop_inv draft target P gamma n_new keep zero s holds enough =
    let stop : ltb (length s.committed_extra) n_new ≡ false = le→ltb_false _ _ (omega arith) in
    (s, rw stop, holds, omega arith)
spec_loop_inv draft target P gamma n_new keep (suc fuel) s holds enough =
    elim (Bool-cases (ltb (length s.committed_extra) n_new)) [
      | inl again ↦
          let less : length s.committed_extra < n_new = ltb→lt _ _ again in
          let (s₁, run, holds₁, grows) = keep s holds less in
          let (s', rest, holds', done) =
            spec_loop_inv draft target P gamma n_new keep fuel s₁ holds₁ (omega arith) in
          (s', rw (again, run, rest), holds', done)
      | inr stop ↦ (s, rw stop, holds, ltb_false→le _ _ stop)
    ]

-- Cutting the verified cache off one token early, and in its place.
cut_short :
    (c : List ℕ) (x : ℕ) (prop : List ℕ) (n a : ℕ)
    → n ≡ suc (length c)
    → a ≤ length prop
    → take (n - 1 + a) (c ++ x ∷ prop) ≡ drop_last (c ++ x ∷ take a prop)
cut_short c x prop n a e le =
    let index : n - 1 + a ≡ length c + a = omega arith in
    rw index (
      take-append_add a c (x ∷ prop)
      ∙ sym (drop_last-append c x (take a prop) ∙ ap (◌++◌ c) (drop_last-take a x prop le)))

cut_right :
    (c : List ℕ) (x : ℕ) (prop : List ℕ) (n a : ℕ)
    → n ≡ length c + 2
    → take (n - 1 + a) (c ++ x ∷ prop) ≡ c ++ x ∷ take a prop
cut_right c x prop n a e =
    let index : n - 1 + a ≡ length c + suc a = omega arith in
    rw index (take-append_add (suc a) c (x ∷ prop))

-- Greedy decoding goes on where it stopped.
greedy_more :
    (f : List ℕ → ℕ) (base first extra ctx : List ℕ) (k a : ℕ)
    → ctx ≡ base ++ greedy f k base
    → extra ≡ first ++ greedy f k base
    → extra ++ (greedy f a ctx ++ f (ctx ++ greedy f a ctx) ∷ [])
      ≡ first ++ greedy f (k + suc a) base
greedy_more f base first extra ctx k a c e =
    rw (← greedy-suc f a ctx, e, c)
      (append_assoc first (greedy f k base) (greedy f (suc a) (base ++ greedy f k base))
        ∙ ap (◌++◌ first) (sym (greedy-add f k (suc a) base)))

pub take-greedy_more :
    (f : List ℕ → ℕ) (base first : List ℕ) (n j k : ℕ)
    → n ≤ length first + j
    → n ≤ length first + k
    → take n (first ++ greedy f j base) ≡ take n (first ++ greedy f k base)
take-greedy_more f base [] n j k p q =
    take-greedy f n j base (omega arith) ∙ sym (take-greedy f n k base (omega arith))
take-greedy_more f base (x ∷ first) zero j k p q = refl
take-greedy_more f base (x ∷ first) (suc n) j k p q =
    ap (◌∷◌ x) (take-greedy_more f base first n j k (omega arith) (omega arith))

module _ (draft : CachedModel) {target : CachedModel} (tlaw : IsCausal target) where
  -- The proposals that the first round accepts.
  -- What the target has seen when a round begins.
  abbrev pub context : SpecState draft target → List ℕ
  context s = tlaw.contents s.target_cache ++ s.pending ∷ []

  -- The state after a first round that committed `first`, and `k` tokens more.
  pub record Running (base first : List ℕ) (s : SpecState draft target) : Type 0 where
    pub more : ℕ
    pub holds :
        tlaw.contents s.target_cache ++ s.pending ∷ [] ≡ base ++ greedy (next tlaw) more base
    pub committed : s.committed_extra ≡ first ++ greedy (next tlaw) more base
    pub position : s.n ≡ length (tlaw.contents s.target_cache) + 2

  pub Running-cong :
      {base base' first first' : List ℕ} {s : SpecState draft target}
      → base ≡ base'
      → first ≡ first'
      → Running base first s
      → Running base' first' s
  Running-cong {s = s} p q r = subst₂ (λ b f. Running b f s) p q r

  -- Each round commits the accepted proposals and one token of the target's.
  pub record Counted (gamma n_new : ℕ) (s : SpecState draft target) : Type 0 where
    pub counted : length s.committed_extra ≡ s.acc_tot + s.steps
    pub bounded : s.acc_tot ≤ gamma * s.steps
    pub overshoot : length s.committed_extra ≤ n_new + gamma

  -- A round that accepts `a` of the proposals, each the target's own token.
  module _ (s : SpecState draft target) (p : ℕ) (ps : List ℕ) (a : ℕ) (c' : draft.Cache) where
    abbrev pub later : SpecState draft target
    later = after_round tlaw s (context s) a (p ∷ ps) c'

    later_cached :
        tlaw.contents later.target_cache
        ≡ take (s.n - 1 + a) (tlaw.contents s.target_cache ++ s.pending ∷ p ∷ ps)
    later_cached =
        tlaw.contents-crop (s.n - 1 + a) (target.forward (s.pending ∷ p ∷ ps) s.target_cache).1
        ∙ ap (take (s.n - 1 + a)) (tlaw.forward_contents s.pending (p ∷ ps) s.target_cache)

    -- From the second round on, nothing more is lost.
    pub later-Running :
        {base first : List ℕ}
        → take a (p ∷ ps) ≡ greedy (next tlaw) a (context s)
        → Running base first s
        → Running base first later
    later-Running {base} {first} agree r = record {
      more = r.more + suc a;
      holds = rw kept (
          append_assoc (context s) _ _
          ∙ greedy_more (next tlaw) base base (context s) (context s) r.more a r.holds r.holds);
      committed =
          greedy_more (next tlaw) base first s.committed_extra (context s) r.more a r.holds
            r.committed;
      position = rw kept (
          omega (
            arith,
            r.position,
            length-append {0} (context s) (greedy (next tlaw) a (context s)),
            length-append {0} (tlaw.contents s.target_cache) (s.pending ∷ []),
            length-greedy (next tlaw) a (context s),
          ));
    }
      where
        kept : tlaw.contents later.target_cache ≡ (context s) ++ greedy (next tlaw) a (context s)
        kept =
            later_cached
            ∙ cut_right (tlaw.contents s.target_cache) s.pending (p ∷ ps) s.n a r.position
            ∙ ap (λ l. tlaw.contents s.target_cache ++ s.pending ∷ l) agree
            ∙ sym (append_snoc (tlaw.contents s.target_cache) s.pending _)

    -- The first round cuts the target's cache off one token early.
    pub first-Running :
        s.n ≡ suc (length (tlaw.contents s.target_cache))
        → a ≤ length (p ∷ ps)
        → take a (p ∷ ps) ≡ greedy (next tlaw) a (context s)
        → Running
            (drop_last ((context s) ++ greedy (next tlaw) a (context s))
              ++ next tlaw ((context s) ++ greedy (next tlaw) a (context s)) ∷ [])
            (s.committed_extra ++ greedy (next tlaw) (suc a) (context s))
            later
    unfolding greedy
    first-Running e le agree = record {
      more = 0;
      holds = rw kept (sym (append-nil _));
      committed =
          sym (append-nil _ ∙ ap (◌++◌ s.committed_extra) (greedy-suc (next tlaw) a (context s)));
      position = rw later_cached (
          omega (
            arith,
            length-take {0} (s.n - 1 + a) (tlaw.contents s.target_cache ++ s.pending ∷ p ∷ ps),
            length-append {0} (tlaw.contents s.target_cache) (s.pending ∷ p ∷ ps),
          ));
    }
      where
        kept :
            tlaw.contents later.target_cache
            ≡ drop_last ((context s) ++ greedy (next tlaw) a (context s))
        kept =
            later_cached
            ∙ cut_short (tlaw.contents s.target_cache) s.pending (p ∷ ps) s.n a e le
            ∙ ap (λ l. drop_last (tlaw.contents s.target_cache ++ s.pending ∷ l)) agree
            ∙ ap drop_last (sym (append_snoc (tlaw.contents s.target_cache) s.pending _))

    -- What a round commits.
    pub length-later : length later.committed_extra ≡ length s.committed_extra + a + 1
    length-later = omega (
      arith,
      length-append {0} s.committed_extra (greedy t a ctx ++ t (ctx ++ greedy t a ctx) ∷ []),
      length-append {0} (greedy t a ctx) (t (ctx ++ greedy t a ctx) ∷ []),
      length-greedy t a ctx,
    )
      where
        t : List ℕ → ℕ
        t = next tlaw

        ctx : List ℕ
        ctx = context s

    pub later-Counted :
        {gamma n_new : ℕ}
        → a ≤ gamma
        → length s.committed_extra < n_new
        → Counted gamma n_new s
        → Counted gamma n_new later
    later-Counted {gamma} {n_new} le less v = record {
      counted = omega (arith, length-later, v.counted);
      bounded = omega (arith, v.bounded);
      overshoot = omega (arith, length-later);
    }
