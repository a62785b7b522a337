-- ===== src/ServeKvGraph/Round.antt =====
-- One speculative round of benchmarks/e2e/serve_kv_graph.py, over caches that are large enough.
use adapter_slots_plus_plus.Common.{
  ℕ, suc, ◌+◌, ◌-◌, ◌≤◌, ◌<◌, ◌≡◌, ap, sym, ◌∙◌, subst, inl, inr, List, [], ◌∷◌, ◌++◌, some,
  append_assoc, arith, length, append_snoc, take, drop_last, ◌==◌, Bool-cases, length-append,
  get_last?-cons, drop_last-take, drop_last-append_last, take-append-drop, take_of_length-le, drop,
  take-take_of_le,
}
use adapter_slots_plus_plus.Models.Greedy.{
  greedy, predictions, accepted, accepted-le, accepted-greedy, length-greedy, IsGreedy,
  IsGreedy-commit,
}
use adapter_slots_plus_plus.SpecLoops.{cat}
use adapter_slots_plus_plus.SpecLoops.Reference.{argmax-logits_after}
use adapter_slots_plus_plus.ServeKvGraph.{
  StaticModel, IsStatic, Graphed, GraphState, feed_last, verify, round,
}
use adapter_slots_plus_plus.ServeKvGraph.Replay.{
  next_token, Holds, Holds-rewind, run-Holds, run_one-Holds, propose-Holds,
}

module _ {draft target : StaticModel} {max_cache : ℕ} (dlaw : IsStatic draft max_cache)
    (tlaw : IsStatic target max_cache) (size : ℕ) where
  Holds-take :
      {m : StaticModel} (law : IsStatic m max_cache) (n : ℕ) (g : Graphed m) (ctx l : List ℕ)
      (k : ℕ)
      → Holds law n g (ctx ++ l)
      → Holds law n g (ctx ++ take k l)
  Holds-take law n g ctx l k h =
      Holds-rewind law n g (ctx ++ take k l) (drop k l)
        (rw (append_assoc ctx (take k l) (drop k l), take-append-drop k l) h)

  -- The draft's cache holds all that the target committed, whether or not it accepted everything.
  feed_last-Holds :
      (gamma clen a : ℕ) (ctx : List ℕ) (x p : ℕ) (ps : List ℕ) (g : Graphed draft)
      → 0 < size
      → length (p ∷ ps) ≡ gamma
      → a ≤ gamma
      → clen ≡ suc (length ctx)
      → clen + gamma ≤ max_cache
      → Holds dlaw size g (ctx ++ take gamma (x ∷ p ∷ ps))
      → (g' : Graphed draft) × (feed_last draft target gamma clen a (p ∷ ps) g ≡ some g')
        × Holds dlaw size g' (ctx ++ x ∷ take a (p ∷ ps))
  unfolding feed_last
  feed_last-Holds gamma clen a ctx x p ps g some_tokens len le here fits h =
      elim (Bool-cases (a == gamma)) [
        | inl all ↦
            let (last, found) = get_last?-cons p ps in
            let short : take gamma (x ∷ p ∷ ps) ≡ drop_last (x ∷ p ∷ ps) = sym (
              ap (λ l. drop_last (x ∷ l)) (sym (take_of_length-le gamma (p ∷ ps) (omega arith)))
              ∙ drop_last-take gamma x (p ∷ ps) (omega arith)) in
            let whole : (ctx ++ drop_last (x ∷ p ∷ ps)) ++ last ∷ [] ≡ ctx ++ x ∷ p ∷ ps =
              append_assoc ctx (drop_last (x ∷ p ∷ ps)) (last ∷ [])
              ∙ ap (◌++◌ ctx) (drop_last-append_last x (p ∷ ps) last found) in
            let (out, g', ran, last_one, h') =
              run_one-Holds dlaw size g (ctx ++ drop_last (x ∷ p ∷ ps)) last (clen - 1 + gamma)
                some_tokens (rw (← short) h)
                (omega (
                  arith,
                  len,
                  here,
                  ap length whole,
                  length-append {0} ctx (x ∷ p ∷ ps),
                  length-append {0} (ctx ++ drop_last (x ∷ p ∷ ps)) (last ∷ []),
                ))
                (omega arith) in
            (
              g',
              rw (all, found, ran),
              Holds-take dlaw size g' ctx (x ∷ p ∷ ps) (suc a)
                  (subst (Holds dlaw size g') whole h'),
            )
        | inr part ↦
            let below : suc a ≤ gamma = ground (arith, part, le) in
            (
              g,
              rw part,
              subst (λ l. Holds dlaw size g (ctx ++ l))
                  (take-take_of_le (suc a) gamma (x ∷ p ∷ ps) below)
                  (Holds-take dlaw size g ctx _ (suc a) h),
            )
      ]

  -- Between two rounds.
  pub record Inv (gamma : ℕ) (ids : List ℕ) (s : GraphState draft target) : Type 0 where
    pub cached : List ℕ
    pub draft_holds : Holds dlaw size s.gd cached
    pub target_holds : Holds tlaw (gamma + 1) s.gt cached
    pub all_but_pending : cached ++ s.pending ∷ [] ≡ ids ++ s.committed
    pub at_end : s.clen ≡ suc (length cached)
    pub is_greedy : IsGreedy (next_token tlaw) ids s.committed

  -- A round from the verification on: any proposals will do.
  verify-Inv :
      (gamma : ℕ) (ids : List ℕ) (s : GraphState draft target) (p : ℕ) (ps : List ℕ)
      (gd : Graphed draft) (v : Inv gamma ids s)
      → 0 < size
      → length (p ∷ ps) ≡ gamma
      → s.clen + gamma ≤ max_cache
      → Holds dlaw size gd (v.cached ++ take gamma (s.pending ∷ p ∷ ps))
      → (s' : GraphState draft target) × (verify draft target gamma s (p ∷ ps) gd ≡ some s')
        × Inv gamma ids s'
        × (length s.committed < length s'.committed)
  unfolding verify cat
  verify-Inv gamma ids s p ps gd v some_tokens len fits holds =
      let (gt', verified, holds₂) =
        run-Holds tlaw (gamma + 1) s.gt c x prop (s.clen - 1) v.target_holds (omega (arith, len))
          (omega (arith, v.at_end)) (omega (arith, v.at_end, len)) in
      let (gd', fed, holds₃) =
        feed_last-Holds gamma s.clen a c x p ps gd some_tokens len le v.at_end fits holds in
      (
        record {
          gd = gd';
          gt = gt';
          pending = bonus;
          clen = s.clen + (a + 1);
          committed = s.committed ++ (take a prop ++ bonus ∷ []);
        },
        rw (
          ← size_at,
          verified,
          argmax-logits_after target.argmax tlaw.logits c x prop,
          (accepted-greedy t ctx prop).1,
          fed,
        ),
        record {
          cached = c ++ x ∷ take a prop;
          draft_holds = holds₃;
          target_holds = Holds-take tlaw (gamma + 1) gt' c (x ∷ prop) (suc a) holds₂;
          all_but_pending =
              append_assoc c (x ∷ take a prop) (bonus ∷ [])
              ∙ sym (append_snoc c x (take a prop ++ bonus ∷ []))
              ∙ ap (λ l. l ++ (take a prop ++ bonus ∷ [])) v.all_but_pending
              ∙ append_assoc ids s.committed (take a prop ++ bonus ∷ []);
          at_end = omega (arith, v.at_end, length-append {0} c (x ∷ take a prop), length_a);
          is_greedy = grown;
        },
        omega (
          arith,
          length-append {0} s.committed (take a prop ++ bonus ∷ []),
          length-append {0} (take a prop) (bonus ∷ []),
        ),
      )
    where
      t : List ℕ → ℕ
      t = next_token tlaw

      c : List ℕ
      c = v.cached

      x : ℕ
      x = s.pending

      prop : List ℕ
      prop = p ∷ ps

      ctx : List ℕ
      ctx = c ++ x ∷ []

      a : ℕ
      a = accepted (predictions t ctx prop) prop

      bonus : ℕ
      bonus = t (ctx ++ greedy t a ctx)

      le : a ≤ gamma
      le = omega (arith, accepted-le (predictions t ctx prop) prop, len)

      agree : take a prop ≡ greedy t a ctx
      agree = (accepted-greedy t ctx prop).0

      length_a : length (take a prop) ≡ a
      length_a = ap length agree ∙ length-greedy t a ctx

      size_at : suc (length prop) ≡ gamma + 1
      size_at = omega (arith, len)

      grown :
          s.committed ++ (take a prop ++ bonus ∷ [])
          ≡ greedy t (length (s.committed ++ (take a prop ++ bonus ∷ []))) ids
      grown =
          IsGreedy-commit t ids s.committed ctx (take a prop) a v.is_greedy v.all_but_pending agree

  -- Every round that finds room in the caches keeps the invariant, and commits something.
  pub round-Inv :
      0 < size
      → (g : ℕ) (ids : List ℕ) (s : GraphState draft target) → s.clen + suc g ≤ max_cache
      → Inv (suc g) ids s
      → (s' : GraphState draft target) × (round draft target (suc g) s ≡ some s')
        × Inv (suc g) ids s'
        × (length s.committed < length s'.committed)
  unfolding round greedy
  round-Inv some_tokens g ids s fits v =
      let ctx = v.cached ++ s.pending ∷ [] in
      let (gd, proposed, holds) =
        propose-Holds dlaw size s.clen 0 (suc g) s.pending s.gd v.cached some_tokens v.draft_holds
          (omega (arith, v.at_end)) (omega (arith, v.at_end)) in
      let y = next_token dlaw ctx in
      let rest = greedy (next_token dlaw) g (ctx ++ y ∷ []) in
      let (s', done, v', grows) =
        verify-Inv (suc g) ids s y rest gd v some_tokens
          (ap suc (length-greedy (next_token dlaw) g (ctx ++ y ∷ []))) fits holds in
      (s', rw (proposed, done), v', grows)
