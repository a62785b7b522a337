-- ===== src/ServeKvGraph/Spec.antt =====
-- The loops of benchmarks/e2e/serve_kv_graph.py, plain and speculative, are greedy decoding of the
-- target, if the static caches are large enough.
use adapter_slots_plus_plus.Common.{
  ℕ, zero, suc, ◌+◌, ◌≤◌, ◌<◌, ◌≡◌, refl, ap, sym, ◌∙◌, subst, inl, inr, List, [], ◌∷◌, ◌++◌, some,
  append-nil, arith, length, take, ltb, ltb→lt, ltb_false→le, le→ltb_false, Bool-cases,
  length-append, get_last?-snoc, drop_last-snoc, snoc-cases,
}
use adapter_slots_plus_plus.Models.Greedy.{greedy, take-greedy}
use adapter_slots_plus_plus.ServeKvGraph.{
  StaticModel, IsStatic, Graphed, GraphState, spec_loop, graphed_spec,
}
use adapter_slots_plus_plus.ServeKvGraph.Replay.{IsCaptured, next_token, prefill-Holds}
use adapter_slots_plus_plus.ServeKvGraph.Round.{Inv, round-Inv}

module _ {draft target : StaticModel} {max_cache : ℕ} (dlaw : IsStatic draft max_cache)
    (tlaw : IsStatic target max_cache) (size : ℕ) (some_tokens : 0 < size) where
  spec_loop-Inv :
      (g n_new fuel : ℕ) (ids : List ℕ) (s : GraphState draft target)
      → length ids + n_new + g ≤ max_cache
      → n_new ≤ fuel + length s.committed
      → Inv dlaw tlaw size (suc g) ids s
      → (s' : GraphState draft target) × (spec_loop draft target (suc fuel) (suc g) n_new s
          ≡ some s')
        × Inv dlaw tlaw size (suc g) ids s'
        × (n_new ≤ length s'.committed)
  unfolding spec_loop
  spec_loop-Inv g n_new zero ids s fits enough v =
      (s, rw (le→ltb_false (length s.committed) n_new (omega arith)), v, omega arith)
  spec_loop-Inv g n_new (suc fuel) ids s fits enough v =
      elim (Bool-cases (ltb (length s.committed) n_new)) [
        | inl again ↦
            let less : length s.committed < n_new = ltb→lt _ _ again in
            let room : s.clen + suc g ≤ max_cache = omega (
              arith,
              v.at_end,
              ap length v.all_but_pending,
              length-append {0} v.cached (s.pending ∷ []),
              length-append {0} ids s.committed,
            ) in
            let (s₁, ran, v₁, grows) = round-Inv dlaw tlaw size some_tokens g ids s room v in
            let (s', rest, v', done) = spec_loop-Inv g n_new fuel ids s₁ fits (omega arith) v₁ in
            (s', rw (again, ran, rest), v', done)
        | inr stop ↦ (s, rw stop, v, ltb_false→le _ _ stop)
      ]

  abbrev pub IsExact : Graphed draft → Graphed target → ℕ → ℕ → List ℕ → Type 0
  IsExact gd gt gamma n_new ids =
      graphed_spec draft target gd gt ids gamma n_new ≡ some (greedy (next_token tlaw) n_new ids)

  graphed_spec_snoc :
      (gd : Graphed draft) (gt : Graphed target) (g n_new z : ℕ) (zs : List ℕ) (y : ℕ)
      → let ids = (z ∷ zs) ++ y ∷ [] in
        IsCaptured dlaw size gd
        → IsCaptured tlaw (suc g + 1) gt
        → length ids + n_new + g ≤ max_cache
        → IsExact gd gt (suc g) n_new ids
  unfolding graphed_spec greedy
  graphed_spec_snoc gd gt g n_new z zs y dcap tcap fits =
      let ids = (z ∷ zs) ++ y ∷ [] in
      let long : length ids ≡ suc (length zs) + 1 = length-append (z ∷ zs) (y ∷ []) in
      let (gd', filled, dholds) = prefill-Holds dlaw size gd z zs dcap (omega (arith, long)) in
      let (gt', filled', tholds) =
        prefill-Holds tlaw (suc g + 1) gt z zs tcap (omega (arith, long)) in
      let (s', ran, v, enough) =
        spec_loop-Inv g n_new n_new ids
          (record { gd = gd'; gt = gt'; pending = y; clen = length ids; committed = [] }) fits
          (omega arith)
          (record {
            cached = z ∷ zs;
            draft_holds = dholds;
            target_holds = tholds;
            all_but_pending = sym (append-nil ids);
            at_end = omega (arith, long);
            is_greedy = refl;
          }) in
      rw (drop_last-snoc (z ∷ zs) y, filled, filled', get_last?-snoc (z ∷ zs) y, ran)
        (ap some (
          ap (take n_new) v.is_greedy
          ∙ take-greedy (next_token tlaw) n_new (length s'.committed) ids enough))

  -- With the draft's graph captured for one token or more and the target's for `gamma + 1`, over
  -- static caches with room for the prompt, `n_new` tokens and all but one of `gamma` more,
  -- whatever earlier calls left in them, `graphed_spec` returns exactly the first `n_new` tokens of
  -- the target's greedy decoding, for every draft and on every prompt of at least two tokens.
  pub graphed_spec_lem :
      (gd : Graphed draft) (gt : Graphed target) (ids : List ℕ) (gamma n_new : ℕ)
      → IsCaptured dlaw size gd
      → IsCaptured tlaw (gamma + 1) gt
      → 0 < gamma
      → 1 < length ids
      → length ids + n_new + gamma ≤ suc max_cache
      → IsExact gd gt gamma n_new ids
  graphed_spec_lem gd gt ids zero n_new dcap tcap pos two fits = absurd (omega arith)
  graphed_spec_lem gd gt [] (suc g) n_new dcap tcap pos two fits = absurd (omega arith)
  graphed_spec_lem gd gt (x ∷ []) (suc g) n_new dcap tcap pos two fits = absurd (omega arith)
  graphed_spec_lem gd gt (x ∷ w ∷ ws) (suc g) n_new dcap tcap pos two fits =
      let (zs, y, e) = snoc-cases w ws in
      subst (IsExact gd gt (suc g) n_new) (ap (◌∷◌ x) (sym e))
        (graphed_spec_snoc gd gt g n_new x zs y dcap tcap (omega (arith, fits, ap length e)))
