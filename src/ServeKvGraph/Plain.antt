-- ===== src/ServeKvGraph/Plain.antt =====
-- `graphed_nospec` of benchmarks/e2e/serve_kv_graph.py, over a static cache that is large enough.
use adapter_slots_plus_plus.Common.{
  ℕ, zero, suc, ◌+◌, ◌-◌, ◌≤◌, ◌<◌, ◌≡◌, refl, ap, sym, ◌∙◌, subst, List, [], ◌∷◌, ◌++◌, some,
  append-nil, append_assoc, arith, length, lt→ltb, le→ltb_false, length-append, get_last?-snoc,
  drop_last-snoc, snoc-cases,
}
use adapter_slots_plus_plus.Models.Greedy.{greedy, IsGreedy, IsGreedy-append}
use adapter_slots_plus_plus.ServeKvGraph.{
  StaticModel, IsStatic, Graphed, nospec_loop, graphed_nospec,
}
use adapter_slots_plus_plus.ServeKvGraph.Replay.{
  IsCaptured, next_token, Holds, run_one-Holds, prefill-Holds,
}

one_more :
    (f : List ℕ → ℕ) (ids committed : List ℕ)
    → IsGreedy f ids committed
    → IsGreedy f ids (committed ++ f (ids ++ committed) ∷ [])
unfolding greedy
one_more f ids committed done = IsGreedy-append f ids committed 1 done

module _ {target : StaticModel} {max_cache : ℕ} (law : IsStatic target max_cache) (size : ℕ)
    (some_tokens : 0 < size) where
  nospec_loop-greedy :
      (n_new fuel pending clen : ℕ) (ids cached committed : List ℕ) (g : Graphed target)
      → length ids + n_new ≤ suc max_cache
      → n_new ≡ fuel + length committed
      → Holds law size g cached
      → cached ++ pending ∷ [] ≡ ids ++ committed
      → clen ≡ suc (length cached)
      → IsGreedy (next_token law) ids committed
      → nospec_loop target (suc fuel) n_new pending clen committed g
        ≡ some (greedy (next_token law) n_new ids)
  unfolding nospec_loop
  nospec_loop-greedy n_new zero pending clen ids cached committed g fits enough h e at done =
      rw (le→ltb_false (length committed) n_new (omega arith))
        (ap some (done ∙ ap (λ n. greedy (next_token law) n ids) n_committed))
    where
      n_committed : length committed ≡ n_new
      n_committed = omega arith
  nospec_loop-greedy n_new (suc fuel) pending clen ids cached committed g fits enough h e at done =
      let long : suc (length cached) ≡ length ids + length committed = omega (
        arith,
        ap length e,
        length-append {0} cached (pending ∷ []),
        length-append {0} ids committed,
      ) in
      let (out, g', ran, last, h') =
        run_one-Holds law size g cached pending (clen - 1) some_tokens h (omega arith)
          (omega arith) in
      let nt = next_token law (cached ++ pending ∷ []) in
      rw (lt→ltb (length committed) n_new (omega arith), ran, last)
        (nospec_loop-greedy n_new fuel nt (clen + 1) ids (cached ++ pending ∷ [])
          (committed ++ nt ∷ []) g' fits (omega (arith, length-append {0} committed (nt ∷ []))) h'
          (rw (← append_assoc ids committed (nt ∷ [])) (ap (λ l. l ++ nt ∷ []) e))
          (omega (arith, length-append {0} cached (pending ∷ [])))
          (subst (λ l. IsGreedy (next_token law) ids (committed ++ next_token law l ∷ [])) (sym e)
            (one_more (next_token law) ids committed done)))

  abbrev pub IsExact : Graphed target → ℕ → List ℕ → Type 0
  IsExact gt n_new ids =
      graphed_nospec target gt ids n_new ≡ some (greedy (next_token law) n_new ids)

  graphed_nospec_snoc :
      (gt : Graphed target) (n_new z : ℕ) (zs : List ℕ) (y : ℕ)
      → IsCaptured law size gt
      → length ((z ∷ zs) ++ y ∷ []) + n_new ≤ suc max_cache
      → IsExact gt n_new ((z ∷ zs) ++ y ∷ [])
  unfolding graphed_nospec greedy
  graphed_nospec_snoc gt n_new z zs y captured fits =
      let ids = (z ∷ zs) ++ y ∷ [] in
      let long : length ids ≡ suc (length zs) + 1 = length-append (z ∷ zs) (y ∷ []) in
      let (gt', filled, holds) = prefill-Holds law size gt z zs captured (omega (arith, long)) in
      rw (drop_last-snoc (z ∷ zs) y, filled, get_last?-snoc (z ∷ zs) y)
        (nospec_loop-greedy n_new n_new y (length ids) ids (z ∷ zs) [] gt' fits (omega arith) holds
          (sym (append-nil ids)) (omega (arith, long)) refl)

  -- With a graph captured for one token or more, over a static cache with room for the prompt and all but one of `n_new` tokens, whatever earlier
  -- calls left in it, `graphed_nospec` returns exactly the first `n_new` tokens of the target's
  -- greedy decoding, on every prompt of at least two tokens.
  pub graphed_nospec_lem :
      (gt : Graphed target) (ids : List ℕ) (n_new : ℕ)
      → IsCaptured law size gt
      → 1 < length ids
      → length ids + n_new ≤ suc max_cache
      → IsExact gt n_new ids
  graphed_nospec_lem gt [] n_new captured two fits = absurd (omega arith)
  graphed_nospec_lem gt (x ∷ []) n_new captured two fits = absurd (omega arith)
  graphed_nospec_lem gt (x ∷ w ∷ ws) n_new captured two fits =
      let (zs, y, e) = snoc-cases w ws in
      subst (IsExact gt n_new) (ap (◌∷◌ x) (sym e))
        (graphed_nospec_snoc gt n_new x zs y captured (omega (arith, fits, ap length e)))
