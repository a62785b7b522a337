-- ===== src/ServeKvGraph/Replay.antt =====
-- What replays of benchmarks/e2e/serve_kv_graph.py read and write: a static cache that holds a
-- context, below whatever older calls left in it.
use adapter_slots_plus_plus.Common.{
  ℕ, ◌<◌, true, ==_iff, get_last?, replicate, zero, suc, ◌+◌, ◌-◌, ◌≤◌, ◌≡◌, refl, ap, sym, ◌∙◌,
  List, [], ◌∷◌, ◌++◌, some, append-nil, arith, length, append_snoc, take, length-append,
  take-take_of_le, take_append_length,
}
use adapter_slots_plus_plus.Models.{logits_after}
use adapter_slots_plus_plus.Models.Greedy.{greedy}
use adapter_slots_plus_plus.ServeKvGraph.{
  StaticModel, IsStatic, Graphed, arange, copy_into, run, prefill, last_token, propose,
}

copy_into-same : (s : ℕ) (xs : List ℕ) → length xs ≡ s → copy_into s xs ≡ some xs
unfolding copy_into
copy_into-same s [] e = rw (← e) refl
copy_into-same s (x ∷ []) e = rw (← e) refl
copy_into-same s (x ∷ y ∷ xs) e = rw ((==_iff (length (x ∷ y ∷ xs)) s).1 e)

length-arange : (n k : ℕ) → length (arange n k) ≡ k
unfolding arange
length-arange n zero = refl
length-arange n (suc k) = ap suc (length-arange (suc n) k)

get_last?-replicate : {A : Type 0} (k : ℕ) (a : A) → get_last? (replicate (suc k) a) ≡ some a
get_last?-replicate zero a = refl
get_last?-replicate (suc k) a = get_last?-replicate k a

module _ {m : StaticModel} {max_cache : ℕ} (law : IsStatic m max_cache) where
  -- Greedy decoding's next token.
  abbrev pub next_token : List ℕ → ℕ
  next_token ctx = m.argmax (law.logits ctx)

  -- A graph is captured, for `size` tokens.
  abbrev pub IsCaptured : ℕ → Graphed m → Type 0
  IsCaptured size g = (g.graph ≡ true) × (g.s ≡ size)

module _ {m : StaticModel} {max_cache : ℕ} (law : IsStatic m max_cache) (size : ℕ) where
  -- The first slots hold the keys of `ctx`.
  pub record Holds (g : Graphed m) (ctx : List ℕ) : Type 0 where
    pub captured : IsCaptured law size g
    pub written : length ctx ≤ length (law.slots g.cache)
    pub prefix : take (length ctx) (law.slots g.cache) ≡ ctx

  -- Rewinding is free: the slots behind a shorter context may hold anything.
  pub Holds-rewind : (g : Graphed m) (ctx w : List ℕ) → Holds g (ctx ++ w) → Holds g ctx
  Holds-rewind g ctx w h = record {
    captured = h.captured;
    written = omega (arith, h.written, length-append {0} ctx w);
    prefix =
        sym (
          take-take_of_le (length ctx) (length (ctx ++ w)) (law.slots g.cache)
            (omega (arith, length-append {0} ctx w)))
        ∙ ap (take (length ctx)) h.prefix
        ∙ take_append_length ctx w;
  }

  -- A replay at the slots behind the context.
  pub run-Holds :
      (g : Graphed m) (ctx : List ℕ) (x : ℕ) (xs : List ℕ) (n : ℕ)
      → Holds g ctx
      → suc (length xs) ≡ size
      → n ≡ length ctx
      → n + suc (length xs) ≤ max_cache
      → let at = arange n (suc (length xs)) in
        (g' : Graphed m) × (run m g (x ∷ xs) at at
          ≡ some (logits_after law.logits ctx (x ∷ xs), g'))
        × Holds g' (ctx ++ x ∷ xs)
  unfolding run
  run-Holds g ctx x xs n h whole e fits =
      let at = arange n (suc (length xs)) in
      let ids_in : copy_into g.s (x ∷ xs) ≡ some (x ∷ xs) =
        copy_into-same g.s (x ∷ xs) (whole ∙ sym h.captured.1) in
      let at_in : copy_into g.s at ≡ some at =
        copy_into-same g.s at (length-arange n (suc (length xs)) ∙ whole ∙ sym h.captured.1) in
      let (c', ran, enough, holds) =
        law.forward_lem x xs n g.cache (omega (arith, h.written)) fits in
      let seen : take n (law.slots g.cache) ≡ ctx =
        ap (λ k. take k (law.slots g.cache)) e ∙ h.prefix in
      let long : length (ctx ++ x ∷ xs) ≡ n + suc (length xs) =
        omega (arith, length-append {0} ctx (x ∷ xs)) in
      (
        record g { cache = c' },
        rw (ids_in, at_in, h.captured.0, ran, seen) refl,
        record {
          captured = h.captured;
          written = omega (arith, long, enough);
          prefix = ap (λ k. take k (law.slots c')) long ∙ holds ∙ ap (λ l. l ++ x ∷ xs) seen;
        },
      )

  -- A replay of one token, however often it stands in the buffers, predicts the token after it.
  pub run_one-Holds :
      (g : Graphed m) (ctx : List ℕ) (x n : ℕ)
      → 0 < size
      → Holds g ctx
      → n ≡ length ctx
      → n + 1 ≤ max_cache
      → (out : List m.Logits) × (g' : Graphed m) × (run m g (x ∷ []) (n ∷ []) (n ∷ [])
          ≡ some (out, g'))
        × (last_token m out ≡ some (next_token law (ctx ++ x ∷ [])))
        × Holds g' (ctx ++ x ∷ [])
  unfolding run copy_into last_token
  run_one-Holds g ctx x n some_tokens h e fits =
      let k = size - 1 in
      let sized : g.s ≡ suc k = omega (arith, h.captured.1) in
      let (c', ran, enough, holds) =
        law.forward_repeated x k n g.cache (omega (arith, h.written)) fits in
      let seen : take n (law.slots g.cache) ≡ ctx =
        ap (λ k. take k (law.slots g.cache)) e ∙ h.prefix in
      let long : length (ctx ++ x ∷ []) ≡ n + 1 = omega (arith, length-append {0} ctx (x ∷ [])) in
      (
        replicate (suc k) (law.logits (ctx ++ x ∷ [])),
        record g { cache = c' },
        rw (sized, h.captured.0, ran, seen) refl,
        rw (get_last?-replicate k (law.logits (ctx ++ x ∷ []))) refl,
        record {
          captured = h.captured;
          written = omega (arith, long, enough);
          prefix = ap (λ k. take k (law.slots c')) long ∙ holds ∙ ap (λ l. l ++ x ∷ []) seen;
        },
      )

  pub prefill-Holds :
      (g : Graphed m) (x : ℕ) (xs : List ℕ)
      → IsCaptured law size g
      → suc (length xs) ≤ max_cache
      → (g' : Graphed m) × (prefill m g (x ∷ xs) ≡ some g') × Holds g' (x ∷ xs)
  unfolding prefill
  prefill-Holds g x xs captured fits =
      let (c', ran, enough, holds) = law.forward_lem x xs 0 g.cache (omega arith) (omega arith) in
      (
        record g { cache = c' },
        rw ran,
        record {
          captured = captured;
          written = omega (arith, enough);
          prefix = ap (λ k. take k (law.slots c')) (zero_add (suc (length xs))) ∙ holds;
        },
      )
    where
      zero_add : (k : ℕ) → k ≡ 0 + k
      zero_add k = omega arith

  -- The draft proposes its greedy continuation, and lacks the last proposal only.
  pub propose-Holds :
      (clen j k x : ℕ) (g : Graphed m) (ctx : List ℕ)
      → 0 < size
      → Holds g ctx
      → clen - 1 + j ≡ length ctx
      → length ctx + k ≤ max_cache
      → let prop = greedy (next_token law) k (ctx ++ x ∷ []) in
        (g' : Graphed m) × (propose m clen j k x g ≡ some (prop, g'))
        × Holds g' (ctx ++ take k (x ∷ prop))
  unfolding propose greedy
  propose-Holds clen j zero x g ctx some_tokens h e fits = (g, refl, rw (append-nil ctx) h)
  propose-Holds clen j (suc k) x g ctx some_tokens h e fits =
      let y = next_token law (ctx ++ x ∷ []) in
      let (out, g₁, ran, last, h₁) =
        run_one-Holds g ctx x (clen - 1 + j) some_tokens h e (omega arith) in
      let long : length (ctx ++ x ∷ []) ≡ length ctx + 1 = length-append ctx (x ∷ []) in
      let (g', rest, h') =
        propose-Holds clen (suc j) k y g₁ (ctx ++ x ∷ []) some_tokens h₁ (omega arith)
          (omega arith) in
      (g', rw (ran, last, rest), rw (append_snoc ctx x _) at h')
