-- ===== src/Serving/Finish.antt =====
-- Every row of `run_to_completion` (benchmarks/e2e/serve_to_completion.py) finishes.
use adapter_slots_plus_plus.Common.{
  ℕ, zero, suc, ◌+◌, ◌-◌, ◌*◌, ◌≤◌, ◌<◌, ◌≡◌, refl, ap, subst, inl, inr, List, [], ◌∷◌, map, Option,
  none, some, true, false, arith, length, length-append, length-map, length-replicate, replicate,
  ltb, ltb→lt, ltb_false→le, Bool-cases,
}
use adapter_slots_plus_plus.Models.Greedy.{greedy, length-greedy}
use adapter_slots_plus_plus.Multitenant.{BatchedModel, shared_draft}
use adapter_slots_plus_plus.Multitenant.Padding.{IsRagged, Filled}
use adapter_slots_plus_plus.Multitenant.Rows.{Extends, spec_iter_lem, nospec_iter_lem}
use adapter_slots_plus_plus.Serving.{
  Kind, non_speculative, speculative, mark, any_none, count_emitted, Completion, max_iterations,
  iterate, drain, run_to_completion,
}

-- Every row has grown by a token at least.
abbrev Longer : List (List ℕ) → List (List ℕ) → Type 0
Longer [] [] = Unit
Longer (r ∷ rows) (r' ∷ rows') = (length r < length r') × Longer rows rows'
Longer _ _ = ⊥

Extends-Longer :
    (f : List ℕ → ℕ) (least most produced : ℕ) (rows rows' : List (List ℕ))
    → 0 < least
    → Extends f least most rows rows' produced
    → Longer rows rows'
Extends-Longer f least most produced [] [] pos e = tt
Extends-Longer f least most produced [] (r' ∷ rows') pos e = absurd e
Extends-Longer f least most produced (r ∷ rows) [] pos e = absurd e
Extends-Longer f least most produced (r ∷ rows) (r' ∷ rows') pos (n, more, grown, lo, hi, sum, e) =
    (
      omega (
        arith,
        pos,
        lo,
        ap length grown,
        length-append {0} r (greedy f n r),
        length-greedy f n r,
      ),
      Extends-Longer f least most more rows rows' pos e,
    )

Longer-length : (rows rows' : List (List ℕ)) → Longer rows rows' → length rows' ≡ length rows
Longer-length [] [] l = refl
Longer-length [] (r' ∷ rows') l = absurd l
Longer-length (r ∷ rows) [] l = absurd l
Longer-length (r ∷ rows) (r' ∷ rows') (h, l) = ap suc (Longer-length rows rows' l)

Longer-Filled : (rows rows' : List (List ℕ)) → Longer rows rows' → Filled rows'
Longer-Filled [] [] l = tt
Longer-Filled [] (r' ∷ rows') l = absurd l
Longer-Filled (r ∷ rows) [] l = absurd l
Longer-Filled (r ∷ rows) (r' ∷ rows') (h, l) = (omega arith, Longer-Filled rows rows' l)

-- A row is marked exactly if it has enough new tokens.
abbrev IsMarked : ℕ → ℕ → ℕ → ℕ → Option ℕ → Type 0
IsMarked out_tokens it s len none = len < s + out_tokens
IsMarked out_tokens it s len (some f) = (s + out_tokens ≤ len) × (f ≤ it)

-- After `it` iterations.
abbrev Progress : ℕ → ℕ → List ℕ → List (List ℕ) → List (Option ℕ) → Type 0
Progress out_tokens it [] [] [] = Unit
Progress out_tokens it (s ∷ start_len) (r ∷ rows) (x ∷ finish_iter) =
    (s + it ≤ length r)
    × IsMarked out_tokens it s (length r) x
    × Progress out_tokens it start_len rows finish_iter
Progress out_tokens it _ _ _ = ⊥

Progress-mark :
    (out_tokens it : ℕ) (start_len : List ℕ) (rows rows' : List (List ℕ))
    (finish_iter : List (Option ℕ))
    → Progress out_tokens it start_len rows finish_iter
    → Longer rows rows'
    → Progress out_tokens
        (suc it)
        start_len
        rows'
        (mark out_tokens (suc it) rows' start_len finish_iter)
unfolding mark
Progress-mark out it [] [] [] [] p l = tt
Progress-mark out it [] [] (r' ∷ rows') finish p l = absurd l
Progress-mark out it [] [] [] (x ∷ finish) p l = absurd p
Progress-mark out it [] (r ∷ rows) rows' finish p l = absurd p
Progress-mark out it (s ∷ start) [] rows' finish p l = absurd p
Progress-mark out it (s ∷ start) (r ∷ rows) [] finish p l = absurd l
Progress-mark out it (s ∷ start) (r ∷ rows) (r' ∷ rows') [] p l = absurd p
Progress-mark out it (s ∷ start) (r ∷ rows) (r' ∷ rows') (some f ∷ finish) (grown, (enough, h), p)
      (more, l) =
    (omega arith, (omega arith, omega arith), Progress-mark out it start rows rows' finish p l)
Progress-mark out it (s ∷ start) (r ∷ rows) (r' ∷ rows') (none ∷ finish) (grown, h, p) (more, l) =
    let rest = Progress-mark out it start rows rows' finish p l in
    elim (Bool-cases (ltb (length r' - s) out)) [
      | inl few ↦
          let less : length r' - s < out = ltb→lt _ _ few in
          rw few (omega arith, omega (arith, less), rest)
      | inr many ↦
          let enough : out ≤ length r' - s = ltb_false→le _ _ many in
          rw many (omega arith, (omega (arith, enough), omega arith), rest)
    ]

-- Where a row is not marked, there have been fewer iterations than tokens are asked for.
any_none-lt :
    (out_tokens it : ℕ) (start_len : List ℕ) (rows : List (List ℕ)) (finish_iter : List (Option ℕ))
    → Progress out_tokens it start_len rows finish_iter
    → any_none finish_iter ≡ true
    → it < out_tokens
unfolding any_none
any_none-lt out it [] [] [] p h = absurd (cc)
any_none-lt out it [] [] (x ∷ finish) p h = absurd p
any_none-lt out it [] (r ∷ rows) finish p h = absurd p
any_none-lt out it (s ∷ start) [] finish p h = absurd p
any_none-lt out it (s ∷ start) (r ∷ rows) [] p h = absurd p
any_none-lt out it (s ∷ start) (r ∷ rows) (none ∷ finish) (grown, m, p) h = omega (arith, grown, m)
any_none-lt out it (s ∷ start) (r ∷ rows) (some f ∷ finish) (grown, m, p) h =
    any_none-lt out it start rows finish p h

-- Each row is marked, after at most `it` iterations.
abbrev pub AllFinished : ℕ → List (Option ℕ) → Type 0
AllFinished it [] = Unit
AllFinished it (none ∷ finish_iter) = ⊥
AllFinished it (some f ∷ finish_iter) = (f ≤ it) × AllFinished it finish_iter

-- With all rows marked, enough tokens have been emitted.
finished :
    (out_tokens it : ℕ) (start_len : List ℕ) (rows : List (List ℕ)) (finish_iter : List (Option ℕ))
    → Progress out_tokens it start_len rows finish_iter
    → any_none finish_iter ≡ false
    → AllFinished it finish_iter × (length start_len * out_tokens ≤ count_emitted rows start_len)
unfolding any_none count_emitted
finished out it [] [] [] p h = (tt, omega arith)
finished out it [] [] (x ∷ finish) p h = absurd p
finished out it [] (r ∷ rows) finish p h = absurd p
finished out it (s ∷ start) [] finish p h = absurd p
finished out it (s ∷ start) (r ∷ rows) [] p h = absurd p
finished out it (s ∷ start) (r ∷ rows) (none ∷ finish) p h = absurd (cc)
finished out it (s ∷ start) (r ∷ rows) (some f ∷ finish) (grown, (enough, at), p) h =
    let (all, emitted) = finished out it start rows finish p h in
    let product : suc (length start) * out ≡ out + length start * out =
      suc_mul (length start) out in
    ((at, all), omega (arith, product, emitted, enough))
  where
    suc_mul : (n k : ℕ) → suc n * k ≡ k + n * k
    suc_mul n k = omega arith

Progress-first :
    (out_tokens : ℕ) (prompts : List (List ℕ))
    → 0 < out_tokens
    → Progress out_tokens 0 (map (λ p. length p) prompts) prompts (replicate (length prompts) none)
Progress-first out [] pos = tt
Progress-first out (r ∷ rows) pos = (omega arith, omega arith, Progress-first out rows pos)

module _ {draft target : BatchedModel} {pad_id : ℕ} (dlaw : IsRagged draft pad_id)
    (tlaw : IsRagged target pad_id) (gamma out_tokens : ℕ) where
  iterate-Longer :
      (kind : Kind) (rows : List (List ℕ))
      → 0 < length rows
      → Filled rows
      → (rows' : List (List ℕ)) × (produced : ℕ) × (iterate draft target gamma out_tokens pad_id
            kind rows
          ≡ some (rows', produced))
        × Longer rows rows'
  unfolding iterate
  iterate-Longer non_speculative rows some_rows f =
      let (rows', ran, ext) = nospec_iter_lem tlaw rows some_rows f in
      (rows', length rows, ran, Extends-Longer _ 1 1 (length rows) rows rows' (omega arith) ext)
  iterate-Longer speculative rows some_rows f =
      let (rows', produced, ran, ext) =
        spec_iter_lem dlaw tlaw rows (replicate (length rows) 0) gamma shared_draft (λ e. cc)
          some_rows (length-replicate (length rows) 0) f in
      (rows', produced, ran, Extends-Longer _ 1 (suc gamma) produced rows rows' (omega arith) ext)

  drain-Progress :
      (kind : Kind) (start_len : List ℕ) (left it : ℕ) (rows : List (List ℕ))
      (finish_iter : List (Option ℕ))
      → 0 < length rows
      → Filled rows
      → it ≤ out_tokens
      → out_tokens ≤ it + left
      → Progress out_tokens it start_len rows finish_iter
      → (rows' : List (List ℕ)) × (finish_iter' : List (Option ℕ)) × (it' : ℕ) × (drain draft target
            gamma out_tokens pad_id kind start_len left it rows finish_iter
          ≡ some (rows', finish_iter', it'))
        × (it' ≤ out_tokens)
        × (any_none finish_iter' ≡ false)
        × Progress out_tokens it' start_len rows' finish_iter'
  unfolding drain
  drain-Progress kind start zero it rows finish some_rows f in_time enough p =
      elim (Bool-cases (any_none finish)) [
        | inr stop ↦ (rows, finish, it, refl, in_time, stop, p)
        | inl more ↦
            let less = any_none-lt out_tokens it start rows finish p more in
            absurd (omega (arith, less, enough))
      ]
  drain-Progress kind start (suc left) it rows finish some_rows f in_time enough p =
      elim (Bool-cases (any_none finish)) [
        | inr stop ↦ (rows, finish, it, rw stop refl, in_time, stop, p)
        | inl more ↦
            let less = any_none-lt out_tokens it start rows finish p more in
            let (rows₁, produced, ran, l) = iterate-Longer kind rows some_rows f in
            let (rows', finish', it', rest, late, stop, p') =
              drain-Progress kind start left (suc it) rows₁
                (mark out_tokens (suc it) rows₁ start finish)
                (omega (arith, some_rows, Longer-length rows rows₁ l)) (Longer-Filled rows rows₁ l)
                (omega (arith, less)) (omega (arith, enough))
                (Progress-mark out_tokens it start rows rows₁ finish p l) in
            (rows', finish', it', rw (more, ran) rest, late, stop, p')
      ]

  -- For 1 to 4001 tokens, and a batch of prompts none of which is empty, `run_to_completion`
  -- returns and its limit of iterations does not cut it short: after at most `out_tokens` iterations, with every row
  -- finished, and with at least as many tokens emitted as requested. This holds for both kinds and for every draft.
  pub run_to_completion_lem :
      (kind : Kind) (prompts : List (List ℕ))
      → 0 < length prompts
      → Filled prompts
      → 0 < out_tokens
      → out_tokens ≤ max_iterations
      → (c : Completion) × (run_to_completion draft target gamma out_tokens pad_id kind prompts
          ≡ some c)
        × (c.iters ≤ out_tokens)
        × AllFinished c.iters c.finish_iter
        × (c.requested ≤ c.emitted)
        × (c.requested ≡ length prompts * out_tokens)
  unfolding run_to_completion
  run_to_completion_lem kind prompts some_rows f pos few =
      let start = map (λ p. length p) prompts in
      let (warm, produced, warmed, l) = iterate-Longer kind prompts some_rows f in
      let (rows, finish, it, ran, late, stop, p) =
        drain-Progress kind start max_iterations 0 prompts (replicate (length prompts) none)
          some_rows f (omega arith) (omega arith) (Progress-first out_tokens prompts pos) in
      let (all, emitted) = finished out_tokens it start rows finish p stop in
      let counted : length start ≡ length prompts = length-map (λ p. length p) prompts in
      (
        record {
          requested = length prompts * out_tokens;
          emitted = count_emitted rows start;
          finish_iter = finish;
          iters = it;
        },
        rw (warmed, ran) refl,
        late,
        all,
        subst (λ n. n * out_tokens ≤ count_emitted rows start) counted emitted,
        refl,
      )
