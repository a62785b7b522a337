-- ===== src/Multitenant/Rows.antt =====
-- `spec_iter` and `nospec_iter` of benchmarks/e2e/serve_multitenant.py extend every row by greedy
-- decoding of the target.
use adapter_slots_plus_plus.Common.{
  ℕ, zero, suc, ◌+◌, ◌≤◌, ◌<◌, ◌≡◌, ◌≢◌, refl, ap, sym, ◌∙◌, subst, List, [], ◌∷◌, ◌++◌, map,
  append-nil, append_assoc, none, some, arith, length, length-append, replicate, snoc-cases,
}
use adapter_slots_plus_plus.Models.{logits_after}
use adapter_slots_plus_plus.Models.Greedy.{greedy, predictions, accepted-le}
use adapter_slots_plus_plus.Multitenant.{
  base, BatchedModel, padded, pad_batch, Strategy, no_spec, append_each, verify_row, verify_rows,
  propose, spec_iter, nospec_iter,
}
use adapter_slots_plus_plus.Multitenant.Padding.{
  IsRagged, Reads, Filled, next_token, with_none, next_tokens-base, pad_batch-some,
}
use adapter_slots_plus_plus.Multitenant.Draft.{draft_step-length}
use adapter_slots_plus_plus.Multitenant.Verify.{agreed, read_end, verify_row-greedy}

-- Each row has been extended by `least` to `most` tokens of greedy decoding; `produced` counts them.
abbrev pub Extends : (List ℕ → ℕ) → ℕ → ℕ → List (List ℕ) → List (List ℕ) → ℕ → Type 0
Extends f least most [] [] produced = produced ≡ 0
Extends f least most (r ∷ rows) (r' ∷ rows') produced =
    (n : ℕ) × (more : ℕ) × (r' ≡ r ++ greedy f n r)
    × (least ≤ n)
    × (n ≤ most)
    × (produced ≡ n + more)
    × Extends f least most rows rows' more
Extends f least most _ _ produced = ⊥

-- The rows that the draft works on are the rows with their proposals, `k` for each.
abbrev Works : List (List ℕ) → List (List ℕ) → List (List ℕ) → ℕ → Type 0
Works [] [] [] k = Unit
Works (r ∷ rows) (w ∷ work) (p ∷ proposed) k =
    (w ≡ r ++ p) × (length p ≡ k) × Works rows work proposed k
Works _ _ _ k = ⊥

Works-start : (rows : List (List ℕ)) → Works rows rows (replicate (length rows) []) 0
Works-start [] = tt
Works-start (r ∷ rows) = (sym (append-nil r), refl, Works-start rows)

Works-length :
    (rows work proposed : List (List ℕ)) (k : ℕ)
    → Works rows work proposed k
    → length work ≡ length rows
Works-length [] [] [] k w = refl
Works-length [] [] (p ∷ proposed) k w = absurd w
Works-length [] (v ∷ work) proposed k w = absurd w
Works-length (r ∷ rows) [] proposed k w = absurd w
Works-length (r ∷ rows) (v ∷ work) [] k w = absurd w
Works-length (r ∷ rows) (v ∷ work) (p ∷ proposed) k (e, long, w) =
    ap suc (Works-length rows work proposed k w)

Works-Filled :
    (rows work proposed : List (List ℕ)) (k : ℕ)
    → Works rows work proposed k
    → Filled rows
    → Filled work
Works-Filled [] [] [] k w f = tt
Works-Filled [] [] (p ∷ proposed) k w f = absurd w
Works-Filled [] (v ∷ work) proposed k w f = absurd w
Works-Filled (r ∷ rows) [] proposed k w f = absurd w
Works-Filled (r ∷ rows) (v ∷ work) [] k w f = absurd w
Works-Filled (r ∷ rows) (v ∷ work) (p ∷ proposed) k (e, long, w) (h, f) =
    (omega (arith, ap length e, length-append {0} r p, h), Works-Filled rows work proposed k w f)

append_each-Works :
    (rows work proposed : List (List ℕ)) (nt : List ℕ) (k : ℕ)
    → Works rows work proposed k
    → length nt ≡ length work
    → (work' : List (List ℕ)) × (proposed' : List (List ℕ)) × (append_each work nt ≡ some work')
      × (append_each proposed nt ≡ some proposed')
      × Works rows work' proposed' (suc k)
unfolding append_each
append_each-Works [] [] [] nt k w same = ([], [], refl, refl, tt)
append_each-Works [] [] (p ∷ proposed) nt k w same = absurd w
append_each-Works [] (v ∷ work) proposed nt k w same = absurd w
append_each-Works (r ∷ rows) [] proposed nt k w same = absurd w
append_each-Works (r ∷ rows) (v ∷ work) [] nt k w same = absurd w
append_each-Works (r ∷ rows) (v ∷ work) (p ∷ proposed) [] k w same = absurd (cc)
append_each-Works (r ∷ rows) (v ∷ work) (p ∷ proposed) (t ∷ nt) k (e, long, w) same =
    let (work', proposed', ran, ran', w') =
      append_each-Works rows work proposed nt k w (omega (arith, same)) in
    (
      (v ++ t ∷ []) ∷ work',
      (p ++ t ∷ []) ∷ proposed',
      rw ran refl,
      rw ran' refl,
      (
        ap (λ l. l ++ t ∷ []) e ∙ append_assoc r p (t ∷ []),
        omega (arith, long, length-append {0} p (t ∷ [])),
        w',
      ),
    )

module _ {target : BatchedModel} {pad_id : ℕ} (tlaw : IsRagged target pad_id) where
  -- Greedy decoding's next token of the target, with no adapter.
  abbrev pub target_token : List ℕ → ℕ
  target_token ctx = target.argmax (tlaw.logits none ctx)

module _ {draft target : BatchedModel} {pad_id : ℕ} (dlaw : IsRagged draft pad_id)
    (tlaw : IsRagged target pad_id) where
  propose-Works :
      (j k : ℕ) (rows work proposed : List (List ℕ)) (adapter : List ℕ) (strategy : Strategy)
      → strategy ≢ no_spec
      → 0 < length rows
      → length adapter ≡ length rows
      → Filled rows
      → Works rows work proposed j
      → (work' : List (List ℕ)) × (proposed' : List (List ℕ)) × (propose draft target k work
            proposed adapter strategy pad_id
          ≡ some (work', proposed'))
        × Works rows work' proposed' (j + k)
  unfolding propose
  propose-Works j zero rows work proposed adapter strategy known some_rows same f w =
      let e : j ≡ j + 0 = omega arith in
      (work, proposed, refl, subst (Works rows work proposed) e w)
  propose-Works j (suc k) rows work proposed adapter strategy known some_rows same f w =
      let many = Works-length rows work proposed j w in
      let (nt, ran, long) =
        draft_step-length dlaw work adapter strategy known (omega (arith, many, some_rows))
          (same ∙ sym many) (Works-Filled rows work proposed j w f) in
      let (work₁, proposed₁, ran₁, ran₂, w₁) = append_each-Works rows work proposed nt j w long in
      let (work', proposed', rest, w') =
        propose-Works (suc j) k rows work₁ proposed₁ adapter strategy known some_rows same f w₁ in
      let e : suc j + k ≡ j + suc k = omega arith in
      (work', proposed', rw (ran, ran₁, ran₂, rest) refl, subst (Works rows work' proposed') e w')

  verify_row-Reads :
      (gamma : ℕ) (r p : List ℕ) (out junk : List target.Logits)
      → 0 < length r
      → length p ≡ gamma
      → out ≡ junk ++ logits_after (tlaw.logits none) [] (r ++ p)
      → (a : ℕ) × (verify_row gamma r p (map target.argmax out)
          ≡ some (r ++ greedy (target_token tlaw) (suc a) r, suc a))
        × (a ≤ gamma)
  verify_row-Reads gamma [] p out junk filled long e = absurd (omega arith)
  verify_row-Reads gamma (x ∷ xs) p out junk filled long e =
      let (zs, y, last) = snoc-cases x xs in
      let logits = tlaw.logits none in
      let am = target.argmax in
      let r = x ∷ xs in
      let before = map am (junk ++ logits_after logits [] zs) in
      let read : map am out ≡ before ++ predictions (target_token tlaw) r p =
        ap (map am) e
        ∙ ap (λ l. map am (junk ++ logits_after logits [] (l ++ p))) last
        ∙ read_end am logits junk zs y p
        ∙ ap (λ l. before ++ predictions (target_token tlaw) l p) (sym last) in
      (
        agreed am logits r p,
        ap (verify_row gamma r p) read ∙ verify_row-greedy am logits gamma r p before long,
        omega (arith, accepted-le (predictions (target_token tlaw) r p) p, long),
      )

  verify_rows-Extends :
      (gamma : ℕ) (rows work proposed : List (List ℕ)) (outs : List (List target.Logits))
      → Works rows work proposed gamma
      → Filled rows
      → Reads tlaw.logits outs (with_none work)
      → (rows' : List (List ℕ)) × (produced : ℕ) × (verify_rows gamma rows proposed
            (map (map target.argmax) outs)
          ≡ some (rows', produced))
        × Extends (target_token tlaw) 1 (suc gamma) rows rows' produced
  unfolding verify_rows
  verify_rows-Extends gamma [] [] [] outs w f reads = ([], 0, refl, refl)
  verify_rows-Extends gamma [] [] (p ∷ proposed) outs w f reads = absurd w
  verify_rows-Extends gamma [] (v ∷ work) proposed outs w f reads = absurd w
  verify_rows-Extends gamma (r ∷ rows) [] proposed outs w f reads = absurd w
  verify_rows-Extends gamma (r ∷ rows) (v ∷ work) [] outs w f reads = absurd w
  verify_rows-Extends gamma (r ∷ rows) (v ∷ work) (p ∷ proposed) [] w f reads = absurd reads
  verify_rows-Extends gamma (r ∷ rows) (v ∷ work) (p ∷ proposed) (out ∷ outs) (e, long, w) (h, f)
        ((junk, seen), reads) =
      let (a, ran, le) =
        verify_row-Reads gamma r p out junk h long
          (seen ∙ ap (λ l. junk ++ logits_after (tlaw.logits none) [] l) e) in
      let (rows', produced, rest, ext) =
        verify_rows-Extends gamma rows work proposed outs w f reads in
      (
        (r ++ greedy (target_token tlaw) (suc a) r) ∷ rows',
        suc a + produced,
        rw (ran, rest) refl,
        (suc a, produced, refl, omega arith, omega (arith, le), refl, ext),
      )

  -- On a batch of rows none of which is empty, with an adapter for each, one speculative iteration
  -- under any of the three strategies returns, whatever the draft proposes: each row is extended by one
  -- to `gamma + 1` tokens, exactly those of the target's greedy decoding after that row, and
  -- `produced` is their number.
  pub spec_iter_lem :
      (rows : List (List ℕ)) (adapter : List ℕ) (gamma : ℕ) (strategy : Strategy)
      → strategy ≢ no_spec
      → 0 < length rows
      → length adapter ≡ length rows
      → Filled rows
      → (rows' : List (List ℕ)) × (produced : ℕ) × (spec_iter draft target rows adapter gamma
            strategy pad_id
          ≡ some (rows', produced))
        × Extends (target_token tlaw) 1 (suc gamma) rows rows' produced
  unfolding spec_iter
  spec_iter_lem rows adapter gamma strategy known some_rows same f =
      let (work, proposed, ran, w) =
        propose-Works 0 gamma rows rows (replicate (length rows) []) adapter strategy known
          some_rows same f (Works-start rows) in
      let zero_more : 0 + gamma ≡ gamma = omega arith in
      let w' = subst (Works rows work proposed) zero_more w in
      let b = padded pad_id work in
      let (rows', produced, verified, ext) =
        verify_rows-Extends gamma rows work proposed (target.forward base b.ids b.mask b.pos) w' f
          (tlaw.forward_base work) in
      let full : pad_batch work pad_id ≡ some b =
        pad_batch-some tlaw work
          (omega (arith, some_rows, Works-length rows work proposed gamma w')) in
      (rows', produced, rw (ran, full, verified) refl, ext)

module _ {target : BatchedModel} {pad_id : ℕ} (tlaw : IsRagged target pad_id) where
  append_each-Extends :
      (rows : List (List ℕ))
      → (rows' : List (List ℕ)) × (append_each rows (map (next_token tlaw) (with_none rows))
          ≡ some rows')
        × Extends (target_token tlaw) 1 1 rows rows' (length rows)
  unfolding append_each greedy
  append_each-Extends [] = ([], refl, refl)
  append_each-Extends (r ∷ rows) =
      let (rows', ran, ext) = append_each-Extends rows in
      (
        (r ++ (target_token tlaw) r ∷ []) ∷ rows',
        rw ran refl,
        (1, length rows, refl, omega arith, omega arith, omega arith, ext),
      )

  -- On a batch of rows none of which is empty, `nospec_iter` extends each row by the one token of the
  -- target's greedy decoding.
  pub nospec_iter_lem :
      (rows : List (List ℕ))
      → 0 < length rows
      → Filled rows
      → (rows' : List (List ℕ)) × (nospec_iter target rows pad_id ≡ some (rows', length rows))
        × Extends (target_token tlaw) 1 1 rows rows' (length rows)
  unfolding nospec_iter
  nospec_iter_lem rows some_rows f =
      let (rows', ran, ext) = append_each-Extends rows in
      (rows', rw (next_tokens-base tlaw rows some_rows f, ran) refl, ext)
