-- ===== src/Multitenant/Strategies.antt =====
-- `draft_step` of benchmarks/e2e/serve_multitenant.py under two strategies: one forward pass with an
-- adapter for each row, and one forward pass for each adapter.
use adapter_slots_plus_plus.Common.{
  get_elem?-some, ℕ, zero, suc, ◌+◌, ◌*◌, ◌<◌, ◌≡◌, ◌≢◌, refl, ap, ap₂, sym, get_elem?-lt, ◌∙◌, inl,
  inr, ◌⊎◌, List, [], ◌∷◌, map, some, arith, length, length-map, length-replicate, replicate,
  get_elem?, ◌==◌, ==_iff, Bool-cases, eq_false→ne,
}
use mathlib.Core.Option.{some-injective}
use adapter_slots_plus_plus.Multitenant.{
  lora, BatchedModel, max_length, repeat_interleave, unique, indices_of, scatter, each_adapter,
  draft_step, sgmv_draft, per_adapter,
}
use adapter_slots_plus_plus.Multitenant.Padding.{
  IsRagged, Filled, next_token, with_adapters, next_tokens-lora, length-with_adapters,
}
use adapter_slots_plus_plus.Multitenant.Draft.{
  AllOccur, select-Filled, indices_of-AllBelow, repeat_interleave-replicate, unique-AllOccur,
  length-scatter, each_adapter-length,
}
use adapter_slots_plus_plus.Multitenant.Scatter.{Has, unique-Has, scatter_lem}

list_ext :
    (xs ys : List ℕ)
    → length xs ≡ length ys
    → ((i : ℕ) → i < length xs → get_elem? xs i ≡ get_elem? ys i)
    → xs ≡ ys
list_ext [] [] n h = refl
list_ext [] (y ∷ ys) n h = absurd (omega (arith, n))
list_ext (x ∷ xs) [] n h = absurd (omega (arith, n))
list_ext (x ∷ xs) (y ∷ ys) n h =
    ap₂ ◌∷◌ (some-injective _ _ (h 0 (omega arith)))
      (list_ext xs ys (omega (arith, n)) (λ i lt. h (suc i) (omega arith)))

module _ {m : BatchedModel} {pad_id : ℕ} (law : IsRagged m pad_id) where
  -- The token that the forward pass with an adapter gives a row.
  abbrev token_of : ℕ → List ℕ → ℕ
  token_of a r = next_token law (some a, r)

  map-with_adapters :
      (a : ℕ) (rows : List (List ℕ))
      → map (next_token law) (with_adapters (replicate (length rows) a) rows)
        ≡ map (token_of a) rows
  map-with_adapters a [] = refl
  map-with_adapters a (r ∷ rows) = ap (◌∷◌ (token_of a r)) (map-with_adapters a rows)

  -- When the loop has come to the row's adapter, or has passed it, the row has its token.
  each_adapter-get :
      (rows : List (List ℕ)) (adapter adapters nt nt' : List ℕ) (i b : ℕ) (r : List ℕ)
      → Filled rows
      → length adapter ≡ length rows
      → length nt ≡ length rows
      → AllOccur adapters adapter
      → each_adapter m rows adapter pad_id adapters nt ≡ some nt'
      → get_elem? adapter i ≡ some b
      → get_elem? rows i ≡ some r
      → Has b adapters ⊎ (get_elem? nt i ≡ some (token_of b r))
      → get_elem? nt' i ≡ some (token_of b r)
  unfolding each_adapter
  each_adapter-get rows adapter [] nt nt' i b r f same long occur ran at row (inl has) = absurd has
  each_adapter-get rows adapter [] nt nt' i b r f same long occur ran at row (inr done) =
      rw (← some-injective _ _ ran) done
  each_adapter-get rows adapter (a ∷ adapters) nt nt' i b r f same long (occurs, occur) ran at row
        todo =
      let sub = indices_of a 0 adapter in
      let (subrows, chosen, g, many) =
        select-Filled rows sub f
          (indices_of-AllBelow a 0 (length rows) adapter (omega (arith, same))) in
      let passed =
        next_tokens-lora law (replicate (length subrows) a) subrows
          (λ s. lora (replicate (length subrows * s) a))
          (ap lora (sym (repeat_interleave-replicate (length subrows) a (max_length subrows))))
          (omega (arith, many, occurs 0)) (length-replicate (length subrows) a) g
        ∙ ap (λ (l : List ℕ). some l) (map-with_adapters a subrows) in
      let ran' : each_adapter m rows adapter pad_id adapters
            (scatter nt sub (map (token_of a) subrows))
          ≡ some nt' =
        rw (each_adapter, chosen, passed) at ran in
      let start_i : 0 + i ≡ i = omega arith in
      let (hit, miss) =
        scatter_lem (token_of a) rows a 0 i b r adapter nt subrows chosen at (rw start_i row)
          (rw start_i (omega (arith, long, get_elem?-lt rows i r row))) in
      let go =
        each_adapter-get rows adapter adapters (scatter nt sub (map (token_of a) subrows)) nt' i b r
          f same (length-scatter nt sub (map (token_of a) subrows) ∙ long) occur ran' at row in
      elim (Bool-cases (b == a)) [
        | inl e ↦
            let b_a : b ≡ a = (==_iff b a).0 e in
            let landed : get_elem? (scatter nt sub (map (token_of a) subrows)) i
                ≡ some (token_of b r) =
              rw (← start_i) (hit b_a ∙ ap (λ (c : ℕ). some (token_of c r)) (sym b_a)) in
            go (inr landed)
        | inr other ↦
            let b_a : b ≢ a = eq_false→ne b a other in
            let kept : get_elem? (scatter nt sub (map (token_of a) subrows)) i ≡ get_elem? nt i =
              rw (← start_i) (miss b_a) in
            elim todo [
              | inl (inl e) ↦ absurd (b_a (sym e))
              | inl (inr has) ↦ go (inl has)
              | inr done ↦ go (inr (kept ∙ done))
            ]
      ]

  get_elem?-with_adapters :
      (adapter : List ℕ) (rows : List (List ℕ)) (i b : ℕ) (r : List ℕ)
      → get_elem? adapter i ≡ some b
      → get_elem? rows i ≡ some r
      → get_elem? (map (next_token law) (with_adapters adapter rows)) i ≡ some (token_of b r)
  get_elem?-with_adapters [] rows i b r at row = absurd (cc)
  get_elem?-with_adapters (a ∷ adapter) [] i b r at row = absurd (cc)
  get_elem?-with_adapters (a ∷ adapter) (q ∷ rows) zero b r at row =
      ap₂ (λ (c : ℕ) (l : List ℕ). some (token_of c l)) (some-injective _ _ at)
        (some-injective _ _ row)
  get_elem?-with_adapters (a ∷ adapter) (q ∷ rows) (suc i) b r at row =
      get_elem?-with_adapters adapter rows i b r at row

  -- On rows none of which is empty, with an adapter for each, the separate forward passes of
  -- "per_adapter" give every row the token that it gets in the one packed forward pass of
  -- "sgmv_draft".
  pub draft_step-per_adapter :
      (rows : List (List ℕ)) (adapter : List ℕ)
      → 0 < length rows
      → length adapter ≡ length rows
      → Filled rows
      → draft_step m rows adapter per_adapter pad_id ≡ draft_step m rows adapter sgmv_draft pad_id
  unfolding draft_step
  draft_step-per_adapter rows adapter some_rows same f =
      let (nt, ran, long) =
        each_adapter-length law rows adapter (unique adapter) (replicate (length rows) 0) f same
          (unique-AllOccur adapter) in
      let packed =
        next_tokens-lora law adapter rows (λ s. lora (repeat_interleave adapter s)) refl some_rows
          same f in
      let n_nt : length nt ≡ length rows = long ∙ length-replicate (length rows) 0 in
      let tokens = map (next_token law) (with_adapters adapter rows) in
      let n_tokens : length tokens ≡ length rows =
        length-map (next_token law) (with_adapters adapter rows)
        ∙ length-with_adapters adapter rows same in
      let pointwise : (i : ℕ) → i < length rows → get_elem? nt i ≡ get_elem? tokens i = λ i lt.
        let (b, at) = get_elem?-some adapter i (omega (arith, same)) in
        let (r, row) = get_elem?-some rows i lt in
        each_adapter-get rows adapter (unique adapter) (replicate (length rows) 0) nt i b r f same
          (length-replicate (length rows) 0) (unique-AllOccur adapter) ran at row
          (inl (unique-Has adapter i b at))
        ∙ sym (get_elem?-with_adapters adapter rows i b r at row) in
      ran
      ∙ ap (λ (l : List ℕ). some l)
          (list_ext nt tokens (n_nt ∙ sym n_tokens) (λ i lt. pointwise i (omega (arith, n_nt))))
      ∙ sym packed
