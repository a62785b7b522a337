-- ===== src/Multitenant/Routing.antt =====
-- The wrapped draft of benchmarks/e2e/serve_multitenant.py reads each row with the row's own adapter,
-- by the routing of its projections.
use adapter_slots_plus_plus.Common.{
  ℕ, zero, suc, ◌-◌, ◌*◌, ◌≤◌, ◌<◌, ◌≡◌, refl, ap, sym, ◌∙◌, subst, List, [], ◌∷◌, ◌++◌, map,
  Option, none, some, arith, length, length-append, length-map, length-replicate, length-drop,
  replicate, take, drop, take-append-drop,
}
use adapter_slots_plus_plus.Multitenant.{
  base, lora, max_length, padded, repeat_interleave, draft_step, per_adapter, sgmv_draft,
  shared_draft,
}
use adapter_slots_plus_plus.Multitenant.Padding.{
  IsRagged, Reads, Filled, next_token, with_none, with_adapters, next_tokens-base, next_tokens-lora,
}
use adapter_slots_plus_plus.Multitenant.Strategies.{draft_step-per_adapter}
use adapter_slots_plus_plus.Multitenant.Lora.{
  Projection, IsBgmv, add_each, bgmv_lora_linear, Network, bgmv_model, apply_rows, pairs, IsRowwise,
}

-- What a projection does to a row of an owner with an adapter, or with none.
abbrev pub projected : {X Y : Type 0} {p : Projection X Y} → IsBgmv p → Option ℕ → X → Y
projected {p = p} law none x = p.linear x
projected {p = p} law (some a) x = p.add (p.linear x) (law.expand a (law.shrink a x) p.zero_delta)

module _ {X Y : Type 0} where
  -- Each row with the function of its own index.
  abbrev each_row : (ℕ → X → Y) → List ℕ → List X → List Y
  each_row f (a ∷ idx) (x ∷ xs) = f a x ∷ each_row f idx xs
  each_row f _ _ = []

  bgmv_lora_linear-each_row :
      (p : Projection X Y) (law : IsBgmv p) (idx : List ℕ) (xs : List X)
      → length idx ≡ length xs
      → bgmv_lora_linear p (lora idx) xs ≡ each_row (λ a. projected law (some a)) idx xs
  unfolding bgmv_lora_linear add_each
  bgmv_lora_linear-each_row p law [] [] e = refl
  bgmv_lora_linear-each_row p law [] (x ∷ xs) e = absurd (omega (arith, e))
  bgmv_lora_linear-each_row p law (a ∷ idx) [] e = absurd (omega (arith, e))
  bgmv_lora_linear-each_row p law (a ∷ idx) (x ∷ xs) e =
      let n = length xs in
      let rest = bgmv_lora_linear-each_row p law idx xs (omega (arith, e)) in
      ap (add_each p.add (map p.linear (x ∷ xs))) (
        ap (λ h. p.bgmv_expand h (replicate (suc n) p.zero_delta) (a ∷ idx))
          (law.bgmv_shrink-cons x xs p.zero_hidden (replicate n p.zero_hidden) a idx)
        ∙ law.bgmv_expand-cons (law.shrink a x) (p.bgmv_shrink xs (replicate n p.zero_hidden) idx)
            p.zero_delta (replicate n p.zero_delta) a idx)
      ∙ ap (◌∷◌ (projected law (some a) x)) rest

  each_row-replicate :
      (f : ℕ → X → Y) (s a : ℕ) (idx : List ℕ) (xs : List X)
      → s ≤ length xs
      → each_row f (replicate s a ++ idx) xs ≡ map (f a) (take s xs) ++ each_row f idx (drop s xs)
  each_row-replicate f zero a idx xs h = refl
  each_row-replicate f (suc s) a idx [] h = absurd (omega arith)
  each_row-replicate f (suc s) a idx (x ∷ xs) h =
      ap (◌∷◌ (f a x)) (each_row-replicate f s a idx xs (omega arith))

  each_row-apply_rows :
      (of : Option ℕ → X → Y) (s : ℕ) (adapter : List ℕ) (xs : List X)
      → length xs ≡ length adapter * s
      → each_row (λ a. of (some a)) (repeat_interleave adapter s) xs
        ≡ apply_rows of s (map some adapter) xs
  unfolding repeat_interleave apply_rows
  each_row-apply_rows of s [] xs e = refl
  each_row-apply_rows of s (a ∷ adapter) xs e =
      each_row-replicate (λ a. of (some a)) s a (repeat_interleave adapter s) xs (room adapter e)
      ∙ ap (λ (l : List Y). map (of (some a)) (take s xs) ++ l)
          (each_row-apply_rows of s adapter (drop s xs) (length-drop {0} s xs ∙ left adapter e))
    where
      room : (adapter : List ℕ) → length xs ≡ suc (length adapter) * s → s ≤ length xs
      room adapter e = omega (arith, e)

      left :
          (adapter : List ℕ)
          → length xs ≡ suc (length adapter) * s
          → length xs - s ≡ length adapter * s
      left adapter e = omega (arith, e)

  map-append : (f : X → Y) (xs ys : List X) → map f (xs ++ ys) ≡ map f xs ++ map f ys
  map-append f [] ys = refl
  map-append f (x ∷ xs) ys = ap (◌∷◌ (f x)) (map-append f xs ys)

  map-apply_rows :
      (of : Option ℕ → X → Y) (s : ℕ) (rows : List (List ℕ)) (xs : List X)
      → length xs ≡ length rows * s
      → map (of none) xs ≡ apply_rows of s (map (λ r. none) rows) xs
  unfolding apply_rows
  map-apply_rows of s [] [] e = refl
  map-apply_rows of s [] (x ∷ xs) e = absurd (omega (arith, e))
  map-apply_rows of s (r ∷ rows) xs e =
      ap (map (of none)) (sym (take-append-drop s xs))
      ∙ map-append (of none) (take s xs) (drop s xs)
      ∙ ap (λ (l : List Y). map (of none) (take s xs) ++ l)
          (map-apply_rows of s rows (drop s xs) (length-drop {0} s xs ∙ left rows e))
    where
      left :
          (rows : List (List ℕ))
          → length xs ≡ suc (length rows) * s
          → length xs - s ≡ length rows * s
      left rows e = omega (arith, e)

length-repeat_interleave :
    (adapter : List ℕ) (s : ℕ) → length (repeat_interleave adapter s) ≡ length adapter * s
unfolding repeat_interleave
length-repeat_interleave [] s = omega arith
length-repeat_interleave (a ∷ adapter) s = omega (
  arith,
  length-append {0} (replicate s a) (repeat_interleave adapter s),
  length-replicate s a,
  length-repeat_interleave adapter s,
)

pairs-none : (rows : List (List ℕ)) → pairs (map (λ r. none) rows) rows ≡ with_none rows
pairs-none [] = refl
pairs-none (r ∷ rows) = ap (◌∷◌ (none, r)) (pairs-none rows)

pairs-some :
    (adapter : List ℕ) (rows : List (List ℕ))
    → pairs (map some adapter) rows ≡ with_adapters adapter rows
pairs-some [] rows = refl
pairs-some (a ∷ adapter) [] = refl
pairs-some (a ∷ adapter) (r ∷ rows) = ap (◌∷◌ (some a, r)) (pairs-some adapter rows)

module _ {X Y : Type 0} {net : Network X Y} {pad_id : ℕ} (law : IsRowwise net pad_id)
    {layers : ℕ → Projection X Y} (laws : (k : ℕ) → IsBgmv (layers k)) where
  -- The logits of a row on its own, with its own adapter or none.
  abbrev pub own_logits : Option ℕ → List ℕ → net.Logits
  own_logits o ctx = law.logits (λ k. projected (laws k) o) ctx

  forward_base-Reads :
      (rows : List (List ℕ))
      → let b = padded pad_id rows in
        Reads own_logits ((bgmv_model net layers).forward base b.ids b.mask b.pos) (with_none rows)
  unfolding bgmv_lora_linear
  forward_base-Reads rows =
      let b = padded pad_id rows in
      subst (Reads own_logits ((bgmv_model net layers).forward base b.ids b.mask b.pos))
        (pairs-none rows)
        (law.forward_lem (λ k. bgmv_lora_linear (layers k) base) (λ o k. projected (laws k) o)
          (map (λ r. none) rows) rows (length-map _ rows)
          (λ k xs long. map-apply_rows (projected (laws k)) (max_length rows) rows xs long))

  forward_lora-Reads :
      (adapter : List ℕ) (rows : List (List ℕ))
      → length adapter ≡ length rows
      → let b = padded pad_id rows in
        let mode = lora (repeat_interleave adapter (max_length rows)) in
        Reads own_logits
          ((bgmv_model net layers).forward mode b.ids b.mask b.pos)
          (with_adapters adapter rows)
  forward_lora-Reads adapter rows same =
      let b = padded pad_id rows in
      let s = max_length rows in
      let mode = lora (repeat_interleave adapter s) in
      let widths : length adapter * s ≡ length rows * s = ap (λ n. n * s) same in
      subst (Reads own_logits ((bgmv_model net layers).forward mode b.ids b.mask b.pos))
        (pairs-some adapter rows)
        (law.forward_lem (λ k. bgmv_lora_linear (layers k) mode) (λ o k. projected (laws k) o)
          (map some adapter) rows (length-map _ adapter ∙ same)
          (λ k xs long.
            bgmv_lora_linear-each_row (layers k) (laws k) (repeat_interleave adapter s) xs
              (length-repeat_interleave adapter s ∙ widths ∙ sym long)
            ∙ each_row-apply_rows (projected (laws k)) s adapter xs (long ∙ sym widths)))

  -- The routing of `BGMVLoRALinear` makes the wrapped draft one that reads each row with the row's
  -- own adapter.
  unfoldable bgmv_model-IsRagged : IsRagged (bgmv_model net layers) pad_id
  bgmv_model-IsRagged = record {
    logits = own_logits;
    forward_base = forward_base-Reads;
    forward_lora = forward_lora-Reads;
  }

  -- A token for each row, from the row alone.
  abbrev pub own_tokens : (ℕ → Option ℕ) → List ℕ → List (List ℕ) → List ℕ
  own_tokens of (a ∷ adapter) (r ∷ rows) =
      net.argmax (own_logits (of a) r) ∷ own_tokens of adapter rows
  own_tokens of _ _ = []

  own_tokens-some :
      (adapter : List ℕ) (rows : List (List ℕ))
      → map (next_token bgmv_model-IsRagged) (with_adapters adapter rows)
        ≡ own_tokens some adapter rows
  unfolding bgmv_model-IsRagged
  own_tokens-some [] rows = refl
  own_tokens-some (a ∷ adapter) [] = refl
  own_tokens-some (a ∷ adapter) (r ∷ rows) =
      ap (◌∷◌ (net.argmax (own_logits (some a) r))) (own_tokens-some adapter rows)

  own_tokens-none :
      (adapter : List ℕ) (rows : List (List ℕ))
      → length adapter ≡ length rows
      → map (next_token bgmv_model-IsRagged) (with_none rows) ≡ own_tokens (λ a. none) adapter rows
  unfolding bgmv_model-IsRagged
  own_tokens-none [] [] same = refl
  own_tokens-none [] (r ∷ rows) same = absurd (omega (arith, same))
  own_tokens-none (a ∷ adapter) [] same = absurd (omega (arith, same))
  own_tokens-none (a ∷ adapter) (r ∷ rows) same =
      ap (◌∷◌ (net.argmax (own_logits none r))) (own_tokens-none adapter rows (omega (arith, same)))

  -- A draft with its projections wrapped in `BGMVLoRALinear`, over vLLM's kernels and a network with no
  -- other operation across the rows of a batch, on rows none of which is empty, with an adapter for
  -- each: "per_adapter", with a forward pass for each adapter, and "sgmv_draft", with one for all, both
  -- return for each row the token that the network with the row's own adapter finds on the row alone;
  -- "shared_draft" returns the ones that it finds with no adapter.
  pub draft_step_lem :
      (rows : List (List ℕ)) (adapter : List ℕ)
      → 0 < length rows
      → length adapter ≡ length rows
      → Filled rows
      → let draft = bgmv_model net layers in
        (draft_step draft rows adapter per_adapter pad_id ≡ some (own_tokens some adapter rows))
        × (draft_step draft rows adapter sgmv_draft pad_id ≡ some (own_tokens some adapter rows))
        × (draft_step draft rows adapter shared_draft pad_id
            ≡ some (own_tokens (λ a. none) adapter rows))
  unfolding draft_step
  draft_step_lem rows adapter some_rows same f =
      let ragged = bgmv_model-IsRagged in
      let packed =
        next_tokens-lora ragged adapter rows (λ s. lora (repeat_interleave adapter s)) refl
          some_rows same f
        ∙ ap (λ (l : List ℕ). some l) (own_tokens-some adapter rows) in
      (
        draft_step-per_adapter ragged rows adapter some_rows same f ∙ packed,
        packed,
        next_tokens-base ragged rows some_rows f
            ∙ ap (λ (l : List ℕ). some l) (own_tokens-none adapter rows same),
      )
