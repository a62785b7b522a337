-- ===== src/Multitenant/Lora.antt =====
-- `BGMVLoRALinear` of benchmarks/e2e/serve_multitenant.py, and a draft whose projections it wraps. The
-- rest of the network, and vLLM's two kernels, are parameters.
use adapter_slots_plus_plus.Common.{
  ℕ, ◌*◌, ◌≡◌, List, [], ◌∷◌, ◌++◌, map, Option, length, replicate, take, drop,
}
use adapter_slots_plus_plus.Multitenant.{Mode, base, lora, BatchedModel, max_length, padded}
use adapter_slots_plus_plus.Multitenant.Padding.{Reads}

-- A wrapped projection, with its weights: rows of the type `X` go to rows of the type `Y`.
pub record Projection (X Y : Type 0) : Type 1 where
  pub Hidden : Type 0
  -- `F.linear(x, weight, bias)`, on a row
  pub linear : X → Y
  pub add : Y → Y → Y
  pub zero_hidden : Hidden
  pub zero_delta : Y
  -- `bgmv_shrink(x2d, A, h, idx, scale)`
  pub bgmv_shrink : List X → List Hidden → List ℕ → List Hidden
  -- `bgmv_expand(h, B, delta, idx, True)`
  pub bgmv_expand : List Hidden → List Y → List ℕ → List Y

-- What vLLM's kernels do: each row with the matrices of its own index.
pub record IsBgmv {X Y : Type 0} (p : Projection X Y) : Type 0 where
  pub shrink : ℕ → X → p.Hidden
  pub expand : ℕ → p.Hidden → Y → Y
  pub bgmv_shrink-cons :
      (x : X) (xs : List X) (h : p.Hidden) (hs : List p.Hidden) (a : ℕ) (idx : List ℕ)
      → p.bgmv_shrink (x ∷ xs) (h ∷ hs) (a ∷ idx) ≡ shrink a x ∷ p.bgmv_shrink xs hs idx
  pub bgmv_expand-cons :
      (h : p.Hidden) (hs : List p.Hidden) (y : Y) (ys : List Y) (a : ℕ) (idx : List ℕ)
      → p.bgmv_expand (h ∷ hs) (y ∷ ys) (a ∷ idx) ≡ expand a h y ∷ p.bgmv_expand hs ys idx

unfoldable pub add_each : {Y : Type 0} → (Y → Y → Y) → List Y → List Y → List Y
add_each add (x ∷ xs) (y ∷ ys) = add x y ∷ add_each add xs ys
add_each add _ _ = []

-- `BGMVLoRALinear.forward`, on the flattened batch.
unfoldable pub bgmv_lora_linear : {X Y : Type 0} → Projection X Y → Mode → List X → List Y
unfolding add_each
bgmv_lora_linear p base x2d = map p.linear x2d
bgmv_lora_linear p (lora idx) x2d =
    let n = length x2d in
    let h = p.bgmv_shrink x2d (replicate n p.zero_hidden) idx in
    let delta = p.bgmv_expand h (replicate n p.zero_delta) idx in
    add_each p.add (map p.linear x2d) delta

-- A network, by what its wrapped projections do, each with its number, to a flattened batch.
pub record Network (X Y : Type 0) : Type 1 where
  pub Logits : Type 0
  pub argmax : Logits → ℕ
  pub forward :
      (ℕ → List X → List Y) → List (List ℕ) → List (List ℕ) → List (List ℕ) → List (List Logits)

-- The draft: `wrap_draft` has wrapped its projections.
abbrev pub bgmv_model : {X Y : Type 0} → Network X Y → (ℕ → Projection X Y) → BatchedModel
bgmv_model net layers = record {
  Logits = net.Logits;
  argmax = net.argmax;
  forward = λ mode. net.forward (λ k. bgmv_lora_linear (layers k) mode);
}

-- The rows of a flattened batch, `s` for each owner, each with its owner's function.
unfoldable pub apply_rows : {X Y O : Type 0} → (O → X → Y) → ℕ → List O → List X → List Y
apply_rows of s [] xs = []
apply_rows of s (o ∷ owners) xs = map (of o) (take s xs) ++ apply_rows of s owners (drop s xs)

abbrev pub pairs : List (Option ℕ) → List (List ℕ) → List (Option ℕ × List ℕ)
pairs (o ∷ owners) (r ∷ rows) = (o, r) ∷ pairs owners rows
pairs _ _ = []

-- A network with no operation across the rows of a batch but its projections: padding on the left,
-- masked, changes nothing, and where the projections do to each row what is its owner's to do, the
-- row's logits are those of a network with the owner's projections, on the row alone.
pub record IsRowwise {X Y : Type 0} (net : Network X Y) (pad_id : ℕ) : Type 0 where
  pub logits : (ℕ → X → Y) → List ℕ → net.Logits
  pub forward_lem :
      (layers : ℕ → List X → List Y) (of : Option ℕ → ℕ → X → Y) (owners : List (Option ℕ))
      (rows : List (List ℕ))
      → length owners ≡ length rows
      → let s = max_length rows in
        ((k : ℕ) (xs : List X)
          → length xs ≡ length rows * s
          → layers k xs ≡ apply_rows (λ o. of o k) s owners xs)
        → let b = padded pad_id rows in
          Reads (λ o. logits (of o)) (net.forward layers b.ids b.mask b.pos) (pairs owners rows)
