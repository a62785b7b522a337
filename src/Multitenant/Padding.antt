-- ===== src/Multitenant/Padding.antt =====
-- What a batched model is assumed to do with rows padded on the left, and the next token of each row
-- (benchmarks/e2e/serve_multitenant.py).
use adapter_slots_plus_plus.Common.{
  ℕ, suc, ◌<◌, ◌≡◌, refl, ap, ◌∙◌, List, [], ◌∷◌, ◌++◌, map, Option, none, some, arith, length,
  length-map, get_last?,
}
use adapter_slots_plus_plus.Models.{logits_after}
use adapter_slots_plus_plus.SpecLoops.Reference.{get_last?-logits_after}
use adapter_slots_plus_plus.Multitenant.{
  Mode, base, lora, BatchedModel, max_length, padded, pad_batch, repeat_interleave, last_tokens,
  next_tokens,
}

-- The output of a forward pass, row for row: padding, and then a position for each token, whose
-- logits depend on the row's adapter and its tokens up to there.
abbrev pub Reads :
    {L : Type 0} → (Option ℕ → List ℕ → L) → List (List L) → List (Option ℕ × List ℕ) → Type 0
Reads logits [] [] = Unit
Reads {L = L} logits (out ∷ outs) ((a, r) ∷ rows) =
    ((junk : List L) × (out ≡ junk ++ logits_after (logits a) [] r)) × Reads logits outs rows
Reads logits _ _ = ⊥

abbrev pub with_none : List (List ℕ) → List (Option ℕ × List ℕ)
with_none rows = map (λ r. (none, r)) rows

abbrev pub with_adapters : List ℕ → List (List ℕ) → List (Option ℕ × List ℕ)
with_adapters (a ∷ adapter) (r ∷ rows) = (some a, r) ∷ with_adapters adapter rows
with_adapters _ _ = []

-- Padding on the left, masked, changes nothing, and a row's adapter is the one given for its tokens.
pub record IsRagged (m : BatchedModel) (pad_id : ℕ) : Type 0 where
  pub logits : Option ℕ → List ℕ → m.Logits
  pub forward_base :
      (rows : List (List ℕ))
      → let b = padded pad_id rows in
        Reads logits (m.forward base b.ids b.mask b.pos) (with_none rows)
  pub forward_lora :
      (adapter : List ℕ) (rows : List (List ℕ))
      → length adapter ≡ length rows
      → let b = padded pad_id rows in
        Reads logits
          (m.forward (lora (repeat_interleave adapter (max_length rows))) b.ids b.mask b.pos)
          (with_adapters adapter rows)

-- No row is empty.
abbrev pub Filled : List (List ℕ) → Type 0
Filled [] = Unit
Filled (r ∷ rows) = (0 < length r) × Filled rows

abbrev FilledPairs : List (Option ℕ × List ℕ) → Type 0
FilledPairs [] = Unit
FilledPairs ((a, r) ∷ rows) = (0 < length r) × FilledPairs rows

with_none-FilledPairs : (rows : List (List ℕ)) → Filled rows → FilledPairs (with_none rows)
with_none-FilledPairs [] f = tt
with_none-FilledPairs (r ∷ rows) (h, f) = (h, with_none-FilledPairs rows f)

with_adapters-FilledPairs :
    (adapter : List ℕ) (rows : List (List ℕ))
    → Filled rows
    → FilledPairs (with_adapters adapter rows)
with_adapters-FilledPairs [] rows f = tt
with_adapters-FilledPairs (a ∷ adapter) [] f = tt
with_adapters-FilledPairs (a ∷ adapter) (r ∷ rows) (h, f) =
    (h, with_adapters-FilledPairs adapter rows f)

get_last?-append :
    {A : Type 0} (junk : List A) (x : A) (xs : List A)
    → get_last? (junk ++ x ∷ xs) ≡ get_last? (x ∷ xs)
get_last?-append [] x xs = refl
get_last?-append (j ∷ []) x xs = refl
get_last?-append (j ∷ k ∷ junk) x xs = get_last?-append (k ∷ junk) x xs

module _ {m : BatchedModel} {pad_id : ℕ} (law : IsRagged m pad_id) where
  -- Greedy decoding's next token, of a row with an adapter or none.
  abbrev pub next_token : Option ℕ × List ℕ → ℕ
  next_token (a, r) = m.argmax (law.logits a r)

  last_tokens-Reads :
      (outs : List (List m.Logits)) (rows : List (Option ℕ × List ℕ))
      → Reads law.logits outs rows
      → FilledPairs rows
      → last_tokens m outs ≡ some (map next_token rows)
  unfolding last_tokens logits_after
  last_tokens-Reads [] [] reads f = refl
  last_tokens-Reads [] (p ∷ rows) reads f = absurd reads
  last_tokens-Reads (out ∷ outs) [] reads f = absurd reads
  last_tokens-Reads (out ∷ outs) ((a, []) ∷ rows) reads (h, f) = absurd (omega arith)
  last_tokens-Reads (out ∷ outs) ((a, x ∷ xs) ∷ rows) ((junk, e), reads) (h, f) =
      let last : get_last? out ≡ some (law.logits a (x ∷ xs)) =
        ap get_last? e
        ∙ get_last?-append junk _ _
        ∙ get_last?-logits_after (law.logits a) [] x xs in
      rw (last, last_tokens-Reads outs rows reads f)

  pub pad_batch-some :
      (rows : List (List ℕ)) → 0 < length rows → pad_batch rows pad_id ≡ some (padded pad_id rows)
  unfolding pad_batch
  pad_batch-some [] h = absurd (omega arith)
  pad_batch-some (r ∷ rows) h = refl

  pub next_tokens-base :
      (rows : List (List ℕ))
      → 0 < length rows
      → Filled rows
      → next_tokens m rows pad_id (λ s. base) ≡ some (map next_token (with_none rows))
  unfolding next_tokens
  next_tokens-base rows some_rows f =
      rw (pad_batch-some rows some_rows) (
        last_tokens-Reads _ (with_none rows) (law.forward_base rows) (with_none-FilledPairs rows f))

  pub next_tokens-lora :
      (adapter : List ℕ) (rows : List (List ℕ)) (mode : ℕ → Mode)
      → mode (max_length rows) ≡ lora (repeat_interleave adapter (max_length rows))
      → 0 < length rows
      → length adapter ≡ length rows
      → Filled rows
      → next_tokens m rows pad_id mode ≡ some (map next_token (with_adapters adapter rows))
  unfolding next_tokens
  next_tokens-lora adapter rows mode e some_rows same f =
      rw (pad_batch-some rows some_rows, e)
        (last_tokens-Reads _ (with_adapters adapter rows) (law.forward_lora adapter rows same)
          (with_adapters-FilledPairs adapter rows f))

pub length-with_none : (rows : List (List ℕ)) → length (with_none rows) ≡ length rows
length-with_none rows = length-map _ rows

pub length-with_adapters :
    (adapter : List ℕ) (rows : List (List ℕ))
    → length adapter ≡ length rows
    → length (with_adapters adapter rows) ≡ length rows
length-with_adapters [] [] h = refl
length-with_adapters [] (r ∷ rows) h = absurd (cc)
length-with_adapters (a ∷ adapter) [] h = absurd (cc)
length-with_adapters (a ∷ adapter) (r ∷ rows) h =
    ap suc (length-with_adapters adapter rows (omega (arith, h)))
