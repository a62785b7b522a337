-- ===== src/Serving.antt =====
-- benchmarks/e2e/serve_to_completion.py: a batch is decoded until every row has `out_tokens` new
-- tokens. The clock is left out, and with it the goodput, which divides `requested` by the seconds.
pub mod Finish
use adapter_slots_plus_plus.Common.{
  ℕ, zero, suc, ◌+◌, ◌-◌, ◌*◌, List, [], ◌∷◌, map, Option, none, some, Bool, true, false, length,
  replicate, ltb, if◌then◌else◌, ◌>>=◌,
}
use adapter_slots_plus_plus.Multitenant.{BatchedModel, shared_draft, spec_iter, nospec_iter}

-- `kind`: "no_spec", or any other string.
pub data Kind : Type 0 where
  non_speculative : Kind
  speculative : Kind

-- The iteration after which a row was finished, of the rows that are.
unfoldable pub mark : ℕ → ℕ → List (List ℕ) → List ℕ → List (Option ℕ) → List (Option ℕ)
mark out_tokens it (r ∷ rows) (s ∷ start_len) (none ∷ finish_iter) =
    let rest = mark out_tokens it rows start_len finish_iter in
    if ltb (length r - s) out_tokens then none ∷ rest else some it ∷ rest
mark out_tokens it (r ∷ rows) (s ∷ start_len) (some f ∷ finish_iter) =
    some f ∷ mark out_tokens it rows start_len finish_iter
mark out_tokens it _ _ finish_iter = finish_iter

-- `any(f is None for f in finish_iter)`
unfoldable pub any_none : List (Option ℕ) → Bool
any_none [] = false
any_none (none ∷ finish_iter) = true
any_none (some f ∷ finish_iter) = any_none finish_iter

unfoldable pub count_emitted : List (List ℕ) → List ℕ → ℕ
count_emitted (r ∷ rows) (s ∷ start_len) = (length r - s) + count_emitted rows start_len
count_emitted _ _ = 0

pub record Completion : Type 0 where
  pub requested : ℕ
  pub emitted : ℕ
  pub finish_iter : List (Option ℕ)
  pub iters : ℕ

-- The limit of `if it > 4000: break`: the loop ends behind iteration 4001 at the latest.
abbrev pub max_iterations : ℕ
max_iterations = 4001

module _ (draft target : BatchedModel) (gamma out_tokens pad_id : ℕ) where
  -- One iteration. All rows have the adapter 0.
  unfoldable pub iterate : Kind → List (List ℕ) → Option (List (List ℕ) × ℕ)
  iterate non_speculative rows = nospec_iter target rows pad_id
  iterate speculative rows =
      spec_iter draft target rows (replicate (length rows) 0) gamma shared_draft pad_id

  -- The loop, with `left` iterations before the break.
  unfoldable pub drain :
      Kind
      → List ℕ
      → ℕ
      → ℕ
      → List (List ℕ)
      → List (Option ℕ)
      → Option (List (List ℕ) × List (Option ℕ) × ℕ)
  unfolding iterate mark
  drain kind start_len zero it rows finish_iter = some (rows, finish_iter, it)
  drain kind start_len (suc left) it rows finish_iter =
      let again = do
        (rows', produced) ← iterate kind rows
        drain kind start_len left (suc it) rows'
            (mark out_tokens (suc it) rows' start_len finish_iter)
      in if any_none finish_iter then again else some (rows, finish_iter, it)

  -- The first iteration is a warmup; its rows are dropped.
  unfoldable pub run_to_completion : Kind → List (List ℕ) → Option Completion
  run_to_completion kind prompts = do
    warm ← iterate kind prompts
    let start_len = map (λ p. length p) prompts
    (rows, finish_iter, it) ←
        drain kind start_len max_iterations 0 prompts (replicate (length prompts) none)
    some (record {
      requested = length prompts * out_tokens;
      emitted = count_emitted rows start_len;
      finish_iter = finish_iter;
      iters = it;
    })
