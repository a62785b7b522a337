-- ===== src/Multitenant.antt =====
-- benchmarks/e2e/serve_multitenant.py: batches of rows of different lengths, padded on the left, with
-- an adapter for each row. A batched model is a parameter; what it reads of the global STATE, which
-- every call sets before it runs a model, is an argument of the forward pass.
pub mod Padding
pub mod Verify
pub mod Rows
pub mod Draft
pub mod Scatter
pub mod Strategies
pub mod Lora
pub mod Routing
pub mod RowModel
use adapter_slots_plus_plus.Common.{
  ℕ, zero, suc, ◌+◌, ◌-◌, ◌*◌, max, List, [], ◌∷◌, ◌++◌, map, Option, none, some, Bool, true, false,
  length, replicate, get_elem?, get_last?, set, take, drop, ◌==◌, ltb, if◌then◌else◌, ◌>>=◌,
}
use mathlib.Core.Option
use adapter_slots_plus_plus.Models.Greedy.{accepted}

-- STATE["mode"], with STATE["idx"]: an adapter for each token of the flattened batch.
pub data Mode : Type 0 where
  base : Mode
  lora : List ℕ → Mode

pub record BatchedModel : Type 1 where
  pub Logits : Type 0
  pub argmax : Logits → ℕ
  -- the logits of each position, from ids, attention mask and position ids
  pub forward : Mode → List (List ℕ) → List (List ℕ) → List (List ℕ) → List (List Logits)

unfoldable pub max_length : List (List ℕ) → ℕ
max_length [] = 0
max_length (r ∷ rows) = max (length r) (max_length rows)

-- `(mask.cumsum(-1) - 1).clamp(min=0)`, from the sum so far
unfoldable pub positions : ℕ → List ℕ → List ℕ
positions sum [] = []
positions sum (b ∷ mask) = (sum + b - 1) ∷ positions (sum + b) mask

-- A row of `ids` and of `mask`, for the width `s`.
unfoldable pub pad_ids : ℕ → ℕ → List ℕ → List ℕ
pad_ids pad_id s r = replicate (s - length r) pad_id ++ r

unfoldable pub pad_mask : ℕ → List ℕ → List ℕ
pad_mask s r = replicate (s - length r) 0 ++ replicate (length r) 1

pub record Padded : Type 0 where
  pub ids : List (List ℕ)
  pub mask : List (List ℕ)
  pub pos : List (List ℕ)

abbrev pub padded : ℕ → List (List ℕ) → Padded
padded pad_id rows =
    let s = max_length rows in
    record {
      ids = map (pad_ids pad_id s) rows;
      mask = map (pad_mask s) rows;
      pos = map (λ r. positions 0 (pad_mask s r)) rows;
    }

-- `max` of no rows raises.
unfoldable pub pad_batch : List (List ℕ) → ℕ → Option Padded
pad_batch [] pad_id = none
pad_batch (r ∷ rows) pad_id = some (padded pad_id (r ∷ rows))

-- `strategy`, a string of the source; `no_spec` and any other one raise in `draft_step`.
pub data Strategy : Type 0 where
  shared_draft : Strategy
  sgmv_draft : Strategy
  per_adapter : Strategy
  no_spec : Strategy

-- `adapter.repeat_interleave(S)`
unfoldable pub repeat_interleave : List ℕ → ℕ → List ℕ
repeat_interleave [] s = []
repeat_interleave (a ∷ adapter) s = replicate s a ++ repeat_interleave adapter s

-- `adapter.unique()`: in increasing order
unfoldable pub insert : ℕ → List ℕ → List ℕ
insert a [] = a ∷ []
insert a (b ∷ l) =
    let rest = insert a l in if a == b then b ∷ l else (if ltb a b then a ∷ b ∷ l else b ∷ rest)

unfoldable pub unique : List ℕ → List ℕ
unfolding insert
unique [] = []
unique (a ∷ adapter) = insert a (unique adapter)

-- `(adapter == a).nonzero(…)[0]`, from the index `i` on
unfoldable pub indices_of : ℕ → ℕ → List ℕ → List ℕ
indices_of a i [] = []
indices_of a i (b ∷ adapter) =
    let rest = indices_of a (suc i) adapter in if b == a then i ∷ rest else rest

-- `[rows[i] for i in sub]`
unfoldable pub select : List (List ℕ) → List ℕ → Option (List (List ℕ))
select rows [] = some []
select rows (i ∷ sub) = do r ← get_elem? rows i; rest ← select rows sub; some (r ∷ rest)

-- `nt[sub] = …`
unfoldable pub scatter : List ℕ → List ℕ → List ℕ → List ℕ
scatter nt (i ∷ sub) (v ∷ values) = scatter (set nt i v) sub values
scatter nt _ _ = nt

module _ (m : BatchedModel) where
  -- `logits[:, -1].argmax(-1)`
  unfoldable pub last_tokens : List (List m.Logits) → Option (List ℕ)
  last_tokens [] = some []
  last_tokens (out ∷ outs) = do l ← get_last? out; rest ← last_tokens outs; some (m.argmax l ∷ rest)

  -- The forward pass of the rows with an adapter, or none, for each token.
  unfoldable pub next_tokens : List (List ℕ) → ℕ → (ℕ → Mode) → Option (List ℕ)
  next_tokens rows pad_id mode = do
    b ← pad_batch rows pad_id
    last_tokens (m.forward (mode (max_length rows)) b.ids b.mask b.pos)

  -- The loop of "per_adapter" over the adapters that are left.
  unfoldable pub each_adapter : List (List ℕ) → List ℕ → ℕ → List ℕ → List ℕ → Option (List ℕ)
  unfolding next_tokens
  each_adapter rows adapter pad_id [] nt = some nt
  each_adapter rows adapter pad_id (a ∷ adapters) nt = do
    let sub = indices_of a 0 adapter
    subrows ← select rows sub
    values ← next_tokens subrows pad_id (λ s. lora (replicate (length subrows * s) a))
    each_adapter rows adapter pad_id adapters (scatter nt sub values)

  unfoldable pub draft_step : List (List ℕ) → List ℕ → Strategy → ℕ → Option (List ℕ)
  unfolding next_tokens each_adapter unique
  draft_step rows adapter shared_draft pad_id = next_tokens rows pad_id (λ s. base)
  draft_step rows adapter sgmv_draft pad_id =
      next_tokens rows pad_id (λ s. lora (repeat_interleave adapter s))
  draft_step rows adapter per_adapter pad_id =
      each_adapter rows adapter pad_id (unique adapter) (replicate (length rows) 0)
  draft_step rows adapter no_spec pad_id = none

-- `[torch.cat([rows[i], nt[i].view(1)]) for i in …]`
unfoldable pub append_each : List (List ℕ) → List ℕ → Option (List (List ℕ))
append_each [] nt = some []
append_each (r ∷ rows) [] = none
append_each (r ∷ rows) (t ∷ nt) = do rest ← append_each rows nt; some ((r ++ t ∷ []) ∷ rest)

-- `tgt_arg[i, -n:]`, which raises if the row has fewer positions
unfoldable pub from_end : ℕ → List ℕ → Option (List ℕ)
from_end n l = if ltb (length l) n then none else some (drop (length l - n) l)

-- One row of the verification: its new tokens are appended.
unfoldable pub verify_row : ℕ → List ℕ → List ℕ → List ℕ → Option (List ℕ × ℕ)
verify_row gamma r proposed tgt_arg = do
  pred ← from_end (gamma + 1) tgt_arg
  let a = accepted pred proposed
  bonus ← get_elem? pred a
  some (r ++ (take a proposed ++ bonus ∷ []), a + 1)

-- The loop over the rows.
unfoldable pub verify_rows :
    ℕ → List (List ℕ) → List (List ℕ) → List (List ℕ) → Option (List (List ℕ) × ℕ)
unfolding verify_row
verify_rows gamma [] proposed tgt_arg = some ([], 0)
verify_rows gamma (r ∷ rows) (p ∷ proposed) (t ∷ tgt_arg) = do
  (r', n) ← verify_row gamma r p t
  (rest, produced) ← verify_rows gamma rows proposed tgt_arg
  some (r' ∷ rest, n + produced)
verify_rows gamma (r ∷ rows) _ _ = none

module _ (draft target : BatchedModel) where
  -- The draft's loop, with `k` tokens left: the rows it works on, and what it proposed for each.
  unfoldable pub propose :
      ℕ
      → List (List ℕ)
      → List (List ℕ)
      → List ℕ
      → Strategy
      → ℕ
      → Option (List (List ℕ) × List (List ℕ))
  propose zero work proposed adapter strategy pad_id = some (work, proposed)
  propose (suc k) work proposed adapter strategy pad_id = do
    nt ← draft_step draft work adapter strategy pad_id
    work' ← append_each work nt
    proposed' ← append_each proposed nt
    propose k work' proposed' adapter strategy pad_id

  unfoldable pub spec_iter : List (List ℕ) → List ℕ → ℕ → Strategy → ℕ → Option (List (List ℕ) × ℕ)
  unfolding propose
  spec_iter rows adapter gamma strategy pad_id = do
    (work, proposed) ← propose gamma rows (replicate (length rows) []) adapter strategy pad_id
    b ← pad_batch work pad_id
    verify_rows gamma rows proposed
        (map (map target.argmax) (target.forward base b.ids b.mask b.pos))

module _ (target : BatchedModel) where
  unfoldable pub nospec_iter : List (List ℕ) → ℕ → Option (List (List ℕ) × ℕ)
  unfolding next_tokens
  nospec_iter rows pad_id = do
    nt ← next_tokens target rows pad_id (λ s. base)
    rows' ← append_each rows nt
    some (rows', length rows)
