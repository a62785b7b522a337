-- ===== src/KvEager/Iter.antt =====
-- benchmarks/e2e/serve_kv_eager.py: one speculative iteration of `spec_kv_iter` over the rows of a
-- batch, with the forward passes of its models. A model is a parameter: what it takes for the
-- likeliest next token, given the slots that its row's mask leaves to see. Attention is causal and
-- reads the slots of its own row only.
use adapter_slots_plus_plus.Common.{
  ℕ, zero, suc, ◌+◌, ◌-◌, List, [], ◌∷◌, ◌++◌, map, Option, some, Bool, true, ◌>>=◌, get_elem?,
}
use adapter_slots_plus_plus.Models.Greedy.{accepted}
use adapter_slots_plus_plus.KvEager.{CacheRow, target_row, draft_row, any_full}
use adapter_slots_plus_plus.KvEager.Slots.{real_slots}

abbrev pub KvModel : Type 0
KvModel = CacheRow → ℕ

-- `KVBatch.forward(x, pos).argmax(-1)`, on one row: a token for each one that is fed.
unfoldable pub forward_row : KvModel → CacheRow → ℕ → List ℕ → List ℕ
unfolding real_slots
forward_row model row pos [] = []
forward_row model row pos (x ∷ xs) =
    let fed = row ++ record { token = x; pos = pos; real = true } ∷ [] in
    model (real_slots fed) ∷ forward_row model fed (suc pos) xs

-- The loop that proposes: each proposal is fed for the next one.
unfoldable pub propose : KvModel → CacheRow → ℕ → ℕ → ℕ → List ℕ
unfolding real_slots
propose model row pos x zero = []
propose model row pos x (suc gamma) =
    let fed = row ++ record { token = x; pos = pos; real = true } ∷ [] in
    let y = model (real_slots fed) in y ∷ propose model fed (suc pos) y gamma

-- A row of the batch: its caches, and its entries of `real_len` and `pending`.
pub record KvRow : Type 0 where
  pub target : CacheRow
  pub draft : CacheRow
  pub real_len : ℕ
  pub pending : ℕ

-- What an iteration finds of a row: its entries of `acc`, `prop` and `bonus`.
pub record Found : Type 0 where
  pub acc : ℕ
  pub prop : List ℕ
  pub bonus : ℕ

-- The proposals, the target's predictions and the count of the proposals that agree.
unfoldable pub verify : KvModel → KvModel → ℕ → KvRow → Option Found
unfolding forward_row propose accepted
verify draft target gamma r = do
  let prop = propose draft r.draft (r.real_len - 1) r.pending gamma
  let pred = forward_row target r.target (r.real_len - 1) (r.pending ∷ prop)
  let acc = accepted pred prop
  bonus ← get_elem? pred acc
  some (record { acc = acc; prop = prop; bonus = bonus })

unfoldable pub verify_all : KvModel → KvModel → ℕ → List KvRow → Option (List Found)
unfolding verify
verify_all draft target gamma [] = some []
verify_all draft target gamma (r ∷ rows) = do
  one ← verify draft target gamma r
  rest ← verify_all draft target gamma rows
  some (one ∷ rest)

-- The caches behind the iteration, and what `run_kv` does next: `pending = bonus`,
-- `real_len = real_len + acc + 1`.
unfoldable pub roll_back : Bool → KvRow → Found → Option KvRow
unfolding target_row draft_row
roll_back full r found = do
  draft ← draft_row r.draft r.real_len r.pending found.prop found.acc full
  some (record {
    target = target_row r.target r.real_len r.pending found.prop found.acc;
    draft = draft;
    real_len = r.real_len + found.acc + 1;
    pending = found.bonus;
  })

unfoldable pub roll_back_all : Bool → List KvRow → List Found → Option (List KvRow)
unfolding roll_back
roll_back_all full (r ∷ rows) (found ∷ all) = do
  one ← roll_back full r found
  rest ← roll_back_all full rows all
  some (one ∷ rest)
roll_back_all full _ _ = some []

unfoldable pub spec_kv_iter : KvModel → KvModel → ℕ → List KvRow → Option (List KvRow × List Found)
unfolding verify_all any_full roll_back_all
spec_kv_iter draft target gamma rows = do
  all ← verify_all draft target gamma rows
  rows' ← roll_back_all (any_full gamma (map (λ (found : Found). found.acc) all)) rows all
  some (rows', all)
