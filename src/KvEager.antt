-- ===== src/KvEager.antt =====
-- benchmarks/e2e/serve_kv_eager.py: the batched cache of `KVBatch`, which is only ever appended to,
-- and the bookkeeping of `spec_kv_iter` behind the forward passes: the proposals that are accepted
-- and the masks that take the rejected ones back. What the models compute is an argument here,
-- and is computed in Iter.
pub mod Slots
pub mod Masks
pub mod Iter
pub mod Target
pub mod Run
pub mod Prefill
pub mod Extend
pub mod Finish
pub mod Complete
use adapter_slots_plus_plus.Common.{
  ℕ, zero, suc, ◌+◌, ◌-◌, List, [], ◌∷◌, ◌++◌, map, Option, some, Bool, true, false, ◌||◌, ◌==◌,
  ltb, leb, length, take, drop, drop_last, get_last?, get_elem?, if◌then◌else◌, ◌>>=◌,
}
use adapter_slots_plus_plus.Models.Greedy.{accepted}

-- A slot of one row of the cache, with the row's mask bit.
pub record CacheSlot : Type 0 where
  pub token : ℕ
  pub pos : ℕ
  pub real : Bool

abbrev pub CacheRow : Type 0
CacheRow = List CacheSlot

-- `KVBatch.forward`, on one row: the tokens are appended, all of them real.
unfoldable pub feed : CacheRow → ℕ → List ℕ → CacheRow
feed row pos [] = row
feed row pos (x ∷ xs) = feed (row ++ record { token = x; pos = pos; real = true } ∷ []) (suc pos) xs

-- `mask[:, -n:] = bits`
unfoldable pub write_bits : CacheRow → List Bool → CacheRow
write_bits (s ∷ row) (b ∷ bits) = record s { real = b } ∷ write_bits row bits
write_bits row _ = row

unfoldable pub overwrite_mask : CacheRow → ℕ → List Bool → CacheRow
unfolding write_bits
overwrite_mask row n bits = take (length row - n) row ++ write_bits (drop (length row - n) row) bits

-- `ar <= acc` and `ar < acc`, for the `n` numbers from `j` on.
unfoldable pub at_most : ℕ → ℕ → ℕ → List Bool
at_most acc j zero = []
at_most acc j (suc n) = leb j acc ∷ at_most acc (suc j) n

unfoldable pub less_than : ℕ → ℕ → ℕ → List Bool
less_than acc j zero = []
less_than acc j (suc n) = ltb j acc ∷ less_than acc (suc j) n

-- The target's row: the pending token and the proposals are fed, and the rejected ones masked.
unfoldable pub target_row : CacheRow → ℕ → ℕ → List ℕ → ℕ → CacheRow
unfolding feed overwrite_mask at_most
target_row row real_len pending prop acc =
    let gamma = length prop in
    overwrite_mask (feed row (real_len - 1) (pending ∷ prop)) (gamma + 1)
      (at_most acc 0 (gamma + 1))

-- The draft's row: it is fed the pending token and all proposals but the last while it makes them;
-- where some row of the batch has accepted all, every row is fed the last one, too.
unfoldable pub draft_row : CacheRow → ℕ → ℕ → List ℕ → ℕ → Bool → Option CacheRow
unfolding feed overwrite_mask less_than
draft_row row real_len pending prop acc any_full = do
  let gamma = length prop
  let fed = feed row (real_len - 1) (drop_last (pending ∷ prop))
  let masked = overwrite_mask fed gamma (less_than acc 0 gamma)
  last ← get_last? prop
  some (
      if any_full
      then overwrite_mask (feed masked (real_len - 1 + gamma) (last ∷ [])) 1 ((acc == gamma) ∷ [])
      else masked)

-- `(acc == gamma).any()`
unfoldable pub any_full : ℕ → List ℕ → Bool
any_full gamma [] = false
any_full gamma (a ∷ acc) = a == gamma || any_full gamma acc
