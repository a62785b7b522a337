-- ===== src/Tests/Caches.antt =====
-- Examples for benchmarks/e2e/serve_kv_eager.py: a row with one token in its cache, a pending token
-- and two proposals of which one is accepted.
use adapter_slots_plus_plus.Common.{◌≡◌, ◌++◌, [], ◌∷◌, some, true, arith}
use adapter_slots_plus_plus.KvEager.{CacheRow, draft_row, any_full}
use adapter_slots_plus_plus.KvEager.Slots.{real_slots, slots_at}
use adapter_slots_plus_plus.KvEager.Masks.{draft_row_lem}

abbrev cached : CacheRow
cached = record { token = 9; pos = 0; real = true } ∷ []

-- The draft is left without the token 5; another row has accepted both of its proposals.
draft_row_lem_example :
    (row' : CacheRow) × (draft_row cached 2 4 (5 ∷ 6 ∷ []) 1 (any_full 2 (2 ∷ 1 ∷ [])) ≡ some row')
    × (real_slots row' ≡ real_slots cached ++ slots_at 1 (4 ∷ []))
draft_row_lem_example = draft_row_lem cached 2 4 5 (6 ∷ []) 1 (2 ∷ []) [] (omega arith)
