-- ===== src/Tests/Staging.antt =====
-- Examples for the extension: a GPU with one stream as a queue, and two adapters of which one is
-- prefetched.
use adapter_slots_plus_plus.Common.{
  ◌↔◌, ◌⊎◌, none, ℕ, zero, suc, ◌≤◌, ◌≡◌, ◌≢◌, refl, inr, List, [], ◌∷◌, some, true, false, arith,
  get_elem?, length,
}
use adapter_slots_plus_plus.Extension.Cuda.{a_buf, b_buf, awaits}
use adapter_slots_plus_plus.Extension.Store.{Entry, lookup, assign_entry, evict}
use adapter_slots_plus_plus.Extension.Store
use adapter_slots_plus_plus.Extension.Staging.{
  find_slot_for_adapter, acquire_slot, is_ready, take_free_slot,
}
use adapter_slots_plus_plus.Extension.Table.{Row, segment_row, staged}
use adapter_slots_plus_plus.Extension.Prefetched.{Fits}
use adapter_slots_plus_plus.Extension.Extension.{
  WarpPipeExtension, entry_of, register_adapter, evict_adapter, prefetch_adapter, is_prefetch_ready,
  build_segments, half_bytes, rank_supported,
}
use adapter_slots_plus_plus.Extension.Ready.{register_adapter_stale}
use adapter_slots_plus_plus.Extension.Build.{build_segments_raised, use_staging_lem}
use adapter_slots_plus_plus.Extension.Batch.{segments_to_warp_pipe-build_segments, IsLaidOut}
use adapter_slots_plus_plus.Dict.{get, put, contains}
use adapter_slots_plus_plus.Bridge.IdMap.{
  AdapterIdMap, new_map, assign, get_or_assign, new_map-IsBijection,
}
use adapter_slots_plus_plus.Bridge.Segments.{SegmentDescriptor, segments_to_warp_pipe, convert}
use adapter_slots_plus_plus.Engine.{WarpPipeEngine, new_warp_pipe_engine}
use adapter_slots_plus_plus.Engine
use adapter_slots_plus_plus.Engine.Register.{register_adapter_lem}
use adapter_slots_plus_plus.Tests.Scheduling.{hundredths}
use adapter_slots_plus_plus.Extension.Slots.{IsUnique}
use adapter_slots_plus_plus.Extension.Unique.{IsCrowded, Reach-IsUnique, prefetch_adapter-none}
use adapter_slots_plus_plus.Extension.Live.{progress_by, prefetch_adapter-ready}
use adapter_slots_plus_plus.Tests.Gpu.{
  address_of, gpu, matrix, fresh, entry, registered, copying, drained, drained-Reach,
}

prefetched_slot : (prefetch_adapter gpu ℕ registered 7).1 ≡ some 0
unfolding prefetch_adapter lookup acquire_slot find_slot_for_adapter take_free_slot
prefetched_slot = refl

three_left : length (gpu.pending copying.device) ≤ 3
unfolding prefetch_adapter lookup acquire_slot find_slot_for_adapter take_free_slot
three_left = omega arith

prefetch_adapter-ready_example :
    (is_prefetch_ready gpu ℕ copying 7 ≡ false)
    × (is_prefetch_ready gpu ℕ (record copying { device = progress_by gpu 3 copying.device }) 7
        ≡ true)
prefetch_adapter-ready_example =
    prefetch_adapter-ready gpu registered 7 0 3 prefetched_slot three_left

nine_unknown : lookup drained.store 9 ≡ none
unfolding prefetch_adapter lookup
nine_unknown = refl

build_segments_raised_example :
    let after = build_segments gpu ℕ drained (7 ∷ 9 ∷ []) (0 ∷ 3 ∷ 5 ∷ []) in
    (after.1 ≡ false)
    × (after.0.meta.num_segments ≡ drained.meta.num_segments)
    × (after.0.store ≡ drained.store)
    × (after.0.slots ≡ drained.slots)
    × (after.0.device ≡ drained.device)
build_segments_raised_example =
    build_segments_raised gpu drained (7 ∷ 9 ∷ []) (0 ∷ 3 ∷ 5 ∷ [])
      (inr (inr (1, 9, refl, nine_unknown)))

-- The row of a segment of four tokens, which reads the staging slot.
abbrev staged_row : Row ℕ
staged_row = record {
  adapter_id = 7;
  token_start = 0;
  token_count = 4;
  rank = 32;
  d_model = 64;
  out_features = 128;
  alpha_scale = 2;
  promo_eligible = 0;
  burst_active = 0;
  prefetch_ready = 1;
  use_staging = 1;
  a_ptr = 4096;
  b_ptr = 8192;
  staging_a_ptr = 0x100000;
  staging_b_ptr = 0x200000;
}

staged_row_built :
    let after = build_segments gpu ℕ drained (7 ∷ []) (0 ∷ 4 ∷ []) in
    (after.1 ≡ true) × (get_elem? after.0.meta.segments 0 ≡ some staged_row)
unfolding build_segments prefetch_adapter lookup acquire_slot find_slot_for_adapter take_free_slot
    awaits
staged_row_built = (refl, refl)

rank_32 : rank_supported 32 ≡ true
unfolding rank_supported
rank_32 = refl

use_staging_lem_example :
    (i : ℕ) × (0x100000 ≡ address_of (a_buf i))
    × (0x200000 ≡ address_of (b_buf i))
    × (gpu.held drained.device (a_buf i) ≡ some (4096, 4096))
    × (gpu.held drained.device (b_buf i) ≡ some (8192, 8192))
use_staging_lem_example =
    use_staging_lem gpu drained (7 ∷ []) (0 ∷ 4 ∷ []) 0 0 staged_row drained-Reach
      staged_row_built.0 (omega arith) staged_row_built.1 rank_32 refl

-- Other weights for adapter 7.
abbrev new_entry : Entry ℕ
new_entry = entry_of gpu ℕ (matrix 16384 32 64) (matrix 32768 128 32) 32 2

abbrev replaced : WarpPipeExtension gpu ℕ
replaced = record drained { store = (7, new_entry) ∷ [] }

replaced_lem :
    register_adapter gpu ℕ
      (evict_adapter gpu ℕ drained 7)
      7
      (matrix 16384 32 64)
      (matrix 32768 128 32)
      32
      2
    ≡ some replaced
unfolding register_adapter Store.register_adapter assign_entry evict_adapter evict prefetch_adapter
    lookup
replaced_lem = refl

drained_slot : staged gpu drained.slots drained.device 7 ≡ some 0
unfolding staged is_ready prefetch_adapter lookup acquire_slot find_slot_for_adapter take_free_slot
    awaits
drained_slot = refl

seven_known : lookup drained.store 7 ≡ some entry
unfolding prefetch_adapter lookup
seven_known = refl

register_adapter_stale_example :
    let row = segment_row gpu replaced.slots replaced.device 7 0 4 new_entry in
    (lookup replaced.store 7 ≡ some new_entry)
    × (row.a_ptr ≡ 16384)
    × (row.use_staging ≡ 1)
    × (row.staging_a_ptr ≡ 0x100000)
    × (gpu.held replaced.device (a_buf 0) ≡ some (4096, 4096))
    × (gpu.held replaced.device (a_buf 0) ≢ some (row.a_ptr, half_bytes row.rank row.d_model))
register_adapter_stale_example =
    register_adapter_stale gpu 0 drained replaced 7 0 0 4 entry (matrix 16384 32 64)
      (matrix 32768 128 32) 32 2 drained-Reach drained_slot seven_known rank_32 replaced_lem
      (λ e. absurd (omega (arith, e)))

-- A bridge's map and the extension meet: adapters 0 and 1 are registered.
abbrev serving : WarpPipeExtension gpu ℕ
serving = record fresh { store = (0, entry) ∷ (1, new_entry) ∷ [] }

abbrev requests : List SegmentDescriptor
requests =
    record { adapter_id = "math"; segment_size = 3 }
    ∷ record { adapter_id = "sql"; segment_size = 2 }
    ∷ []

abbrev math_sql : AdapterIdMap
math_sql = assign (assign new_map "math") "sql"

requests_converted :
    segments_to_warp_pipe requests new_map ≡ some ((0 ∷ 1 ∷ [], 0 ∷ 3 ∷ 5 ∷ []), math_sql)
unfolding segments_to_warp_pipe get_or_assign assign contains get put convert
requests_converted = refl

serving_known :
    (k id : ℕ)
    → get_elem? (0 ∷ 1 ∷ []) k ≡ some id
    → (e : Entry ℕ) × (lookup serving.store id ≡ some e)
unfolding lookup
serving_known zero id at = (entry, let same : 0 ≡ id = cc in rw (← same))
serving_known (suc zero) id at = (new_entry, let same : 1 ≡ id = cc in rw (← same))
serving_known (suc (suc k)) id at = absurd (cc)

segments_to_warp_pipe-build_segments_example :
    let after = build_segments gpu ℕ serving (0 ∷ 1 ∷ []) (0 ∷ 3 ∷ 5 ∷ []) in
    (after.1 ≡ true)
    × (after.0.meta.num_segments ≡ 2)
    × IsLaidOut gpu serving math_sql requests 0 after.0.meta.segments
segments_to_warp_pipe-build_segments_example =
    segments_to_warp_pipe-build_segments gpu serving requests new_map math_sql (0 ∷ 1 ∷ [])
      (0 ∷ 3 ∷ 5 ∷ []) new_map-IsBijection requests_converted (omega arith) (omega arith)
      serving_known refl

-- An engine with the default configuration.
abbrev engine : WarpPipeEngine gpu hundredths
engine = new_warp_pipe_engine gpu hundredths none

register_adapter_lem_example :
    (engine' : WarpPipeEngine gpu hundredths) × (Engine.register_adapter gpu hundredths engine 7
        (matrix 4096 32 64)
        (matrix 8192 128 32)
        200
        none
      ≡ some engine')
    × (lookup engine'.ext.store 7
        ≡ some (record {
          a_ptr = 4096;
          b_ptr = 8192;
          rank = 32;
          d_model = 64;
          out_features = 128;
          alpha_scale = 200;
        }))
    × (lookup engine'.ext.store 9 ≡ lookup engine.ext.store 9)
    × (engine'.ext.slots ≡ engine.ext.slots)
    × (engine'.ext.device ≡ engine.ext.device)
    × (engine'.ext.meta ≡ engine.ext.meta)
unfolding new_warp_pipe_engine
register_adapter_lem_example =
    register_adapter_lem gpu hundredths engine 7 (matrix 4096 32 64) (matrix 8192 128 32) 200 none 9
      (refl, refl) (refl, refl) (omega arith) (omega arith)

Reach-IsUnique_example : IsUnique drained.slots
Reach-IsUnique_example = Reach-IsUnique gpu Fits 0 drained drained-Reach

prefetch_adapter-none_example :
    (((prefetch_adapter gpu ℕ drained 9).1 ≡ none)
      ↔ (lookup drained.store 9 ≡ none) ⊎ IsCrowded drained.slots 9)
    × ((prefetch_adapter gpu ℕ drained 9 ≡ (drained, none))
        ↔ (lookup drained.store 9 ≡ none) ⊎ IsCrowded drained.slots 9)
prefetch_adapter-none_example = prefetch_adapter-none gpu drained 9
