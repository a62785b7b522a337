-- ===== src/Extension/Table.antt =====
-- `build_segment_table` of csrc/dispatch/segment_builder.cpp. The table keeps its 256 rows from
-- call to call, and a call writes the first of them.
use adapter_slots_plus_plus.Common.{
  ℕ, suc, ◌+◌, ◌-◌, ◌%◌, List, ◌∷◌, Option, none, some, Bool, true, false, not, ◌==◌, ltb,
  if◌then◌else◌, length, set, replicate,
}
use adapter_slots_plus_plus.Punica.Kernel.{max_segments}
use adapter_slots_plus_plus.Extension.Store.{Entry, AdapterStore, lookup}
use adapter_slots_plus_plus.Extension.Cuda.{Cuda, a_buf, b_buf}
use adapter_slots_plus_plus.Extension.Staging.{Slot, find_slot_for_adapter, is_ready}

-- `SegmentDescriptor` of csrc/bridge/warp_pipe_metadata.h.
pub record Row (Float : Type 0) : Type 0 where
  pub adapter_id : ℕ
  pub token_start : ℕ
  pub token_count : ℕ
  pub rank : ℕ
  pub d_model : ℕ
  pub out_features : ℕ
  pub alpha_scale : Float
  pub promo_eligible : ℕ
  pub burst_active : ℕ
  pub prefetch_ready : ℕ
  pub use_staging : ℕ
  pub a_ptr : ℕ
  pub b_ptr : ℕ
  pub staging_a_ptr : ℕ
  pub staging_b_ptr : ℕ

-- The table of `WarpPipeMetadata`.
pub record Table (Float : Type 0) : Type 0 where
  pub segments : List (Row Float)
  pub num_segments : ℕ

-- A call that returns, or one that throws: each with the table that it leaves.
pub data Built (Float : Type 0) : Type 0 where
  built : Table Float → Built Float
  threw : Table Float → Built Float

-- The table in zeroed memory.
abbrev pub new_table : {Float : Type 0} → Float → Table Float
new_table zero = record {
  segments = replicate max_segments (record {
    adapter_id = 0;
    token_start = 0;
    token_count = 0;
    rank = 0;
    d_model = 0;
    out_features = 0;
    alpha_scale = zero;
    promo_eligible = 0;
    burst_active = 0;
    prefetch_ready = 0;
    use_staging = 0;
    a_ptr = 0;
    b_ptr = 0;
    staging_a_ptr = 0;
    staging_b_ptr = 0;
  });
  num_segments = 0;
}

-- `int32_t` b - a
abbrev pub sub32 : ℕ → ℕ → ℕ
sub32 b a = (b + 0x100000000 - a) % 0x100000000

module _ (cuda : Cuda) where
  -- The slot whose buffers a segment of the adapter reads, if any.
  unfoldable pub staged : List Slot → cuda.Device → ℕ → Option ℕ
  unfolding find_slot_for_adapter is_ready
  staged slots d id = elim (find_slot_for_adapter slots id) [
    | none ↦ none
    | some i ↦ if is_ready cuda slots d i then some i else none
  ]

module _ (cuda : Cuda) {Float : Type 0} where
  open cuda use {Device, address}

  unfoldable pub segment_row : List Slot → Device → ℕ → ℕ → ℕ → Entry Float → Row Float
  unfolding staged
  segment_row slots d id start end e =
      let slot = staged cuda slots d id in
      record {
        adapter_id = id;
        token_start = start;
        token_count = sub32 end start;
        rank = e.rank;
        d_model = e.d_model;
        out_features = e.out_features;
        alpha_scale = e.alpha_scale;
        promo_eligible = 0;
        burst_active = 0;
        prefetch_ready = elim slot [ none ↦ 0 | some i ↦ 1 ];
        use_staging = elim slot [ none ↦ 0 | some i ↦ 1 ];
        a_ptr = e.a_ptr;
        b_ptr = e.b_ptr;
        staging_a_ptr = elim slot [ none ↦ 0 | some i ↦ address (a_buf i) ];
        staging_b_ptr = elim slot [ none ↦ 0 | some i ↦ address (b_buf i) ];
      }

  -- The loop, from its i-th round on: `none` marks the exception on an unknown adapter.
  unfoldable pub write_rows :
      AdapterStore Float
      → List Slot
      → Device
      → List ℕ
      → List ℕ
      → ℕ
      → List (Row Float)
      → List (Row Float) × Bool
  unfolding segment_row lookup
  write_rows store slots d (id ∷ ids) (start ∷ end ∷ offsets) i rows = elim (lookup store id) [
    | none ↦ (rows, false)
    | some e ↦
        write_rows store slots d ids (end ∷ offsets) (suc i)
          (set rows i (segment_row slots d id start end e))
  ]
  write_rows store slots d _ _ i rows = (rows, true)

  unfoldable pub finish_table : ℕ → Table Float → List (Row Float) × Bool → Built Float
  finish_table k table (rows, true) = built (record { segments = rows; num_segments = k })
  finish_table k table (rows, false) = threw (record table { segments = rows })

  unfoldable pub build_segment_table :
      Table Float → List ℕ → List ℕ → AdapterStore Float → List Slot → Device → Built Float
  unfolding write_rows finish_table
  build_segment_table table sorted_adapter_ids seg_offsets store slots d =
      let k = length sorted_adapter_ids in
      if not (length seg_offsets == k + 1)
      then threw table
      else (if ltb max_segments k
          then threw table
          else finish_table k table
              (write_rows store slots d sorted_adapter_ids seg_offsets 0 table.segments))
