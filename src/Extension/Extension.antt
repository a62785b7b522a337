-- ===== src/Extension/Extension.antt =====
-- The methods of `WarpPipeExtension` (csrc/pybind/warp_pipe_bindings.cpp) on the store, the staging
-- pool and the segment table. A tensor is what the methods ask of it; the check that tensors are
-- contiguous fp16 on the device is one Boolean.
use adapter_slots_plus_plus.Common.{
  ℕ, ◌*◌, ◌/◌, ◌%◌, ltb, List, [], Option, none, some, Bool, true, false, ◌&&◌, ◌||◌, ◌==◌,
  if◌then◌else◌, ◌≡◌, arith,
}
use adapter_slots_plus_plus.Extension.Store.{
  Entry, AdapterStore, lookup, contains, evict, assign_entry,
}
use adapter_slots_plus_plus.Extension.Store
use adapter_slots_plus_plus.Extension.Cuda.{Cuda, a_buf, b_buf, copy, Buffer}
use adapter_slots_plus_plus.Extension.Staging.{
  Slot, new_pool, find_slot_for_adapter, acquire_slot, release_slot, mark_copy_issued, is_ready,
}
use adapter_slots_plus_plus.Extension.Table.{
  Table, new_table, Built, built, threw, build_segment_table,
}

pub record Tensor : Type 0 where
  pub data_ptr : ℕ
  -- The last two sizes.
  pub rows : ℕ
  pub columns : ℕ
  pub is_cuda_half_contiguous : Bool

-- `warp_pipe_rank_supported`
unfoldable pub rank_supported : ℕ → Bool
rank_supported rank = rank == 8 || rank == 16 || rank == 32 || rank == 64

-- `static_cast<int>(num_bytes / sizeof(float4))`, as far as the copy's loop goes: it does not run for a
-- negative number.
abbrev pub num_float4 : ℕ → ℕ
num_float4 num_bytes = let n = num_bytes / 16 % 0x100000000 in if ltb n 0x80000000 then n else 0

-- The bytes of a matrix of `half`.
abbrev pub half_bytes : ℕ → ℕ → ℕ
half_bytes rows columns = rows * columns * 2

module _ (cuda : Cuda) (Float : Type 0) where
  open cuda use {Device, issue, idle}

  pub record WarpPipeExtension : Type 0 where
    pub store : AdapterStore Float
    pub slots : List Slot
    pub device : Device
    pub meta : Table Float

  abbrev pub new_extension : Float → WarpPipeExtension
  new_extension z = record { store = []; slots = new_pool; device = idle; meta = new_table z }

  -- `launch_prefetch_copy`: whole blocks of 16 bytes.
  unfoldable pub launch_prefetch_copy : ℕ → Buffer → ℕ → Device → Device
  launch_prefetch_copy src dst num_bytes d = issue (copy src dst (num_float4 num_bytes * 16)) d

  abbrev pub entry_of : Tensor → Tensor → ℕ → Float → Entry Float
  entry_of a b rank alpha_scale = record {
    a_ptr = a.data_ptr;
    b_ptr = b.data_ptr;
    rank = rank;
    d_model = a.columns % 0x100000000;
    out_features = b.rows % 0x100000000;
    alpha_scale = alpha_scale;
  }

  -- `Float` is the C++ `float`: `alpha_scale` has been narrowed at the call. `none` is the exception of
  -- a check; the first one is that of the call, on a rank that is no `int32_t`.
  unfoldable pub register_adapter :
      WarpPipeExtension → ℕ → Tensor → Tensor → ℕ → Float → Option WarpPipeExtension
  register_adapter x adapter_id a b rank alpha_scale =
      if ltb rank 0x80000000 && a.is_cuda_half_contiguous && b.is_cuda_half_contiguous
      then elim (Store.register_adapter x.store adapter_id (entry_of a b rank alpha_scale)) [
        | none ↦ none
        | some store ↦ some (record x { store = store })
      ]
      else none

  unfoldable pub evict_adapter : WarpPipeExtension → ℕ → WarpPipeExtension
  evict_adapter x adapter_id = record x { store = evict x.store adapter_id }

  -- The two copies of an entry into slot `i`, and the event behind them.
  unfoldable pub issue_copies : WarpPipeExtension → Entry Float → ℕ → List Slot → WarpPipeExtension
  unfolding launch_prefetch_copy mark_copy_issued
  issue_copies x e i slots =
      let d = launch_prefetch_copy e.a_ptr (a_buf i) (half_bytes e.rank e.d_model) x.device in
      let d' = launch_prefetch_copy e.b_ptr (b_buf i) (half_bytes e.out_features e.rank) d in
      let marked = mark_copy_issued cuda slots d' i in
      record x { slots = marked.0; device = marked.1 }

  -- The slot, or `none` for -1.
  unfoldable pub prefetch_adapter : WarpPipeExtension → ℕ → WarpPipeExtension × Option ℕ
  unfolding issue_copies acquire_slot lookup
  prefetch_adapter x adapter_id = elim (lookup x.store adapter_id) [
    | none ↦ (x, none)
    | some e ↦ elim (acquire_slot x.slots adapter_id) [
      | none ↦ (x, none)
      | some (i, slots) ↦ (issue_copies x e i slots, some i)
    ]
  ]

  unfoldable pub is_prefetch_ready : WarpPipeExtension → ℕ → Bool
  unfolding find_slot_for_adapter is_ready
  is_prefetch_ready x adapter_id = elim (find_slot_for_adapter x.slots adapter_id) [
    | none ↦ false
    | some i ↦ is_ready cuda x.slots x.device i
  ]

  unfoldable pub release_prefetch : WarpPipeExtension → ℕ → WarpPipeExtension
  unfolding release_slot find_slot_for_adapter
  release_prefetch x adapter_id = record x {
    slots = release_slot x.slots (find_slot_for_adapter x.slots adapter_id);
  }

  -- The table is written in either case; `false` is the exception.
  unfoldable pub built_table : WarpPipeExtension → Built Float → WarpPipeExtension × Bool
  built_table x (built table) = (record x { meta = table }, true)
  built_table x (threw table) = (record x { meta = table }, false)

  unfoldable pub build_segments : WarpPipeExtension → List ℕ → List ℕ → WarpPipeExtension × Bool
  unfolding built_table build_segment_table
  build_segments x sorted_adapter_ids seg_offsets =
      built_table x
        (build_segment_table cuda x.meta sorted_adapter_ids seg_offsets x.store x.slots x.device)

-- A registration changes one entry of the store, and nothing else.
pub register_adapter-some_state :
    (cuda : Cuda) {Float : Type 0} (x : WarpPipeExtension cuda Float) (id : ℕ) (a b : Tensor)
    (rank : ℕ) (alpha_scale : Float) (x' : WarpPipeExtension cuda Float)
    → register_adapter cuda Float x id a b rank alpha_scale ≡ some x'
    → x' ≡ record x { store = assign_entry x.store id (entry_of cuda Float a b rank alpha_scale) }
unfolding register_adapter Store.register_adapter
register_adapter-some_state cuda {Float} x id a b rank alpha_scale x' h = ground (arith, h)
