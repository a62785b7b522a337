-- ===== src/Extension/Prefetched.antt =====
-- The prefetch engine of `WarpPipeExtension` (csrc/pybind/warp_pipe_bindings.cpp) beside the
-- device, which finishes commands when it will.
use adapter_slots_plus_plus.Common.{
  ℕ, ◌*◌, ◌/◌, ◌%◌, ltb, lt→ltb, arith, ◌≤◌, ◌≡◌, List, none, some, true, get_elem?,
}
use adapter_slots_plus_plus.Extension.Store.{Entry, lookup}
use adapter_slots_plus_plus.Extension.Cuda.{Cuda, a_buf, b_buf, Contents, buffer_bytes}
use adapter_slots_plus_plus.Extension.Staging.{Slot, find_slot_for_adapter}
use adapter_slots_plus_plus.Extension.Pending.{settle, IsFenced}
use adapter_slots_plus_plus.Extension.Extension.{
  WarpPipeExtension, Tensor, entry_of, num_float4, register_adapter, build_segments, half_bytes,
  prefetch_adapter, release_prefetch, evict_adapter,
}

-- The bytes that `launch_prefetch_copy` copies.
abbrev pub copied : ℕ → ℕ
copied num_bytes = num_float4 num_bytes * 16

-- Of a matrix that fits a buffer all blocks of 16 bytes are copied.
pub copied-whole : (n : ℕ) → n ≤ buffer_bytes → copied n ≡ n / 16 * 16
copied-whole n h =
    let small : ltb (n / 16 % 0x100000000) 0x80000000 ≡ true = lt→ltb _ _ (omega (arith, h)) in
    rw small (omega (arith, h))

-- The entry's matrices fit the buffers of a slot.
abbrev pub Fits : {Float : Type 0} → Entry Float → Type 0
Fits e =
    (half_bytes e.rank e.d_model ≤ buffer_bytes) × (half_bytes e.out_features e.rank ≤ buffer_bytes)

-- Nothing is asked of the entry.
abbrev pub AnyEntry : {Float : Type 0} → Entry Float → Type 0
AnyEntry e = Unit

-- The contents are copies of the entry's matrices.
abbrev pub AreCopies : {Float : Type 0} → Entry Float → ℕ → Contents → Type 0
AreCopies e i held =
    (held (a_buf i) ≡ some (e.a_ptr, copied (half_bytes e.rank e.d_model)))
    × (held (b_buf i) ≡ some (e.b_ptr, copied (half_bytes e.out_features e.rank)))

module _ (cuda : Cuda) {Float : Type 0} where
  open cuda use {Device, pending, held, issue, progress, idle}

  -- The device finishes the oldest command.
  abbrev pub advance : WarpPipeExtension cuda Float → WarpPipeExtension cuda Float
  advance x = record x { device = progress x.device }

  -- A call of a method, or a step of the device. An adapter is registered only while no slot is
  -- assigned to its id, and only with an entry that `Admits` it.
  pub data Step (Admits : Entry Float → Type 0) (x : WarpPipeExtension cuda Float)
      : WarpPipeExtension cuda Float → Type 0 where
    registers :
        (id : ℕ) (a b : Tensor) (rank : ℕ) (alpha_scale : Float) {x' : WarpPipeExtension cuda Float}
        → find_slot_for_adapter x.slots id ≡ none
        → Admits (entry_of cuda Float a b rank alpha_scale)
        → register_adapter cuda Float x id a b rank alpha_scale ≡ some x'
        → Step Admits x x'
    evicts : (id : ℕ) → Step Admits x (evict_adapter cuda Float x id)
    prefetches : (id : ℕ) → Step Admits x (prefetch_adapter cuda Float x id).0
    releases : (id : ℕ) → Step Admits x (release_prefetch cuda Float x id)
    builds : (ids offsets : List ℕ) → Step Admits x (build_segments cuda Float x ids offsets).0
    advances : Step Admits x (advance x)

  -- Commands behind a copy into a slot record its event; and the buffers of a slot whose copies are
  -- issued will hold the matrices of its adapter, if that is registered. All entries fit.
  pub record IsStaged (x : WarpPipeExtension cuda Float) : Type 0 where
    pub fits : (id : ℕ) (e : Entry Float) → lookup x.store id ≡ some e → Fits e
    pub fenced : (i : ℕ) → IsFenced i (pending x.device)
    pub copies :
        (i : ℕ) (s : Slot) (e : Entry Float)
        → get_elem? x.slots i ≡ some s
        → s.copy_issued ≡ true
        → lookup x.store s.adapter_id ≡ some e
        → AreCopies e i (settle (pending x.device) (held x.device))

  pub data Reach (Admits : Entry Float → Type 0) (x : WarpPipeExtension cuda Float)
      : WarpPipeExtension cuda Float → Type 0 where
    here : Reach Admits x x
    next :
        {y z : WarpPipeExtension cuda Float} → Reach Admits x y → Step Admits y z → Reach Admits x z
