-- ===== src/Extension/Ready.antt =====
-- When a segment may read its adapter's weights from a staging slot: `prefetch_adapter`,
-- `is_prefetch_ready`, `register_adapter` and `evict_adapter` of csrc/pybind/warp_pipe_bindings.cpp
-- with the rows of csrc/dispatch/segment_builder.cpp.
use adapter_slots_plus_plus.Common.{
  ℕ, ◌*◌, ◌/◌, ◌⊎◌, ◌≡◌, ◌≢◌, ◌∙◌, sym, ap, refl, inl, inr, List, some, true, false, arith,
  Bool-cases, Option-cases, get_elem?,
}
use adapter_slots_plus_plus.Extension.Store.{Entry, lookup, evict, lookup-assign_entry_self}
use adapter_slots_plus_plus.Extension.Cuda.{Cuda, a_buf, b_buf, awaits}
use adapter_slots_plus_plus.Extension.Staging.{Slot, find_slot_for_adapter, is_ready}
use adapter_slots_plus_plus.Extension.Pool.{find_slot-some}
use adapter_slots_plus_plus.Extension.Pending.{settle-IsFenced}
use adapter_slots_plus_plus.Extension.Table.{segment_row, staged}
use adapter_slots_plus_plus.Extension.Extension.{
  WarpPipeExtension, Tensor, entry_of, rank_supported, half_bytes, register_adapter,
  register_adapter-some_state, evict_adapter, new_extension,
}
use adapter_slots_plus_plus.Extension.Prefetched.{copied-whole, Fits, IsStaged, Reach}
use adapter_slots_plus_plus.Extension.Kept.{Reach-IsStaged}

supported_ranks :
    (rank : ℕ)
    → rank_supported rank ≡ true
    → (rank ≡ 8) ⊎ ((rank ≡ 16) ⊎ ((rank ≡ 32) ⊎ (rank ≡ 64)))
unfolding rank_supported
supported_ranks rank h = ground arith

-- With a rank that a kernel supports, a prefetch copies whole matrices.
copied_rank :
    (rank n : ℕ)
    → rank_supported rank ≡ true
    → (half_bytes rank n / 16 * 16 ≡ half_bytes rank n)
      × (half_bytes n rank / 16 * 16 ≡ half_bytes n rank)
copied_rank rank n h = elim (supported_ranks rank h) [
  | inl e ↦ rw e (omega arith)
  | inr (inl e) ↦ rw e (omega arith)
  | inr (inr (inl e)) ↦ rw e (omega arith)
  | inr (inr (inr e)) ↦ rw e (omega arith)
]

-- The buffers of slot `i` hold the whole matrices of the entry.
abbrev pub HoldsWeights : (cuda : Cuda) {Float : Type 0} → Entry Float → ℕ → cuda.Device → Type 0
HoldsWeights cuda e i d =
    (cuda.held d (a_buf i) ≡ some (e.a_ptr, half_bytes e.rank e.d_model))
    × (cuda.held d (b_buf i) ≡ some (e.b_ptr, half_bytes e.out_features e.rank))

ready_slot :
    (cuda : Cuda) (slots : List Slot) (d : cuda.Device) (i : ℕ) (s : Slot)
    → get_elem? slots i ≡ some s
    → is_ready cuda slots d i ≡ true
    → (s.copy_issued ≡ true) × (awaits i (cuda.pending d) ≡ false)
unfolding is_ready
ready_slot cuda slots d i s at h = elim (Bool-cases s.copy_issued) [
  | inl issued ↦ (issued, ground (arith, h, at, issued, cuda.event_query_lem d i))
  | inr fresh ↦ absurd (ground (arith, h, at, fresh))
]

staged-some :
    (cuda : Cuda) (slots : List Slot) (d : cuda.Device) (id i : ℕ)
    → staged cuda slots d id ≡ some i
    → (s : Slot) × (get_elem? slots i ≡ some s)
      × (s.adapter_id ≡ id)
      × (s.copy_issued ≡ true)
      × (awaits i (cuda.pending d) ≡ false)
unfolding staged
staged-some cuda slots d id i h = elim (Option-cases (find_slot_for_adapter slots id)) [
  | inl e ↦ absurd (ground (arith, h, e))
  | inr (k, e) ↦ elim (Bool-cases (is_ready cuda slots d k)) [
    | inl ready ↦
        let there : k ≡ i = ground (arith, h, e, ready) in
        let (s, at, same) = find_slot-some slots id k e in
        let (issued, done) = ready_slot cuda slots d k s at ready in
        (s, rw (← there) at, same, issued, rw (← there) done)
    | inr other ↦ absurd (ground (arith, h, e, other))
  ]
]

module _ (cuda : Cuda) {Float : Type 0} where
  open cuda use {Device, pending, held, address}

  pub staged-HoldsWeights :
      (x : WarpPipeExtension cuda Float) (id i : ℕ) (e : Entry Float)
      → IsStaged cuda x
      → lookup x.store id ≡ some e
      → rank_supported e.rank ≡ true
      → staged cuda x.slots x.device id ≡ some i
      → HoldsWeights cuda e i x.device
  staged-HoldsWeights x id i e v known rank at =
      let (s, found, same, issued, done) = staged-some cuda x.slots x.device id i at in
      let copies = v.copies i s e found issued (rw same known) in
      let (fits_a, fits_b) = v.fits id e known in
      let whole_a = copied-whole _ fits_a ∙ (copied_rank e.rank e.d_model rank).0 in
      let whole_b = copied-whole _ fits_b ∙ (copied_rank e.rank e.out_features rank).1 in
      (
        sym (settle-IsFenced i (pending x.device) (held x.device) (a_buf i) (v.fenced i) done refl)
            ∙ copies.0
            ∙ ap (λ (n : ℕ). some (e.a_ptr, n)) whole_a,
        sym (settle-IsFenced i (pending x.device) (held x.device) (b_buf i) (v.fenced i) done refl)
            ∙ copies.1
            ∙ ap (λ (n : ℕ). some (e.b_ptr, n)) whole_b,
      )

  -- A row whose `use_staging` is set points to its adapter's slot.
  pub use_staging-staged :
      (slots : List Slot) (d : Device) (id start end : ℕ) (e : Entry Float)
      → let row = segment_row cuda slots d id start end e in
        row.use_staging ≡ 1
        → (i : ℕ) × (staged cuda slots d id ≡ some i)
          × (row.staging_a_ptr ≡ address (a_buf i))
          × (row.staging_b_ptr ≡ address (b_buf i))
  unfolding segment_row
  use_staging-staged slots d id start end e h = elim (Option-cases (staged cuda slots d id)) [
    | inl none_staged ↦ absurd (ground (arith, h, none_staged))
    | inr (i, at) ↦ (i, at, rw (at, segment_row), rw (at, segment_row))
  ]

  -- In a state that calls and device steps reach, with adapters registered only while no slot is
  -- theirs and only with matrices that fit a slot's buffers, where a slot holds the weights of an
  -- adapter that is registered, of a rank that a kernel supports: when the adapter is evicted and others weights are registered under its id, the next
  -- row for the id points to the new matrices, and still has the kernel read the slot, whose buffer
  -- holds the old matrix.
  pub register_adapter_stale :
      (z : Float) (x x' : WarpPipeExtension cuda Float) (id i start end : ℕ) (e : Entry Float)
      (a b : Tensor) (rank : ℕ) (alpha_scale : Float)
      → Reach cuda Fits (new_extension cuda Float z) x
      → staged cuda x.slots x.device id ≡ some i
      → lookup x.store id ≡ some e
      → rank_supported e.rank ≡ true
      → register_adapter cuda Float (evict_adapter cuda Float x id) id a b rank alpha_scale
        ≡ some x'
      → e.a_ptr ≢ a.data_ptr
      → let new = entry_of cuda Float a b rank alpha_scale in
        let row = segment_row cuda x'.slots x'.device id start end new in
        (lookup x'.store id ≡ some new)
        × (row.a_ptr ≡ a.data_ptr)
        × (row.use_staging ≡ 1)
        × (row.staging_a_ptr ≡ address (a_buf i))
        × (held x'.device (a_buf i) ≡ some (e.a_ptr, half_bytes e.rank e.d_model))
        × (held x'.device (a_buf i) ≢ some (row.a_ptr, half_bytes row.rank row.d_model))
  unfolding segment_row evict_adapter
  register_adapter_stale z x x' id i start end e a b rank alpha_scale reach at known supported done
        ne =
      let new = entry_of cuda Float a b rank alpha_scale in
      let there =
        register_adapter-some_state cuda (evict_adapter cuda Float x id) id a b rank alpha_scale x'
          done in
      let weights =
        (staged-HoldsWeights x id i e (Reach-IsStaged cuda z reach) known supported at).0 in
      rw there (
        lookup-assign_entry_self (evict x.store id) id new,
        refl,
        rw (at, segment_row),
        rw (at, segment_row),
        weights,
        λ same. ne (let both = sym weights ∙ same in cc),
      )
