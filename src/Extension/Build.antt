-- ===== src/Extension/Build.antt =====
-- `WarpPipeExtension.build_segments` (csrc/pybind/warp_pipe_bindings.cpp): the table that a call
-- leaves, returned or thrown.
use adapter_slots_plus_plus.Common.{
  get_elem?-some, ℕ, ◌+◌, ◌<◌, ◌≤◌, ◌≡◌, ◌≢◌, ◌∙◌, sym, refl, inl, inr, ◌⊎◌, List, none, some, Bool,
  true, false, arith, ◌==◌, ltb, if◌then◌else◌, ==_iff, eq_refl, le→ltb_false, ltb_false→le,
  Bool-cases, get_elem?, length,
}
use adapter_slots_plus_plus.Punica.Kernel.{max_segments}
use adapter_slots_plus_plus.Extension.Store.{Entry, lookup}
use adapter_slots_plus_plus.Extension.Cuda.{Cuda, a_buf, b_buf}
use adapter_slots_plus_plus.Extension.Table.{Row, segment_row, finish_table, build_segment_table}
use adapter_slots_plus_plus.Extension.Extension.{
  WarpPipeExtension, build_segments, built_table, rank_supported, half_bytes, new_extension,
}
use adapter_slots_plus_plus.Extension.Rows.{
  IsRow, written, write_rows-IsRow, write_rows-true, write_rows-false, length-write_rows,
}
use adapter_slots_plus_plus.Extension.Prefetched.{Reach, Fits}
use adapter_slots_plus_plus.Extension.Kept.{Reach-IsStaged}
use adapter_slots_plus_plus.Extension.Ready.{staged-HoldsWeights, use_staging-staged}

zero_add : (k : ℕ) → 0 + k ≡ k
zero_add k = omega arith

module _ (cuda : Cuda) {Float : Type 0} (x : WarpPipeExtension cuda Float)
    (ids offsets : List ℕ) where
  -- The rows and the flag of the loop, on the state's table.
  abbrev loop : List (Row Float) × Bool
  loop = written cuda x.store x.slots x.device ids offsets 0 x.meta.segments

  pub finished_lem :
      (r : List (Row Float) × Bool)
      → let after = built_table cuda Float x (finish_table cuda (length ids) x.meta r) in
        (after.1 ≡ r.1)
        × (after.0.meta.segments ≡ r.0)
        × (after.0.meta.num_segments ≡ (if r.1 then length ids else x.meta.num_segments))
        × (after.0.store ≡ x.store)
        × (after.0.slots ≡ x.slots)
        × (after.0.device ≡ x.device)
  unfolding built_table finish_table
  finished_lem (rows, true) = (refl, refl, refl, refl, refl, refl)
  finished_lem (rows, false) = (refl, refl, refl, refl, refl, refl)

  -- A call past the two checks.
  build_segments_checked :
      length offsets ≡ length ids + 1
      → length ids ≤ max_segments
      → build_segments cuda Float x ids offsets
        ≡ built_table cuda Float x (finish_table cuda (length ids) x.meta loop)
  unfolding build_segments build_segment_table
  build_segments_checked len fits =
      rw (len, eq_refl (length ids + 1), le→ltb_false max_segments (length ids) fits)

  -- A call that returns has passed them, and its loop has ended.
  build_segments_returned :
      (build_segments cuda Float x ids offsets).1 ≡ true
      → (length offsets ≡ length ids + 1) × (length ids ≤ max_segments) × (loop.1 ≡ true)
  unfolding build_segments build_segment_table
  build_segments_returned h = elim (Bool-cases (length offsets == length ids + 1)) [
    | inl len ↦ elim (Bool-cases (ltb max_segments (length ids))) [
      | inl many ↦ absurd (ground (arith, rw (build_segments, len, many) at h))
      | inr fits ↦
          let len_eq = (==_iff (length offsets) (length ids + 1)).0 len in
          let small = ltb_false→le max_segments (length ids) fits in
          (len_eq, small, sym (finished_lem loop).0 ∙ rw (build_segments_checked len_eq small) at h)
    ]
    | inr wrong ↦ absurd (ground (arith, rw (build_segments, wrong) at h))
  ]

  -- The ids are all registered.
  abbrev pub AllKnown : Type 0
  AllKnown =
      (k id : ℕ) → get_elem? ids k ≡ some id → (e : Entry Float) × (lookup x.store id ≡ some e)

  -- With one offset more than ids, at most 256 ids, all of them registered, and a table of 256
  -- rows, `build_segments` returns and counts the ids; row `k` is that of the k-th id, from its
  -- offset to the next one, with the entry that is registered for it. Nothing but the table changes.
  pub build_segments_lem :
      length offsets ≡ length ids + 1
      → length ids ≤ max_segments
      → AllKnown
      → length x.meta.segments ≡ max_segments
      → let after = build_segments cuda Float x ids offsets in
        (after.1 ≡ true)
        × (after.0.meta.num_segments ≡ length ids)
        × ((k : ℕ)
            → k < length ids
            → (row : Row Float) × (get_elem? after.0.meta.segments k ≡ some row)
              × IsRow cuda x.store x.slots x.device ids offsets k row)
        × (after.0.store ≡ x.store)
        × (after.0.slots ≡ x.slots)
        × (after.0.device ≡ x.device)
  build_segments_lem len fits known room =
      let done =
        write_rows-true cuda x.store x.slots x.device ids offsets 0 x.meta.segments known in
      let (flag, rows, count, same_store, same_slots, same_device) = finished_lem loop in
      rw (build_segments_checked len fits) (
        flag ∙ done,
        count ∙ rw done,
        λ k lt.
            let (row, at) = get_elem?-some loop.0 k (
              rw
                (
                  length-write_rows cuda x.store x.slots x.device ids offsets 0 x.meta.segments,
                  room,
                )
                (omega arith)) in
            (
              row,
              rw rows at,
              write_rows-IsRow cuda x.store x.slots x.device ids offsets 0 k x.meta.segments row
                  done len lt (rw (zero_add k) at),
            ),
        same_store,
        same_slots,
        same_device,
      )

  -- With a wrong number of offsets, with more than 256 ids, or with an id that is not registered,
  -- `build_segments` raises: the count of segments, the store, the slots and the device stay.
  pub build_segments_raised :
      (length offsets ≢ length ids + 1)
        ⊎ ((max_segments < length ids)
            ⊎ ((k : ℕ) × (id : ℕ) × (get_elem? ids k ≡ some id) × (lookup x.store id ≡ none)))
      → let after = build_segments cuda Float x ids offsets in
        (after.1 ≡ false)
        × (after.0.meta.num_segments ≡ x.meta.num_segments)
        × (after.0.store ≡ x.store)
        × (after.0.slots ≡ x.slots)
        × (after.0.device ≡ x.device)
  unfolding build_segments build_segment_table built_table
  build_segments_raised cause = elim (Bool-cases (length offsets == length ids + 1)) [
    | inr wrong ↦ rw (build_segments, wrong) (refl, refl, refl, refl, refl)
    | inl len ↦ elim (Bool-cases (ltb max_segments (length ids))) [
      | inl many ↦ rw (build_segments, len, many) (refl, refl, refl, refl, refl)
      | inr fits ↦
          let len_eq = (==_iff (length offsets) (length ids + 1)).0 len in
          let small = ltb_false→le max_segments (length ids) fits in
          let (k, id, at, unknown) = third len_eq small cause in
          let stopped =
            write_rows-false cuda x.store x.slots x.device ids offsets 0 k id x.meta.segments len_eq
              at unknown in
          let (flag, rows, count, same_store, same_slots, same_device) = finished_lem loop in
          rw (build_segments_checked len_eq small)
            (flag ∙ stopped, count ∙ rw stopped, same_store, same_slots, same_device)
    ]
  ]
    where
      third :
          length offsets ≡ length ids + 1
          → length ids ≤ max_segments
          → (length offsets ≢ length ids + 1)
            ⊎ ((max_segments < length ids)
                ⊎ ((k : ℕ) × (id : ℕ) × (get_elem? ids k ≡ some id) × (lookup x.store id ≡ none)))
          → (k : ℕ) × (id : ℕ) × (get_elem? ids k ≡ some id) × (lookup x.store id ≡ none)
      third len small (inl wrong) = absurd (wrong len)
      third len small (inr (inl many)) = absurd (omega arith)
      third len small (inr (inr found)) = found

  -- In a state that calls and device steps reach, with adapters registered only while no slot is
  -- theirs and only with matrices that fit a slot's buffers: a row that `build_segments` writes with `use_staging` set, of a rank that a kernel
  -- supports, points to the two buffers of a slot, and these hold at once, and whole, the matrices
  -- at the row's `A_ptr` and `B_ptr`.
  pub use_staging_lem :
      (z : Float) (k : ℕ) (row : Row Float)
      → Reach cuda Fits (new_extension cuda Float z) x
      → let after = build_segments cuda Float x ids offsets in
        after.1 ≡ true
        → k < length ids
        → get_elem? after.0.meta.segments k ≡ some row
        → rank_supported row.rank ≡ true
        → row.use_staging ≡ 1
        → (i : ℕ) × (row.staging_a_ptr ≡ cuda.address (a_buf i))
          × (row.staging_b_ptr ≡ cuda.address (b_buf i))
          × (cuda.held x.device (a_buf i) ≡ some (row.a_ptr, half_bytes row.rank row.d_model))
          × (cuda.held x.device (b_buf i) ≡ some (row.b_ptr, half_bytes row.out_features row.rank))
  unfolding segment_row
  use_staging_lem z k row reach done lt at rank staging =
      let (len, small, ended) = build_segments_returned done in
      let rows = (finished_lem loop).1 in
      let in_loop : get_elem? loop.0 k ≡ some row =
        rw (← rows) (rw (build_segments_checked len small) at at) in
      let (id, start, end, e, at_id, at_start, at_end, known, is_row) =
        write_rows-IsRow cuda x.store x.slots x.device ids offsets 0 k x.meta.segments row ended len
          lt (rw (zero_add k) in_loop) in
      let (i, there, ptr_a, ptr_b) =
        use_staging-staged cuda x.slots x.device id start end e (rw is_row at staging) in
      let weights =
        staged-HoldsWeights cuda x id i e (Reach-IsStaged cuda z reach) known (rw is_row at rank)
          there in
      rw is_row (i, ptr_a, ptr_b, weights.0, weights.1)
