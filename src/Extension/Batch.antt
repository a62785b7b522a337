-- ===== src/Extension/Batch.antt =====
-- A batch on its way to the kernels: `segments_to_warp_pipe` of lora_warp_pipe/scheduler_bridge.py,
-- then `build_segments` of csrc/pybind/warp_pipe_bindings.cpp.
use adapter_slots_plus_plus.Common.{
  ℕ, suc, ◌+◌, ◌<◌, ◌≤◌, ◌≡◌, ◌∙◌, sym, ap, refl, List, [], ◌∷◌, Option, some, true, arith,
  get_elem?, length,
}
use adapter_slots_plus_plus.Punica.Kernel.{max_segments}
use adapter_slots_plus_plus.Bridge.IdMap.{AdapterIdMap, IsBijection, ordered_ids}
use adapter_slots_plus_plus.Bridge.Segments.{
  SegmentDescriptor, Describes, segments_to_warp_pipe, segments_to_warp_pipe_lem,
}
use adapter_slots_plus_plus.Extension.Store.{Entry, lookup}
use adapter_slots_plus_plus.Extension.Cuda.{Cuda}
use adapter_slots_plus_plus.Extension.Table.{Row, segment_row}
use adapter_slots_plus_plus.Extension.Extension.{WarpPipeExtension, build_segments}
use adapter_slots_plus_plus.Extension.Rows.{IsRow}
use adapter_slots_plus_plus.Extension.Build.{build_segments_lem}

abbrev pub total_size : List SegmentDescriptor → ℕ
total_size [] = 0
total_size (seg ∷ segments) = seg.segment_size + total_size segments

-- The first rows are those of the segments, one behind the other from row `cum` of the batch on:
-- each names its segment's adapter, and has the adapter's registered matrices.
abbrev pub IsLaidOut :
    (cuda : Cuda) {Float : Type 0}
    → WarpPipeExtension cuda Float
    → AdapterIdMap
    → List SegmentDescriptor
    → ℕ
    → List (Row Float)
    → Type 0
IsLaidOut cuda x m [] cum rows = Unit
IsLaidOut cuda x m (seg ∷ segments) cum [] = ⊥
IsLaidOut cuda {Float} x m (seg ∷ segments) cum (row ∷ rows) =
    (get_elem? (ordered_ids m) row.adapter_id ≡ some seg.adapter_id)
    × (row.token_start ≡ cum)
    × (row.token_count ≡ seg.segment_size)
    × ((e : Entry Float) × (lookup x.store row.adapter_id ≡ some e)
        × (row.a_ptr ≡ e.a_ptr)
        × (row.b_ptr ≡ e.b_ptr))
    × IsLaidOut cuda x m segments (cum + seg.segment_size) rows

length-Describes :
    (segments : List SegmentDescriptor) (cum : ℕ) (ids ends : List ℕ) (m : AdapterIdMap)
    → Describes segments cum ids ends m
    → (length ids ≡ length segments) × (length ends ≡ length segments)
length-Describes [] cum [] [] m h = (refl, refl)
length-Describes [] cum (i ∷ ids) ends m h = elim h [ ]
length-Describes [] cum [] (end ∷ ends) m h = elim h [ ]
length-Describes (seg ∷ segments) cum [] ends m h = elim h [ ]
length-Describes (seg ∷ segments) cum (i ∷ ids) [] m h = elim h [ ]
length-Describes (seg ∷ segments) cum (i ∷ ids) (end ∷ ends) m h =
    let (a, b) = length-Describes segments end ids ends m h.2 in (ap suc a, ap suc b)

module _ (cuda : Cuda) {Float : Type 0} (x : WarpPipeExtension cuda Float) where
  AreRows : List ℕ → List ℕ → List (Row Float) → Type 0
  AreRows ids offsets rows =
      (k : ℕ)
      → k < length ids
      → (row : Row Float) × (get_elem? rows k ≡ some row)
        × IsRow cuda x.store x.slots x.device ids offsets k row

  AreRows-IsLaidOut :
      (segments : List SegmentDescriptor) (cum : ℕ) (ids ends : List ℕ) (m : AdapterIdMap)
      (rows : List (Row Float))
      → Describes segments cum ids ends m
      → cum + total_size segments < 0x80000000
      → AreRows ids (cum ∷ ends) rows
      → IsLaidOut cuda x m segments cum rows
  unfolding AreRows segment_row
  AreRows-IsLaidOut [] cum ids ends m rows h fits are = tt
  AreRows-IsLaidOut (seg ∷ segments) cum [] ends m rows h fits are = elim h [ ]
  AreRows-IsLaidOut (seg ∷ segments) cum (i ∷ ids) [] m rows h fits are = elim h [ ]
  AreRows-IsLaidOut (seg ∷ segments) cum (i ∷ ids) (end ∷ ends) m [] h fits are =
      absurd (let first = are 0 (omega arith) in let at = first.1 in cc)
  AreRows-IsLaidOut (seg ∷ segments) cum (i ∷ ids) (end ∷ ends) m (row ∷ rows) h fits are =
      let (row', at, is_row) = are 0 (omega arith) in
      let (id, start, stop, e, at_id, at_start, at_stop, known, there) = is_row in
      let same_row : row ≡ segment_row cuda x.slots x.device id start stop e = cc in
      let same_id : id ≡ i = cc in
      let same_start : start ≡ cum = cc in
      let same_stop : stop ≡ end = cc in
      let rest =
        AreRows-IsLaidOut segments end ids ends m rows h.2 (rw h.1 (omega (arith, fits)))
          (λ k lt. are (suc k) (omega arith)) in
      rw same_row (
        rw same_id h.0,
        same_start,
        rw (same_start, same_stop, h.1) (omega (arith, fits)),
        (e, known, refl, refl),
        rw (← h.1) rest,
      )

  build_segments-IsLaidOut :
      (segments : List SegmentDescriptor) (m : AdapterIdMap) (ids ends : List ℕ)
      → Describes segments 0 ids ends m
      → length segments ≤ max_segments
      → total_size segments < 0x80000000
      → ((k id : ℕ) → get_elem? ids k ≡ some id → (e : Entry Float) × (lookup x.store id ≡ some e))
      → length x.meta.segments ≡ max_segments
      → let after = build_segments cuda Float x ids (0 ∷ ends) in
        (after.1 ≡ true)
        × (after.0.meta.num_segments ≡ length segments)
        × IsLaidOut cuda x m segments 0 after.0.meta.segments
  unfolding AreRows
  build_segments-IsLaidOut segments m ids ends described few small known room =
      let (n_ids, n_ends) = length-Describes segments 0 ids ends m described in
      let built =
        build_segments_lem cuda x ids (0 ∷ ends) (omega (arith, n_ids, n_ends))
          (omega (arith, n_ids)) known room in
      (
        built.0,
        built.1 ∙ n_ids,
        AreRows-IsLaidOut segments 0 ids ends m _ described (omega (arith, small)) built.2,
      )

-- On a map that is a bijection, with at most 256 segments of fewer than 2^31 rows together, a table
-- of 256 rows, and an adapter registered under every id of the new map: the arrays that
-- `segments_to_warp_pipe` returns are accepted by `build_segments`, whose table has one row for each
-- segment, laid out in the batch one behind the other from row 0 on.
pub segments_to_warp_pipe-build_segments :
    (cuda : Cuda) {Float : Type 0} (x : WarpPipeExtension cuda Float)
    (segments : List SegmentDescriptor) (m m' : AdapterIdMap) (ids offsets : List ℕ)
    → IsBijection m
    → segments_to_warp_pipe segments m ≡ some ((ids, offsets), m')
    → length segments ≤ max_segments
    → total_size segments < 0x80000000
    → ((k id : ℕ) → get_elem? ids k ≡ some id → (e : Entry Float) × (lookup x.store id ≡ some e))
    → length x.meta.segments ≡ max_segments
    → let after = build_segments cuda Float x ids offsets in
      (after.1 ≡ true)
      × (after.0.meta.num_segments ≡ length segments)
      × IsLaidOut cuda x m' segments 0 after.0.meta.segments
segments_to_warp_pipe-build_segments cuda x segments m m' ids offsets b ran few small known room =
    let (ids', ends, m₁, ran', b', keeps, described) = segments_to_warp_pipe_lem segments m b in
    let same : ◌≡◌ {A = Option ((List ℕ × List ℕ) × AdapterIdMap)} (some ((ids, offsets), m'))
        (some ((ids', 0 ∷ ends), m₁)) =
      sym ran ∙ ran' in
    let same_ids : ids ≡ ids' = cc in
    let same_offsets : offsets ≡ 0 ∷ ends = cc in
    let same_map : m' ≡ m₁ = cc in
    rw (same_ids, same_offsets, same_map)
      (build_segments-IsLaidOut cuda x segments m₁ ids' ends described few small
        (λ k id at. known k id (rw same_ids at)) room)
