-- ===== src/Bridge/Segments.antt =====
-- `segments_to_warp_pipe` of lora_warp_pipe/scheduler_bridge.py: the dispatcher's segments as the
-- arrays that `engine.build_segments()` takes.
use Prim.Native.String.{String}
use adapter_slots_plus_plus.Common.{
  ℕ, ◌+◌, ◌≡◌, refl, List, [], ◌∷◌, ◌++◌, append-nil, append_snoc, Option, some, get_elem?, ◌>>=◌,
}
use adapter_slots_plus_plus.Bridge.IdMap.{
  AdapterIdMap, IsBijection, get_or_assign, to_int, ordered_ids, get_or_assign_lem,
  to_int-ordered_ids,
}

pub record SegmentDescriptor : Type 0 where
  pub adapter_id : String
  pub segment_size : ℕ

-- The loop, over the variables of the function and the map that all calls share.
unfoldable pub convert :
    List SegmentDescriptor
    → List ℕ
    → List ℕ
    → ℕ
    → AdapterIdMap
    → Option ((List ℕ × List ℕ) × AdapterIdMap)
convert [] ids offsets cum m = some ((ids, offsets), m)
convert (seg ∷ segments) ids offsets cum m = do
  (i, m') ← get_or_assign m seg.adapter_id
  let cum' = cum + seg.segment_size
  convert segments (ids ++ i ∷ []) (offsets ++ cum' ∷ []) cum' m'

unfoldable pub segments_to_warp_pipe :
    List SegmentDescriptor → AdapterIdMap → Option ((List ℕ × List ℕ) × AdapterIdMap)
segments_to_warp_pipe segments m = convert segments [] (0 ∷ []) 0 m

-- The arrays describe the segments, the first of which starts at `cum`: the k-th id is that of the
-- k-th segment's adapter, and the k-th segment ends, where the next one starts, `segment_size` rows
-- on.
abbrev pub Describes : List SegmentDescriptor → ℕ → List ℕ → List ℕ → AdapterIdMap → Type 0
Describes [] cum [] [] m = Unit
Describes (seg ∷ segments) cum (i ∷ ids) (end ∷ ends) m =
    (get_elem? (ordered_ids m) i ≡ some seg.adapter_id)
    × (end ≡ cum + seg.segment_size)
    × Describes segments end ids ends m
Describes _ _ _ _ _ = ⊥

-- No id that was handed out is ever another adapter's.
abbrev pub Keeps : AdapterIdMap → AdapterIdMap → Type 0
Keeps m m' = (s : String) (j : ℕ) → to_int m s ≡ some j → to_int m' s ≡ some j

convert_lem :
    (segments : List SegmentDescriptor) (ids offsets : List ℕ) (cum : ℕ) (m : AdapterIdMap)
    → IsBijection m
    → (new : List ℕ) × (ends : List ℕ) × (m' : AdapterIdMap) × (convert segments ids offsets cum m
        ≡ some ((ids ++ new, offsets ++ ends), m'))
      × IsBijection m'
      × Keeps m m'
      × Describes segments cum new ends m'
unfolding convert
convert_lem [] ids offsets cum m b =
    ([], [], m, rw (append-nil ids, append-nil offsets), b, λ s j h. h, tt)
convert_lem (seg ∷ segments) ids offsets cum m b =
    let (i, m₁, got, b₁, at, keeps, again) = get_or_assign_lem m seg.adapter_id b in
    let (new, ends, m', ran, b', keeps', rest) =
      convert_lem segments (ids ++ i ∷ []) (offsets ++ (cum + seg.segment_size) ∷ [])
        (cum + seg.segment_size) m₁ b₁ in
    (
      i ∷ new,
      (cum + seg.segment_size) ∷ ends,
      m',
      rw (got, ran, append_snoc ids i new, append_snoc offsets (cum + seg.segment_size) ends),
      b',
      λ s j h. keeps' s j (keeps s j h),
      (
        (to_int-ordered_ids m' b' seg.adapter_id i).0
            (keeps' seg.adapter_id i ((to_int-ordered_ids m₁ b₁ seg.adapter_id i).1 at)),
        refl,
        rest,
      ),
    )

-- On a map that is a bijection, `segments_to_warp_pipe` never raises, leaves the map a bijection in
-- which every id that was handed out stays the adapter's, and returns one id for each segment and,
-- after the leading 0, one offset: they describe the segments as contiguous runs from row 0 on.
pub segments_to_warp_pipe_lem :
    (segments : List SegmentDescriptor) (m : AdapterIdMap)
    → IsBijection m
    → (ids : List ℕ) × (ends : List ℕ) × (m' : AdapterIdMap) × (segments_to_warp_pipe segments m
        ≡ some ((ids, 0 ∷ ends), m'))
      × IsBijection m'
      × Keeps m m'
      × Describes segments 0 ids ends m'
unfolding segments_to_warp_pipe
segments_to_warp_pipe_lem segments m b = convert_lem segments [] (0 ∷ []) 0 m b
