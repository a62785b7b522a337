-- ===== src/Tests/Scheduling.antt =====
-- Examples for lora_warp_pipe/scheduler_bridge.py, with numbers in hundredths for the floats.
use Prim.Native.String.{String, ◌++◌ as string_append}
use adapter_slots_plus_plus.Common.{
  map, ℕ, zero, suc, ◌+◌, ◌-◌, ◌*◌, ◌/◌, ◌<◌, ◌≡◌, refl, List, [], ◌∷◌, some, true, arith,
  get_elem?, ltb, replicate,
}
use adapter_slots_plus_plus.Dict.{Dict, get, put, contains}
use adapter_slots_plus_plus.Dict
use adapter_slots_plus_plus.Bridge.IdMap.{
  AdapterIdMap, IsBijection, new_map, assign, get_or_assign, to_int, ordered_ids, len,
  new_map-IsBijection, assign-IsBijection, get_or_assign_lem, ordered_ids_distinct,
}
use adapter_slots_plus_plus.Bridge.Segments.{
  SegmentDescriptor, segments_to_warp_pipe, segments_to_warp_pipe_lem, Describes, Keeps,
}
use adapter_slots_plus_plus.Bridge.Gwar.{Floats, fill, fill_lem, Distinct, smooth}
use adapter_slots_plus_plus.Bridge.FirstSeen.{
  get_or_assign_all, first_seen, position, get_or_assign-first_seen,
}
use adapter_slots_plus_plus.Bridge.Ticks.{write_all, AreNumbered, write_all-AreNumbered}
use adapter_slots_plus_plus.Bridge.Write.{
  SchedulerBridge, Tick, Metadata, raised, write, tile_size_code, max_adapters,
}
use adapter_slots_plus_plus.Extension.BridgeMemory.{
  KernelBridge, new_bridge_memory, write_memory, read_bridge_debug, in_memory,
}
use adapter_slots_plus_plus.Extension.ReadBack.{write-read_bridge_debug}
use adapter_slots_plus_plus.Bridge.Rows.{Writes, IsSized, write_lem, write-to_int, write_raised}

abbrev pub hundredths : Floats
hundredths = record {
  Float = ℕ;
  add = λ a b. a + b;
  sub = λ a b. a - b;
  mul = λ a b. (a * b) / 100;
  lt = ltb;
  ratio = λ a b. (a * 100) / b;
  to_float32 = λ a. a;
}

-- Two adapters are known.
abbrev two_adapters : AdapterIdMap
two_adapters = assign (assign new_map "code") "math"

two_adapters-IsBijection : IsBijection two_adapters
two_adapters-IsBijection =
    assign-IsBijection (assign new_map "code") "math"
      (assign-IsBijection new_map "code" new_map-IsBijection)

get_or_assign_lem_example :
    (i : ℕ) × (m' : AdapterIdMap) × (get_or_assign two_adapters "math" ≡ some (i, m'))
    × IsBijection m'
    × (get_elem? (ordered_ids m') i ≡ some "math")
    × ((s : String) (j : ℕ) → to_int two_adapters s ≡ some j → to_int m' s ≡ some j)
    × (get_or_assign m' "math" ≡ some (i, m'))
get_or_assign_lem_example = get_or_assign_lem two_adapters "math" two_adapters-IsBijection

abbrev batch : List SegmentDescriptor
batch =
    record { adapter_id = "math"; segment_size = 3 }
    ∷ record { adapter_id = "sql"; segment_size = 2 }
    ∷ record { adapter_id = "math"; segment_size = 1 }
    ∷ []

segments_to_warp_pipe_lem_example :
    (ids : List ℕ) × (ends : List ℕ) × (m' : AdapterIdMap) × (segments_to_warp_pipe batch
        two_adapters
      ≡ some ((ids, 0 ∷ ends), m'))
    × IsBijection m'
    × Keeps two_adapters m'
    × Describes batch 0 ids ends m'
segments_to_warp_pipe_lem_example =
    segments_to_warp_pipe_lem batch two_adapters two_adapters-IsBijection

abbrev readings : Dict ℕ
readings = ("math", 90) ∷ []

abbrev tick : Tick hundredths
tick = record {
  num_segments = 3;
  whittle_dispatcher = some (λ fracs est. fracs);
  fill_fracs = some (("math", 40) ∷ []);
  lambda_est = some [];
  estimator = some (λ s. 7);
  gwar_readings = some readings;
  mwc = some (λ s. true);
  global_load = 50;
}

-- A bridge in its fifth step.
abbrev bridge : AdapterIdMap → SchedulerBridge hundredths
bridge m = record {
  id_map = m;
  gwar_history = record { alpha = 30; ewma = ("math", 80) ∷ [] };
  step_id = 5;
}

write_lem_example :
    (w : Metadata hundredths) × Writes hundredths (bridge two_adapters) tick w
    × IsSized hundredths (len two_adapters) w
    × (w.step_id ≡ 5)
    × (w.num_segments ≡ 3)
unfolding assign contains get put len
write_lem_example = write_lem hundredths (bridge two_adapters) tick (omega arith) (omega arith)

write-to_int_example :
    (w : Metadata hundredths) × Writes hundredths (bridge two_adapters) tick w
    × (get_elem? w.whittle_scores 1 ≡ some 40)
    × (get_elem? w.lambda_hat 1 ≡ some 7)
    × (get_elem? w.promo_eligible 1 ≡ some 1)
    × (get_elem? w.gwar_pred_next3 1 ≡ some 83)
    × (get_elem? w.tile_size_code 1 ≡ some 1)
unfolding assign contains get put len to_int smooth tile_size_code
write-to_int_example =
    write-to_int hundredths (bridge two_adapters) tick "math" 1 two_adapters-IsBijection refl
      (omega arith)

code_math-Distinct : Distinct hundredths ("code" ∷ "math" ∷ [])
unfolding ordered_ids assign contains get put
code_math-Distinct = ordered_ids_distinct two_adapters two_adapters-IsBijection

fill_lem_example :
    let out = fill hundredths readings ("code" ∷ "math" ∷ []) (bridge new_map).gwar_history in
    (Dict.get out.1.ewma "math" ≡ some 83) × (get_elem? out.0 1 ≡ some 83)
unfolding smooth get
fill_lem_example =
    fill_lem hundredths readings ("code" ∷ "math" ∷ []) (bridge new_map).gwar_history "math" 1
      code_math-Distinct refl

-- "math", "amath", "aamath", …
abbrev name : ℕ → String
name zero = "math"
name (suc n) = string_append "a" (name n)

-- One adapter more than the engine takes.
abbrev crowded : ℕ → AdapterIdMap
crowded zero = new_map
crowded (suc n) = assign (crowded n) (name n)

crowded-IsBijection : (n : ℕ) → IsBijection (crowded n)
crowded-IsBijection zero = new_map-IsBijection
crowded-IsBijection (suc n) = assign-IsBijection (crowded n) (name n) (crowded-IsBijection n)

math_first : to_int (crowded 65) "math" ≡ some 0
unfolding assign contains get put to_int
math_first = refl

too_many : max_adapters < len (crowded 65)
unfolding assign contains get put len
too_many = omega arith

write_raised_example :
    let after = (write hundredths (bridge (crowded 65)) tick).0 in
    ((write hundredths (bridge (crowded 65)) tick).1 ≡ raised)
    × (after.step_id ≡ 5)
    × (Dict.get after.gwar_history.ewma "math" ≡ some 83)
unfolding smooth get
write_raised_example =
    write_raised hundredths (bridge (crowded 65)) tick readings "math" 0 (crowded-IsBijection 65)
      refl math_first too_many

-- A memory that another call has left.
abbrev used_memory : KernelBridge hundredths
used_memory = record (new_bridge_memory hundredths) {
  whittle_scores = replicate 64 11;
  num_active_adapters = 3;
}

write-read_bridge_debug_example :
    (w : Metadata hundredths) × (k : KernelBridge hundredths) × Writes hundredths
      (bridge two_adapters)
      tick
      w
    × (write_memory hundredths used_memory w ≡ some k)
    × (read_bridge_debug hundredths k ≡ in_memory hundredths w)
    × ((read_bridge_debug hundredths k).step_id ≡ 5)
unfolding assign contains get put len
write-read_bridge_debug_example =
    write-read_bridge_debug hundredths used_memory (bridge two_adapters) tick (omega arith)
      (omega arith)

-- Three requests by two adapters.
get_or_assign-first_seen_example :
    (ids : List ℕ) × (m : AdapterIdMap) × (get_or_assign_all new_map ("sql" ∷ "math" ∷ "sql" ∷ [])
      ≡ some (ids, m))
    × (ordered_ids m ≡ first_seen [] ("sql" ∷ "math" ∷ "sql" ∷ []))
    × (map some ids
        ≡ map
            (λ a. position a (first_seen [] ("sql" ∷ "math" ∷ "sql" ∷ [])))
            ("sql" ∷ "math" ∷ "sql" ∷ []))
get_or_assign-first_seen_example = get_or_assign-first_seen ("sql" ∷ "math" ∷ "sql" ∷ [])

two_first_seen : first_seen [] ("sql" ∷ "math" ∷ "sql" ∷ []) ≡ "sql" ∷ "math" ∷ []
unfolding first_seen
two_first_seen = refl

write_all-AreNumbered_example :
    AreNumbered hundredths 5
      (write_all hundredths (bridge two_adapters) (tick ∷ tick ∷ [])).1
      (write_all hundredths (bridge two_adapters) (tick ∷ tick ∷ [])).0.step_id
write_all-AreNumbered_example =
    write_all-AreNumbered hundredths (bridge two_adapters) (tick ∷ tick ∷ [])
