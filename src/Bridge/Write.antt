-- ===== src/Bridge/Write.antt =====
-- `SchedulerBridge` of lora_warp_pipe/scheduler_bridge.py. The scheduler's own objects are
-- AdapterSlots', a submodule: each is a parameter, by the one method that `write` calls. What the
-- engine is handed is a record; csrc/pybind/warp_pipe_bindings.cpp refuses it, by an exception, if
-- it names more than `max_adapters`.
use Prim.Native.String.{String}
use mathlib.Core.Option
use adapter_slots_plus_plus.Common.{
  ℕ, ◌+◌, List, map, Option, none, some, Bool, length, replicate, ltb, ◌==◌, if◌then◌else◌,
}
use adapter_slots_plus_plus.Dict
use adapter_slots_plus_plus.Dict.{Dict}
use adapter_slots_plus_plus.Bridge.IdMap.{AdapterIdMap, ordered_ids}
use adapter_slots_plus_plus.Bridge.Gwar.{Floats, GwarHistory, new_history, fill}

-- WP_MAX_ADAPTERS
abbrev pub max_adapters : ℕ
max_adapters = 64

module _ (fl : Floats) where
  open fl use {Float, ratio, lt, to_float32}

  pub record SchedulerBridge : Type 0 where
    pub id_map : AdapterIdMap
    pub gwar_history : GwarHistory fl
    pub step_id : ℕ

  abbrev pub new_bridge : AdapterIdMap → SchedulerBridge
  new_bridge m = record { id_map = m; gwar_history = new_history fl; step_id = 0 }

  -- The arguments of `write`.
  pub record Tick : Type 0 where
    pub num_segments : ℕ
    -- `whittle_dispatcher.compute_indices`
    pub whittle_dispatcher : Option (Dict Float → Dict Float → Dict Float)
    pub fill_fracs : Option (Dict Float)
    pub lambda_est : Option (Dict Float)
    -- `estimator.get_rate`
    pub estimator : Option (String → Float)
    pub gwar_readings : Option (Dict Float)
    -- `mwc.is_merged`
    pub mwc : Option (String → Bool)
    pub global_load : Float

  -- The arguments of `engine.write_bridge`.
  pub record Metadata : Type 0 where
    pub whittle_scores : List Float
    pub t_remaining_ms : List Float
    pub gwar_pred_next3 : List Float
    pub lambda_hat : List Float
    pub burst_active : List ℕ
    pub promo_eligible : List ℕ
    pub is_hot : List ℕ
    pub tile_size_code : List ℕ
    pub num_active_adapters : ℕ
    pub num_segments : ℕ
    pub step_id : ℕ
    pub global_load : Float

  unfoldable pub whittle_scores : Tick → List String → List Float
  whittle_scores t ordered = elim t.whittle_dispatcher [
    | none ↦ replicate (length ordered) (ratio 0 1)
    | some compute_indices ↦ elim t.fill_fracs [
      | none ↦ replicate (length ordered) (ratio 0 1)
      | some fracs ↦ elim t.lambda_est [
        | none ↦ replicate (length ordered) (ratio 0 1)
        | some est ↦
            let indices = compute_indices fracs est in
            map (λ aid. to_float32 (Option.get_or (Dict.get indices aid) (ratio 0 1))) ordered
      ]
    ]
  ]

  unfoldable pub lambda_hat : Tick → List String → List Float
  lambda_hat t ordered = elim t.estimator [
    | none ↦ replicate (length ordered) (ratio 0 1)
    | some get_rate ↦ map (λ aid. to_float32 (get_rate aid)) ordered
  ]

  unfoldable pub promo_eligible : Tick → List String → List ℕ
  promo_eligible t ordered = elim t.mwc [
    | none ↦ replicate (length ordered) 0
    | some is_merged ↦ map (λ aid. if is_merged aid then 1 else 0) ordered
  ]

  unfoldable pub gwar_pred_next3 : Tick → List String → GwarHistory fl → List Float × GwarHistory fl
  gwar_pred_next3 t ordered h = elim t.gwar_readings [
    | none ↦ (replicate (length ordered) (ratio 0 1), h)
    | some readings ↦ fill fl readings ordered h
  ]

  -- `tile_size_code[pred > 0.6] = 1`, then `tile_size_code[pred > 0.85] = 2`
  unfoldable pub tile_size_code : Float → ℕ
  tile_size_code pred =
      let code = if lt (to_float32 (ratio 6 10)) pred then 1 else 0 in
      if lt (to_float32 (ratio 85 100)) pred then 2 else code

  unfoldable pub metadata : SchedulerBridge → Tick → List String → Metadata
  unfolding whittle_scores lambda_hat promo_eligible gwar_pred_next3
  metadata b t ordered =
      let n = length ordered in
      let gwar = (gwar_pred_next3 t ordered b.gwar_history).0 in
      record {
        whittle_scores = whittle_scores t ordered;
        t_remaining_ms = replicate n (ratio 0 1);
        gwar_pred_next3 = gwar;
        lambda_hat = lambda_hat t ordered;
        burst_active = replicate n 0;
        promo_eligible = promo_eligible t ordered;
        is_hot = replicate n 0;
        tile_size_code = map tile_size_code gwar;
        num_active_adapters = n;
        num_segments = t.num_segments;
        step_id = b.step_id;
        global_load = t.global_load;
      }

  -- A call that returns, with what it wrote to the engine, if anything; or one that raises.
  pub data Outcome : Type 0 where
    returned : Option Metadata → Outcome
    raised : Outcome

  -- `TORCH_CHECK(num_active_adapters <= WP_MAX_ADAPTERS)` of the extension's `write_bridge`
  unfoldable pub write_bridge : Metadata → Outcome
  write_bridge w = if ltb max_adapters w.num_active_adapters then raised else returned (some w)

  -- The end of `write`, behind the call of the engine: an exception leaves the step where it was.
  unfoldable pub count_step : SchedulerBridge → Outcome → SchedulerBridge × Outcome
  count_step b raised = (b, raised)
  count_step b (returned w) = (record b { step_id = b.step_id + 1 }, returned w)

  -- The bridge's state after a call, and its outcome.
  unfoldable pub write : SchedulerBridge → Tick → SchedulerBridge × Outcome
  unfolding metadata write_bridge gwar_pred_next3
  write b t =
      let ordered = ordered_ids b.id_map in
      let smoothed = record b { gwar_history = (gwar_pred_next3 t ordered b.gwar_history).1 } in
      if length ordered == 0
      then count_step b (returned none)
      else count_step smoothed (write_bridge (metadata b t ordered))
