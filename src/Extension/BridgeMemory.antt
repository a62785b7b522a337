-- ===== src/Extension/BridgeMemory.antt =====
-- `SchedulerKernelBridgeHost` (csrc/bridge/scheduler_kernel_bridge.cpp), the arrays that the
-- scheduler writes and the kernels read, with `write_bridge`, `read_bridge_debug` and
-- `read_bridge_via_kernel` of csrc/pybind/warp_pipe_bindings.cpp.
use adapter_slots_plus_plus.Common.{
  ℕ, ◌%◌, List, [], ◌∷◌, ◌++◌, Option, none, some, ltb, if◌then◌else◌, take, drop, replicate,
}
use adapter_slots_plus_plus.Bridge.Gwar.{Floats}
use adapter_slots_plus_plus.Bridge.Write.{Metadata, max_adapters}

module _ (fl : Floats) where
  open fl use {Float, ratio, to_float32}

  -- `SchedulerKernelBridge`: arrays of `max_adapters` entries, and the scalars.
  pub record KernelBridge : Type 0 where
    pub whittle_scores : List Float
    pub t_remaining_ms : List Float
    pub gwar_pred_next3 : List Float
    pub lambda_hat : List Float
    pub burst_active : List ℕ
    pub promo_eligible : List ℕ
    pub is_hot : List ℕ
    pub tile_size_code : List ℕ
    pub num_active_adapters : ℕ
    pub num_segments : ℕ
    pub step_id : ℕ
    pub global_load : Float

  abbrev pub new_bridge_memory : KernelBridge
  new_bridge_memory = record {
    whittle_scores = replicate max_adapters (ratio 0 1);
    t_remaining_ms = replicate max_adapters (ratio 0 1);
    gwar_pred_next3 = replicate max_adapters (ratio 0 1);
    lambda_hat = replicate max_adapters (ratio 0 1);
    burst_active = replicate max_adapters 0;
    promo_eligible = replicate max_adapters 0;
    is_hot = replicate max_adapters 0;
    tile_size_code = replicate max_adapters 0;
    num_active_adapters = 0;
    num_segments = 0;
    step_id = 0;
    global_load = ratio 0 1;
  }

  -- `memcpy` of `n` entries.
  abbrev pub memcpy {ℓ} : {A : Type ℓ} → ℕ → List A → List A → List A
  memcpy n src dst = take n src ++ drop n dst

  -- `SchedulerKernelBridgeHost::write`
  unfoldable pub write_host : KernelBridge → Metadata fl → KernelBridge
  write_host k w =
      let n = w.num_active_adapters in
      record {
        whittle_scores = memcpy n w.whittle_scores k.whittle_scores;
        t_remaining_ms = memcpy n w.t_remaining_ms k.t_remaining_ms;
        gwar_pred_next3 = memcpy n w.gwar_pred_next3 k.gwar_pred_next3;
        lambda_hat = memcpy n w.lambda_hat k.lambda_hat;
        burst_active = memcpy n w.burst_active k.burst_active;
        promo_eligible = memcpy n w.promo_eligible k.promo_eligible;
        is_hot = memcpy n w.is_hot k.is_hot;
        tile_size_code = memcpy n w.tile_size_code k.tile_size_code;
        num_active_adapters = n;
        num_segments = w.num_segments % 0x100000000;
        step_id = w.step_id % 0x100000000;
        global_load = to_float32 w.global_load;
      }

  -- `none` is the exception of the check on the number of adapters.
  unfoldable pub write_memory : KernelBridge → Metadata fl → Option KernelBridge
  unfolding write_host
  write_memory k w = if ltb max_adapters w.num_active_adapters then none else some (write_host k w)

  unfoldable pub read_bridge_debug : KernelBridge → Metadata fl
  read_bridge_debug k =
      let n = k.num_active_adapters in
      record {
        whittle_scores = take n k.whittle_scores;
        t_remaining_ms = take n k.t_remaining_ms;
        gwar_pred_next3 = take n k.gwar_pred_next3;
        lambda_hat = take n k.lambda_hat;
        burst_active = take n k.burst_active;
        promo_eligible = take n k.promo_eligible;
        is_hot = take n k.is_hot;
        tile_size_code = take n k.tile_size_code;
        num_active_adapters = n;
        num_segments = k.num_segments;
        step_id = k.step_id;
        global_load = k.global_load;
      }

  -- The scalars are read as `int32_t` words and cast to float, by `cast`.
  unfoldable pub read_bridge_via_kernel : (ℕ → Float) → KernelBridge → List Float
  read_bridge_via_kernel cast k =
      take k.num_active_adapters k.whittle_scores
      ++ cast k.num_active_adapters ∷ cast k.num_segments ∷ cast k.step_id ∷ []

  -- What the host reads back of a call's arguments: the counters as 32-bit words, the load in single
  -- precision.
  abbrev pub in_memory : Metadata fl → Metadata fl
  in_memory w = record w {
    num_segments = w.num_segments % 0x100000000;
    step_id = w.step_id % 0x100000000;
    global_load = to_float32 w.global_load;
  }
