-- ===== src/Extension/ReadBack.antt =====
-- What `read_bridge_debug` gives back of a `write_bridge` (csrc/pybind/warp_pipe_bindings.cpp), and
-- what a write leaves of the memory.
use adapter_slots_plus_plus.Common.{
  ℕ, ◌%◌, ◌≤◌, ◌<◌, ◌≡◌, ◌∙◌, List, ◌++◌, some, arith, drop-append_length, length-take,
  take_of_length-le, sym, le→ltb_false, length, take, drop, length-append, length-drop,
  take_append_length,
}
use adapter_slots_plus_plus.Bridge.Gwar.{Floats}
use adapter_slots_plus_plus.Bridge.Write.{SchedulerBridge, Tick, Metadata, max_adapters}
use adapter_slots_plus_plus.Bridge.IdMap.{len}
use adapter_slots_plus_plus.Bridge.Rows.{IsSized, Writes, write_lem}
use adapter_slots_plus_plus.Extension.BridgeMemory.{
  KernelBridge, write_host, write_memory, read_bridge_debug, in_memory,
}

drop-memcpy {ℓ} :
    {A : Type ℓ} (n : ℕ) (src dst : List A)
    → length src ≡ n
    → drop n (take n src ++ drop n dst) ≡ drop n dst
drop-memcpy n src dst h =
    let whole : take n src ≡ src = take_of_length-le n src (rw h (omega arith)) in
    rw whole (rw (← h) (drop-append_length src (drop (length src) dst)))

take-memcpy {ℓ} :
    {A : Type ℓ} (n : ℕ) (src dst : List A)
    → length src ≡ n
    → take n (take n src ++ drop n dst) ≡ src
take-memcpy n src dst h =
    let whole : take n src ≡ src = take_of_length-le n src (rw h (omega arith)) in
    rw whole (rw (← h) (take_append_length src (drop (length src) dst)))

length-memcpy {ℓ} :
    {A : Type ℓ} (n : ℕ) (src dst : List A)
    → length src ≡ n
    → n ≤ length dst
    → length (take n src ++ drop n dst) ≡ length dst
length-memcpy n src dst h fits =
    omega (arith, length-append (take n src) (drop n dst), length-take n src, length-drop n dst, h)

module _ (fl : Floats) where
  open fl use {Float}

  -- What `write` hands the engine for up to 64 adapters is read back by `read_bridge_debug` as it
  -- was, whatever the memory held, the counters modulo 2^32 and the load in single precision.
  pub read_bridge_debug-write_memory :
      (k : KernelBridge fl) (w : Metadata fl) (n : ℕ)
      → IsSized fl n w
      → n ≤ max_adapters
      → (k' : KernelBridge fl) × (write_memory fl k w ≡ some k')
        × (read_bridge_debug fl k' ≡ in_memory fl w)
  unfolding write_memory write_host read_bridge_debug
  read_bridge_debug-write_memory k w n (s0, s1, s2, s3, s4, s5, s6, s7, count) fits =
      let small = le→ltb_false max_adapters w.num_active_adapters (rw count fits) in
      (
        write_host fl k w,
        rw (write_memory, small),
        λ i. record {
          whittle_scores =
              take-memcpy w.num_active_adapters w.whittle_scores k.whittle_scores (s0 ∙ sym count)
                i;
          t_remaining_ms =
              take-memcpy w.num_active_adapters w.t_remaining_ms k.t_remaining_ms (s1 ∙ sym count)
                i;
          gwar_pred_next3 =
              take-memcpy w.num_active_adapters w.gwar_pred_next3 k.gwar_pred_next3 (s2 ∙ sym count)
                i;
          lambda_hat =
              take-memcpy w.num_active_adapters w.lambda_hat k.lambda_hat (s3 ∙ sym count) i;
          burst_active =
              take-memcpy w.num_active_adapters w.burst_active k.burst_active (s4 ∙ sym count) i;
          promo_eligible =
              take-memcpy w.num_active_adapters w.promo_eligible k.promo_eligible (s5 ∙ sym count)
                i;
          is_hot = take-memcpy w.num_active_adapters w.is_hot k.is_hot (s6 ∙ sym count) i;
          tile_size_code =
              take-memcpy w.num_active_adapters w.tile_size_code k.tile_size_code (s7 ∙ sym count)
                i;
          num_active_adapters = w.num_active_adapters;
          num_segments = w.num_segments % 0x100000000;
          step_id = w.step_id % 0x100000000;
          global_load = fl.to_float32 w.global_load;
        },
      )

  -- With 1 to 64 adapters known, `SchedulerBridge.write` hands over metadata that `write_bridge`
  -- takes and `read_bridge_debug` gives back as it was, whatever the memory held before: the
  -- counters modulo 2^32, the load in single precision, and the step id is the bridge's.
  pub write-read_bridge_debug :
      (k : KernelBridge fl) (b : SchedulerBridge fl) (t : Tick fl)
      → 0 < len b.id_map
      → len b.id_map ≤ max_adapters
      → (w : Metadata fl) × (k' : KernelBridge fl) × Writes fl b t w
        × (write_memory fl k w ≡ some k')
        × (read_bridge_debug fl k' ≡ in_memory fl w)
        × ((read_bridge_debug fl k').step_id ≡ b.step_id % 0x100000000)
  write-read_bridge_debug k b t some_known fits =
      let (w, writes, sized, step, segments) = write_lem fl b t some_known fits in
      let (k', done, same) = read_bridge_debug-write_memory k w (len b.id_map) sized fits in
      (w, k', writes, done, same, rw (same, step))
