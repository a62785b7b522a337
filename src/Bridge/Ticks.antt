-- ===== src/Bridge/Ticks.antt =====
-- A run of `SchedulerBridge.write` calls (lora_warp_pipe/scheduler_bridge.py), one for each scheduler
-- tick, as the map of the adapters stays.
use adapter_slots_plus_plus.Common.{
  ℕ, ◌+◌, ◌≡◌, refl, inl, inr, List, [], ◌∷◌, none, some, length, ltb, ◌==◌, Bool-cases,
}
use adapter_slots_plus_plus.Bridge.IdMap.{ordered_ids}
use adapter_slots_plus_plus.Bridge.Gwar.{Floats}
use adapter_slots_plus_plus.Bridge.Write.{
  SchedulerBridge, Tick, Outcome, returned, raised, write, count_step, write_bridge, metadata,
  max_adapters,
}

module _ (fl : Floats) where
  pub write_all : SchedulerBridge fl → List (Tick fl) → SchedulerBridge fl × List (Outcome fl)
  unfolding write
  write_all b [] = (b, [])
  write_all b (t ∷ ticks) =
      let (b', out) = write fl b t in let (b'', outs) = write_all b' ticks in (b'', out ∷ outs)

  -- The outcomes number their steps from `n` on: a call that returns takes one number, whether or
  -- not it wrote, a call that raises takes none, and what is written carries its call's number.
  abbrev pub AreNumbered : ℕ → List (Outcome fl) → ℕ → Type 0
  AreNumbered n [] last = n ≡ last
  AreNumbered n (raised ∷ outs) last = AreNumbered n outs last
  AreNumbered n (returned none ∷ outs) last = AreNumbered (n + 1) outs last
  AreNumbered n (returned (some w) ∷ outs) last = (w.step_id ≡ n) × AreNumbered (n + 1) outs last

  -- One call, whatever follows.
  write-AreNumbered :
      (b : SchedulerBridge fl) (t : Tick fl) (outs : List (Outcome fl)) (last : ℕ)
      → AreNumbered (write fl b t).0.step_id outs last
      → AreNumbered b.step_id ((write fl b t).1 ∷ outs) last
  unfolding write write_bridge count_step metadata
  write-AreNumbered b t outs last h = elim (Bool-cases (length (ordered_ids b.id_map) == 0)) [
    | inl empty ↦ rw (empty, write) (rw (empty, write) at h)
    | inr some_known ↦ elim (Bool-cases (ltb max_adapters (length (ordered_ids b.id_map)))) [
      | inl many ↦ rw (some_known, many, write) (rw (some_known, many, write) at h)
      | inr few ↦ rw (some_known, few, write) (refl, rw (some_known, few, write) at h)
    ]
  ]

  -- Over a run of ticks, the step ids that reach the engine are those of the calls that returned,
  -- counted from the bridge's step on without a gap or a repetition; a call that raises takes no
  -- number, and the bridge ends at the next one.
  pub write_all-AreNumbered :
      (b : SchedulerBridge fl) (ticks : List (Tick fl))
      → AreNumbered b.step_id (write_all b ticks).1 (write_all b ticks).0.step_id
  unfolding write_all
  write_all-AreNumbered b [] = refl
  write_all-AreNumbered b (t ∷ ticks) =
      write-AreNumbered b t (write_all (write fl b t).0 ticks).1
        (write_all (write fl b t).0 ticks).0.step_id (write_all-AreNumbered (write fl b t).0 ticks)
