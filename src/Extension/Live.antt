-- ===== src/Extension/Live.antt =====
-- The end of a prefetch: `is_prefetch_ready` of csrc/pybind/warp_pipe_bindings.cpp, while the device
-- works its stream off.
use adapter_slots_plus_plus.Common.{
  ℕ, zero, suc, ◌≤◌, ◌≡◌, ◌∙◌, ap, inl, inr, List, [], ◌∷◌, some, true, false, not, arith, eq_refl,
  Option-cases, List-cases, length,
}
use adapter_slots_plus_plus.Extension.Store.{Entry, lookup}
use adapter_slots_plus_plus.Extension.Cuda.{Cuda, Command, awaits}
use adapter_slots_plus_plus.Extension.Staging.{
  Slot, find_slot_for_adapter, acquire_slot, issue_mark, mark_copy_issued, is_ready,
}
use adapter_slots_plus_plus.Extension.Pool.{
  find_slot-some, find_slot-issue_mark, get_elem?-issue_mark_self, acquire_slot-Acquired,
}
use adapter_slots_plus_plus.Extension.Pending.{awaits-append}
use adapter_slots_plus_plus.Extension.Extension.{
  WarpPipeExtension, issue_copies, prefetch_adapter, is_prefetch_ready,
}
use adapter_slots_plus_plus.Extension.Kept.{commands_of, pending-issue_copies}

-- The device works off every command that it has, if it takes enough steps.
module _ (cuda : Cuda) where
  open cuda use {Device, pending, progress}

  pub progress_by : ℕ → Device → Device
  progress_by zero d = d
  progress_by (suc n) d = progress_by n (progress d)

  pending-progress_by :
      (n : ℕ) (d : Device) → length (pending d) ≤ n → pending (progress_by n d) ≡ []
  unfolding progress_by
  pending-progress_by zero d h = elim (List-cases (pending d)) [
    | inl e ↦ e
    | inr (c, cs, e) ↦ absurd (let h' : length (c ∷ cs) ≤ 0 = rw e at h in omega arith)
  ]
  pending-progress_by (suc n) d h = elim (List-cases (pending d)) [
    | inl e ↦ pending-progress_by n (progress d) (rw (cuda.progress_idle d e, e) (omega arith))
    | inr (c, cs, e) ↦ pending-progress_by n (progress d) (
        rw (cuda.pending-progress d c cs e)
          (let h' : length (c ∷ cs) ≤ suc n = rw e at h in omega arith))
  ]

  -- Readiness of a slot whose copies are issued is that of its event.
  ready_event :
      (slots : List Slot) (d : Device) (id i : ℕ)
      → find_slot_for_adapter slots id ≡ some i
      → {Float : Type 0} (x : WarpPipeExtension cuda Float)
      → is_prefetch_ready cuda Float (record x { slots = issue_mark slots i; device = d }) id
        ≡ not (awaits i (pending d))
  unfolding is_prefetch_ready is_ready
  ready_event slots d id i found x =
      let (s, at, same) = find_slot-some slots id i found in
      rw
        (
          is_prefetch_ready,
          find_slot-issue_mark slots i id,
          found,
          is_ready,
          get_elem?-issue_mark_self slots i s at,
        )
        (cuda.event_query_lem d i)

  -- Right behind a prefetch the slot's event is awaited.
  awaits-issue_copies :
      {Float : Type 0} (x : WarpPipeExtension cuda Float) (e : Entry Float) (i : ℕ)
      (slots : List Slot)
      → awaits i (pending (issue_copies cuda Float x e i slots).device) ≡ true
  unfolding awaits commands_of
  awaits-issue_copies x e i slots =
      rw
        (
          pending-issue_copies cuda x e i slots,
          awaits-append i (pending x.device) (commands_of cuda e i),
        )
        (rw (eq_refl i) (ground arith))

  -- A prefetch of an adapter that gets a slot: the adapter is not ready at once, and it is when the
  -- device has finished as many commands as the stream had, or more, whatever other adapters'
  -- prefetches were on the stream.
  pub prefetch_adapter-ready :
      {Float : Type 0} (x : WarpPipeExtension cuda Float) (id i n : ℕ)
      → let after = prefetch_adapter cuda Float x id in
        after.1 ≡ some i
        → length (pending after.0.device) ≤ n
        → (is_prefetch_ready cuda Float after.0 id ≡ false)
          × (is_prefetch_ready cuda Float
                (record after.0 { device = progress_by n after.0.device })
                id
              ≡ true)
  unfolding issue_copies mark_copy_issued prefetch_adapter awaits
  prefetch_adapter-ready x id i n got enough = elim (Option-cases (lookup x.store id)) [
    | inl e ↦ absurd (ground (arith, rw (prefetch_adapter, e) at got))
    | inr (entry, known) ↦ elim (Option-cases (acquire_slot x.slots id)) [
      | inl e ↦ absurd (ground (arith, rw (prefetch_adapter, known, e) at got))
      | inr ((k, slots), e) ↦
          let found = (acquire_slot-Acquired x.slots id k slots e).0 in
          let y = issue_copies cuda _ x entry k slots in
          let drained = rw (prefetch_adapter, known, e) at enough in
          rw (prefetch_adapter, known, e)
            (
              ready_event slots y.device id k found x
                  ∙ ap not (awaits-issue_copies x entry k slots),
              ready_event slots (progress_by n y.device) id k found x
                  ∙ ap (λ (cs : List Command). not (awaits k cs))
                      (pending-progress_by n y.device drained),
            )
    ]
  ]
