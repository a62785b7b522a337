-- ===== src/Extension/Unique.antt =====
-- Which slots the adapters of `StagingBufferPool` (csrc/memory/staging_buffer.h) have, and when
-- `prefetch_adapter` of csrc/pybind/warp_pipe_bindings.cpp gets none.
use mathlib.Core.Option
use mathlib.Core.Option.{some-injective}
use adapter_slots_plus_plus.Common.{
  ℕ, suc, ◌≡◌, ◌↔◌, refl, ap, inl, inr, ◌⊎◌, List, [], ◌∷◌, Option, none, some, arith, ◌==◌,
  Bool-cases, Option-cases,
}
use adapter_slots_plus_plus.Extension.Store.{Entry, lookup}
use adapter_slots_plus_plus.Extension.Cuda.{Cuda}
use adapter_slots_plus_plus.Extension.Staging.{
  Slot, no_adapter, find_slot_for_adapter, take_free_slot, acquire_slot, release_slot,
  mark_copy_issued,
}
use adapter_slots_plus_plus.Extension.Table.{Built, built, threw, build_segment_table}
use adapter_slots_plus_plus.Extension.Extension.{
  WarpPipeExtension, new_extension, register_adapter-some_state, evict_adapter, release_prefetch,
  prefetch_adapter, issue_copies, build_segments, built_table,
}
use adapter_slots_plus_plus.Extension.Prefetched.{
  Step, registers, evicts, prefetches, releases, builds, advances, Reach, here, next,
}
use adapter_slots_plus_plus.Extension.Slots.{
  IsUnique, release_slot-IsUnique, issue_mark-IsUnique, acquire_slot-IsUnique, new_pool-IsUnique,
}

-- The search for a slot that is free fails where `take_free_slot` does.
take_free_slot-none :
    (slots : List Slot) (id : ℕ)
    → (take_free_slot slots id ≡ none) ↔ (find_slot_for_adapter slots no_adapter ≡ none)
unfolding take_free_slot find_slot_for_adapter
take_free_slot-none [] id = (λ h. refl, λ h. refl)
take_free_slot-none (s ∷ slots) id =
    let (to, from) = take_free_slot-none slots id in
    elim (Bool-cases (s.adapter_id == no_adapter)) [
      | inl free ↦ (λ h. absurd (ground (arith, h, free)), λ h. absurd (ground (arith, h, free)))
      | inr used ↦ (
        λ h. rw used (ap (Option.map suc) (to (map_none _ _ (rw (used, take_free_slot) at h)))),
        λ h.
            rw used
              (ap (Option.map _) (from (map_none _ _ (rw (used, find_slot_for_adapter) at h)))),
      )
    ]
  where
    map_none : {A B : Type 0} (f : A → B) (o : Option A) → Option.map f o ≡ none → o ≡ none
    map_none f none h = refl
    map_none f (some a) h = absurd (cc)

-- The adapter has no slot, and every slot is another's.
abbrev pub IsCrowded : List Slot → ℕ → Type 0
IsCrowded slots id =
    (find_slot_for_adapter slots id ≡ none) × (find_slot_for_adapter slots no_adapter ≡ none)

acquire_slot-IsCrowded :
    (slots : List Slot) (id : ℕ) → (acquire_slot slots id ≡ none) ↔ IsCrowded slots id
unfolding acquire_slot
acquire_slot-IsCrowded slots id = elim (Option-cases (find_slot_for_adapter slots id)) [
  | inl e ↦
      let (to, from) = take_free_slot-none slots id in
      rw (e, acquire_slot) (λ h. (refl, to h), λ h. from h.1)
  | inr (i, e) ↦ rw (e, acquire_slot) (λ h. absurd (cc), λ h. absurd (let gone = h.0 in cc))
]

module _ (cuda : Cuda) {Float : Type 0} where
  Step-IsUnique :
      {Admits : Entry Float → Type 0} {x x' : WarpPipeExtension cuda Float}
      → Step cuda Admits x x'
      → IsUnique x.slots
      → IsUnique x'.slots
  unfolding evict_adapter release_prefetch release_slot prefetch_adapter issue_copies
      mark_copy_issued build_segments
  Step-IsUnique {x = x} {x' = x'} (registers id a b rank alpha_scale unstaged admitted done) u =
      rw (register_adapter-some_state cuda x id a b rank alpha_scale x' done) u
  Step-IsUnique (evicts id) u = u
  Step-IsUnique {x = x} (prefetches id) u = elim (Option-cases (lookup x.store id)) [
    | inl e ↦ rw (e, prefetch_adapter) u
    | inr (entry, known) ↦ elim (Option-cases (acquire_slot x.slots id)) [
      | inl e ↦ rw (known, e, prefetch_adapter) u
      | inr ((i, slots), e) ↦
          rw (known, e, prefetch_adapter)
            (issue_mark-IsUnique slots i (acquire_slot-IsUnique x.slots id i slots e u))
    ]
  ]
  Step-IsUnique {x = x} (releases id) u = elim (Option-cases (find_slot_for_adapter x.slots id)) [
    | inl e ↦ rw e u
    | inr (k, e) ↦ rw e (release_slot-IsUnique x.slots k u)
  ]
  Step-IsUnique {x = x} (builds ids offsets) u =
      built_slots (build_segment_table cuda x.meta ids offsets x.store x.slots x.device)
    where
      built_slots : (r : Built Float) → IsUnique (built_table cuda Float x r).0.slots
      built_slots (built table) = u
      built_slots (threw table) = u
  Step-IsUnique {x = x} advances u = u

  -- In every state that calls and device steps reach from a new extension, with adapters registered
  -- only while no slot is theirs, and whatever else is asked of what is registered, no two staging slots are one adapter's; the id -1 marks the free
  -- ones.
  pub Reach-IsUnique :
      (Admits : Entry Float → Type 0) (z : Float) (x : WarpPipeExtension cuda Float)
      → Reach cuda Admits (new_extension cuda Float z) x
      → IsUnique x.slots
  Reach-IsUnique Admits z x r = go r
    where
      go :
          {y : WarpPipeExtension cuda Float}
          → Reach cuda Admits (new_extension cuda Float z) y
          → IsUnique y.slots
      go here = new_pool-IsUnique
      go (next r st) = Step-IsUnique st (go r)

  -- `prefetch_adapter` returns -1 exactly when the adapter is not registered, or it has no slot and
  -- every slot is another's; and that is exactly when it returns -1 and changes nothing.
  pub prefetch_adapter-none :
      (x : WarpPipeExtension cuda Float) (id : ℕ)
      → (((prefetch_adapter cuda Float x id).1 ≡ none)
          ↔ (lookup x.store id ≡ none) ⊎ IsCrowded x.slots id)
        × ((prefetch_adapter cuda Float x id ≡ (x, none))
            ↔ (lookup x.store id ≡ none) ⊎ IsCrowded x.slots id)
  unfolding prefetch_adapter
  prefetch_adapter-none x id = elim (Option-cases (lookup x.store id)) [
    | inl e ↦ rw (e, prefetch_adapter) ((λ h. inl refl, λ h. refl), (λ h. inl refl, λ h. refl))
    | inr (entry, known) ↦ elim (Option-cases (acquire_slot x.slots id)) [
      | inl e ↦
          let full = (acquire_slot-IsCrowded x.slots id).0 e in
          rw (known, e, prefetch_adapter) ((λ h. inr full, λ h. refl), (λ h. inr full, λ h. refl))
      | inr ((i, slots), e) ↦
          rw (known, e, prefetch_adapter)
            (
              (λ h. absurd (cc), λ h. absurd (refuted x.slots entry i slots h e)),
              (
                λ h. absurd (
                    let none_given = ap (λ (r : WarpPipeExtension cuda Float × Option ℕ). r.1) h in
                    cc),
                λ h. absurd (refuted x.slots entry i slots h e),
              ),
            )
    ]
  ]
    where
      refuted :
          (old : List Slot) (entry : Entry Float) (i : ℕ) (slots : List Slot)
          → (◌≡◌ {A = Option (Entry Float)} (some entry) none) ⊎ IsCrowded old id
          → acquire_slot old id ≡ some (i, slots)
          → ⊥
      refuted old entry i slots (inl unknown) e = absurd (cc)
      refuted old entry i slots (inr full) e =
          let gone = (acquire_slot-IsCrowded old id).1 full in absurd (cc)
