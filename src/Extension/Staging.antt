-- ===== src/Extension/Staging.antt =====
-- `StagingBufferPool` of csrc/memory/staging_buffer.h. The buffers and the events are the device's.
use adapter_slots_plus_plus.Common.{
  ℕ, zero, suc, List, [], ◌∷◌, Option, none, some, Bool, true, false, ◌==◌, if◌then◌else◌,
  get_elem?, set, replicate,
}
use mathlib.Core.Option
use adapter_slots_plus_plus.Extension.Cuda.{Cuda, record_event}

-- WP_MAX_STAGING
abbrev pub max_staging : ℕ
max_staging = 8

-- The word of the id -1, which marks a slot that is free.
abbrev pub no_adapter : ℕ
no_adapter = 0xFFFFFFFF

pub record Slot : Type 0 where
  pub adapter_id : ℕ
  pub copy_issued : Bool

abbrev pub free_slot : Slot
free_slot = record { adapter_id = no_adapter; copy_issued = false }

abbrev pub new_pool : List Slot
new_pool = replicate max_staging free_slot

-- The index -1 is `none`.
unfoldable pub find_slot_for_adapter : List Slot → ℕ → Option ℕ
find_slot_for_adapter [] id = none
find_slot_for_adapter (s ∷ slots) id =
    let later = Option.map suc (find_slot_for_adapter slots id) in
    if s.adapter_id == id then some 0 else later

-- The loop of `acquire_slot`.
unfoldable pub take_free_slot : List Slot → ℕ → Option (ℕ × List Slot)
take_free_slot [] id = none
take_free_slot (s ∷ slots) id =
    let later = Option.map (λ r. (suc r.0, s ∷ r.1)) (take_free_slot slots id) in
    if s.adapter_id == no_adapter
    then some (0, record { adapter_id = id; copy_issued = false } ∷ slots)
    else later

unfoldable pub acquire_slot : List Slot → ℕ → Option (ℕ × List Slot)
unfolding find_slot_for_adapter take_free_slot
acquire_slot slots id = elim (find_slot_for_adapter slots id) [
  | some i ↦ some (i, slots)
  | none ↦ take_free_slot slots id
]

unfoldable pub release_slot : List Slot → Option ℕ → List Slot
release_slot slots none = slots
release_slot slots (some i) = set slots i free_slot

unfoldable pub issue_mark : List Slot → ℕ → List Slot
issue_mark [] i = []
issue_mark (s ∷ slots) zero = record s { copy_issued = true } ∷ slots
issue_mark (s ∷ slots) (suc i) = s ∷ issue_mark slots i

module _ (cuda : Cuda) where
  open cuda use {Device, issue, event_query}

  unfoldable pub mark_copy_issued : List Slot → Device → ℕ → List Slot × Device
  unfolding issue_mark
  mark_copy_issued slots d i = (issue_mark slots i, issue (record_event i) d)

  unfoldable pub is_ready : List Slot → Device → ℕ → Bool
  is_ready slots d i = elim (get_elem? slots i) [
    | none ↦ false
    | some s ↦ if s.copy_issued then event_query d i else false
  ]
