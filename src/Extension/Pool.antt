-- ===== src/Extension/Pool.antt =====
-- The operations of `StagingBufferPool` (csrc/memory/staging_buffer.h) on the slots.
use adapter_slots_plus_plus.Common.{
  ℕ, zero, suc, ◌≡◌, ◌≢◌, ◌∙◌, refl, ap, inl, inr, List, [], ◌∷◌, Option, none, some, true, false,
  arith, ◌==◌, ==_iff, eq_refl, Bool-cases, Option-cases, get_elem?,
}
use mathlib.Core.Option
use adapter_slots_plus_plus.Extension.Staging.{
  Slot, find_slot_for_adapter, take_free_slot, acquire_slot, issue_mark, no_adapter,
}

-- The adapter's first slot is slot `i`.
abbrev pub Holds : List Slot → ℕ → ℕ → Type 0
Holds slots i id = (s : Slot) × (get_elem? slots i ≡ some s) × (s.adapter_id ≡ id)

pub find_slot-some :
    (slots : List Slot) (id i : ℕ) → find_slot_for_adapter slots id ≡ some i → Holds slots i id
unfolding find_slot_for_adapter
find_slot-some [] id i h = absurd (cc)
find_slot-some (s ∷ slots) id i h = elim (Bool-cases (s.adapter_id == id)) [
  | inl same ↦ let e : i ≡ 0 = ground (arith, h, same) in (s, rw e, (==_iff s.adapter_id id).0 same)
  | inr other ↦ elim (Option-cases (find_slot_for_adapter slots id)) [
    | inl e ↦ absurd (ground (arith, h, other, e))
    | inr (k, e) ↦
        let at : i ≡ suc k = ground (arith, h, other, e) in
        let (t, found, same) = find_slot-some slots id k e in (t, rw at found, same)
  ]
]

absent_tail :
    (t : Slot) (slots : List Slot) (id : ℕ)
    → find_slot_for_adapter (t ∷ slots) id ≡ none
    → ((t.adapter_id == id) ≡ false) × (find_slot_for_adapter slots id ≡ none)
unfolding find_slot_for_adapter
absent_tail t slots id h = elim (Bool-cases (t.adapter_id == id)) [
  | inl same ↦ absurd (ground (arith, h, same))
  | inr other ↦ elim (Option-cases (find_slot_for_adapter slots id)) [
    | inl e ↦ (other, e)
    | inr (k, e) ↦ absurd (ground (arith, h, other, e))
  ]
]

pub find_slot-none :
    (slots : List Slot) (id i : ℕ) (s : Slot)
    → find_slot_for_adapter slots id ≡ none
    → get_elem? slots i ≡ some s
    → s.adapter_id ≢ id
unfolding find_slot_for_adapter
find_slot-none [] id i s h at = absurd (cc)
find_slot-none (t ∷ slots) id zero s h at = λ e. ground (arith, h, at, e, ==_iff t.adapter_id id)
find_slot-none (t ∷ slots) id (suc i) s h at =
    find_slot-none slots id i s (absent_tail t slots id h).1 at

pub get_elem?-issue_mark_self :
    (slots : List Slot) (i : ℕ) (s : Slot)
    → get_elem? slots i ≡ some s
    → get_elem? (issue_mark slots i) i ≡ some (record s { copy_issued = true })
unfolding issue_mark
get_elem?-issue_mark_self [] i s h = absurd (cc)
get_elem?-issue_mark_self (t ∷ slots) zero s h =
    ap (Option.map (λ (s : Slot). record s { copy_issued = true })) h
get_elem?-issue_mark_self (t ∷ slots) (suc i) s h = get_elem?-issue_mark_self slots i s h

pub get_elem?-issue_mark_ne :
    (slots : List Slot) (i j : ℕ) → i ≢ j → get_elem? (issue_mark slots i) j ≡ get_elem? slots j
unfolding issue_mark
get_elem?-issue_mark_ne [] i j ne = refl
get_elem?-issue_mark_ne (t ∷ slots) zero zero ne = absurd (ne refl)
get_elem?-issue_mark_ne (t ∷ slots) zero (suc j) ne = refl
get_elem?-issue_mark_ne (t ∷ slots) (suc i) zero ne = refl
get_elem?-issue_mark_ne (t ∷ slots) (suc i) (suc j) ne =
    get_elem?-issue_mark_ne slots i j (λ e. ne (ap suc e))

pub find_slot-issue_mark :
    (slots : List Slot) (i id : ℕ)
    → find_slot_for_adapter (issue_mark slots i) id ≡ find_slot_for_adapter slots id
unfolding issue_mark find_slot_for_adapter
find_slot-issue_mark [] i id = refl
find_slot-issue_mark (s ∷ slots) zero id = refl
find_slot-issue_mark (s ∷ slots) (suc i) id = rw (find_slot-issue_mark slots i id)

-- An acquired slot is the adapter's first, and no other slot has changed.
abbrev pub Acquired : List Slot → ℕ → ℕ → List Slot → Type 0
Acquired slots id i slots' =
    (find_slot_for_adapter slots' id ≡ some i)
    × ((j : ℕ) → i ≢ j → get_elem? slots' j ≡ get_elem? slots j)

take_free_slot-Acquired :
    (slots : List Slot) (id i : ℕ) (slots' : List Slot)
    → find_slot_for_adapter slots id ≡ none
    → take_free_slot slots id ≡ some (i, slots')
    → Acquired slots id i slots'
unfolding take_free_slot find_slot_for_adapter
take_free_slot-Acquired [] id i slots' absent h = absurd (cc)
take_free_slot-Acquired (s ∷ slots) id i slots' absent h =
    elim (Bool-cases (s.adapter_id == no_adapter)) [
      | inl free ↦
          let e : ◌≡◌ {A = Option (ℕ × List Slot)}
              (some (0, record { adapter_id = id; copy_issued = false } ∷ slots))
              (some (i, slots')) =
            rw (free, take_free_slot) at h in
          let first : i ≡ 0 = cc in
          let there : slots' ≡ record { adapter_id = id; copy_issued = false } ∷ slots = cc in
          rw (first, there) (rw (eq_refl id), behind _)
      | inr used ↦ elim (Option-cases (take_free_slot slots id)) [
        | inl full ↦ absurd (ground (arith, h, used, full))
        | inr ((k, rest), e) ↦
            let (other, absent') = absent_tail s slots id absent in
            let (found, kept) = take_free_slot-Acquired slots id k rest absent' e in
            let later : i ≡ suc k = ground (arith, h, used, e) in
            let there : slots' ≡ s ∷ rest = ground (arith, h, used, e) in
            rw (later, there) (rw (other, found), kept_behind k rest kept)
      ]
    ]
  where
    behind : (t : Slot) (j : ℕ) → 0 ≢ j → get_elem? (t ∷ slots) j ≡ get_elem? (s ∷ slots) j
    behind t zero ne = absurd (ne refl)
    behind t (suc j) ne = refl

    kept_behind :
        (k : ℕ) (rest : List Slot)
        → ((j : ℕ) → k ≢ j → get_elem? rest j ≡ get_elem? slots j)
        → (j : ℕ) → suc k ≢ j
        → get_elem? (s ∷ rest) j ≡ get_elem? (s ∷ slots) j
    kept_behind k rest kept zero ne = refl
    kept_behind k rest kept (suc j) ne = kept j (λ e. ne (ap suc e))

pub acquire_slot-Acquired :
    (slots : List Slot) (id i : ℕ) (slots' : List Slot)
    → acquire_slot slots id ≡ some (i, slots')
    → Acquired slots id i slots'
unfolding acquire_slot
acquire_slot-Acquired slots id i slots' h = elim (Option-cases (find_slot_for_adapter slots id)) [
  | inl absent ↦ take_free_slot-Acquired slots id i slots' absent (rw (absent, acquire_slot) at h)
  | inr (k, e) ↦
      let same : ◌≡◌ {A = Option (ℕ × List Slot)} (some (k, slots)) (some (i, slots')) =
        rw (e, acquire_slot) at h in
      let there : slots' ≡ slots = cc in
      let at : k ≡ i = cc in rw there (e ∙ ap some at, λ j ne. refl)
]

-- The slot that a prefetch fills is the adapter's.
pub marked_slot :
    (slots slots' : List Slot) (id i : ℕ) (s : Slot)
    → Acquired slots id i slots'
    → get_elem? (issue_mark slots' i) i ≡ some s
    → s.adapter_id ≡ id
marked_slot slots slots' id i s got at =
    let (t, found, same) = find_slot-some slots' id i got.0 in
    let marked = get_elem?-issue_mark_self slots' i t found in
    let there : s ≡ record t { copy_issued = true } = cc in
    ap (λ (t : Slot). t.adapter_id) there ∙ same
