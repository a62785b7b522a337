-- ===== src/Extension/Slots.antt =====
-- The operations of `StagingBufferPool` (csrc/memory/staging_buffer.h) give no adapter two slots.
use mathlib.Core.Option.{some-injective}
use adapter_slots_plus_plus.Common.{
  get_elem?-set_self, get_elem?-set_ne, ℕ, zero, suc, ◌≡◌, ◌≢◌, ◌∙◌, sym, refl, ap, inl, inr, List,
  [], ◌∷◌, Option, none, some, ◌==◌, ==_iff, eq_false→ne, Bool-cases, Option-cases, get_elem?, set,
  replicate,
}
use adapter_slots_plus_plus.Extension.Staging.{
  Slot, free_slot, no_adapter, new_pool, find_slot_for_adapter, acquire_slot, issue_mark,
}
use adapter_slots_plus_plus.Extension.Pool.{acquire_slot-Acquired, find_slot-some, find_slot-none}

-- No two slots are one adapter's.
abbrev pub IsUnique : List Slot → Type 0
IsUnique slots =
    (i j : ℕ) (s t : Slot)
    → get_elem? slots i ≡ some s
    → get_elem? slots j ≡ some t
    → s.adapter_id ≡ t.adapter_id
    → s.adapter_id ≢ no_adapter
    → i ≡ j

pub release_slot-IsUnique :
    (slots : List Slot) (k : ℕ) → IsUnique slots → IsUnique (set slots k free_slot)
release_slot-IsUnique slots k u i j s t at_i at_j same used = elim (Bool-cases (k == i)) [
  | inl e ↦
      let free = get_elem?-set_self slots i free_slot s (rw ((==_iff k i).0 e) at at_i) in
      absurd (used (ap (λ (r : Slot). r.adapter_id) free))
  | inr ne_i ↦ elim (Bool-cases (k == j)) [
    | inl e ↦
        let free = get_elem?-set_self slots j free_slot t (rw ((==_iff k j).0 e) at at_j) in
        absurd (used (same ∙ ap (λ (r : Slot). r.adapter_id) free))
    | inr ne_j ↦
        u i j s t (sym (get_elem?-set_ne slots k i free_slot (eq_false→ne k i ne_i)) ∙ at_i)
          (sym (get_elem?-set_ne slots k j free_slot (eq_false→ne k j ne_j)) ∙ at_j) same used
  ]
]

-- A mark leaves the ids alone.
unmarked :
    (slots : List Slot) (k i : ℕ) (s : Slot)
    → get_elem? (issue_mark slots k) i ≡ some s
    → (t : Slot) × (get_elem? slots i ≡ some t) × (t.adapter_id ≡ s.adapter_id)
unfolding issue_mark
unmarked [] k i s h = absurd (cc)
unmarked (t ∷ slots) zero zero s h = (t, refl, ap (λ (r : Slot). r.adapter_id) (some_eq h))
  where
    some_eq : {A : Type 0} {a b : A} → some a ≡ some b → a ≡ b
    some_eq e = cc
unmarked (t ∷ slots) zero (suc i) s h = (s, h, refl)
unmarked (t ∷ slots) (suc k) zero s h = (s, h, refl)
unmarked (t ∷ slots) (suc k) (suc i) s h = unmarked slots k i s h

pub issue_mark-IsUnique :
    (slots : List Slot) (k : ℕ) → IsUnique slots → IsUnique (issue_mark slots k)
issue_mark-IsUnique slots k u i j s t at_i at_j same used =
    let (s', old_i, id_i) = unmarked slots k i s at_i in
    let (t', old_j, id_j) = unmarked slots k j t at_j in
    u i j s' t' old_i old_j (id_i ∙ same ∙ sym id_j) (λ e. used (sym id_i ∙ e))

pub acquire_slot-IsUnique :
    (slots : List Slot) (id k : ℕ) (slots' : List Slot)
    → acquire_slot slots id ≡ some (k, slots')
    → IsUnique slots
    → IsUnique slots'
unfolding acquire_slot
acquire_slot-IsUnique slots id k slots' h u = elim (Option-cases (find_slot_for_adapter slots id)) [
  | inr (l, e) ↦
      let same : ◌≡◌ {A = Option (ℕ × List Slot)} (some (l, slots)) (some (k, slots')) =
        rw (e, acquire_slot) at h in
      let there : slots' ≡ slots = cc in rw there u
  | inl absent ↦
      let (found, kept) = acquire_slot-Acquired slots id k slots' h in fresh absent found kept
]
  where
    fresh :
        find_slot_for_adapter slots id ≡ none
        → find_slot_for_adapter slots' id ≡ some k
        → ((j : ℕ) → k ≢ j → get_elem? slots' j ≡ get_elem? slots j)
        → IsUnique slots'
    fresh absent found kept i j s t at_i at_j same used =
        let (r, at_k, id_k) = find_slot-some slots' id k found in
        elim (Bool-cases (k == i)) [
          | inl e_i ↦ elim (Bool-cases (k == j)) [
            | inl e_j ↦ sym ((==_iff k i).0 e_i) ∙ (==_iff k j).0 e_j
            | inr ne_j ↦
                let ki : k ≡ i = (==_iff k i).0 e_i in
                let here_s : get_elem? slots' i ≡ some r = rw ki at at_k in
                let r_s : r ≡ s = cc in
                let old_j = sym (kept j (eq_false→ne k j ne_j)) ∙ at_j in
                absurd (
                  find_slot-none slots id j t absent old_j
                    (sym same ∙ ap (λ (q : Slot). q.adapter_id) (sym r_s) ∙ id_k))
          ]
          | inr ne_i ↦
              let old_i = sym (kept i (eq_false→ne k i ne_i)) ∙ at_i in
              elim (Bool-cases (k == j)) [
                | inl e_j ↦
                    let kj : k ≡ j = (==_iff k j).0 e_j in
                    let here_t : get_elem? slots' j ≡ some r = rw kj at at_k in
                    let r_t : r ≡ t = cc in
                    absurd (
                      find_slot-none slots id i s absent old_i
                        (same ∙ ap (λ (q : Slot). q.adapter_id) (sym r_t) ∙ id_k))
                | inr ne_j ↦ u i j s t old_i (sym (kept j (eq_false→ne k j ne_j)) ∙ at_j) same used
              ]
        ]

pub new_pool-IsUnique : IsUnique new_pool
new_pool-IsUnique i j s t at_i at_j same used = absurd (used (free_id 8 i s at_i))
  where
    free_id :
        (n i : ℕ) (s : Slot)
        → get_elem? (replicate n free_slot) i ≡ some s
        → s.adapter_id ≡ no_adapter
    free_id zero i s h = absurd (cc)
    free_id (suc n) zero s h = ap (λ (r : Slot). r.adapter_id) (sym (some-injective _ _ h))
    free_id (suc n) (suc i) s h = free_id n i s h
