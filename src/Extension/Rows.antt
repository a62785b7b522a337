-- ===== src/Extension/Rows.antt =====
-- The rows that `build_segment_table` (csrc/dispatch/segment_builder.cpp) writes.
use adapter_slots_plus_plus.Common.{
  get_elem?-set_self, get_elem?-set_ne, ℕ, zero, suc, ◌+◌, ◌<◌, ◌≡◌, ◌∙◌, sym, ap, refl, inl, inr,
  List, [], ◌∷◌, none, some, Bool, true, false, arith, Option-cases, get_elem?, set, length,
}
use adapter_slots_plus_plus.Extension.Store.{Entry, AdapterStore, lookup}
use adapter_slots_plus_plus.Extension.Cuda.{Cuda}
use adapter_slots_plus_plus.Extension.Staging.{Slot}
use adapter_slots_plus_plus.Extension.Table.{Row, segment_row, write_rows}

module _ (cuda : Cuda) {Float : Type 0} (store : AdapterStore Float) (slots : List Slot)
    (d : cuda.Device) where
  -- Row `k` of the table is that of the segment `k`: it runs from one offset to the next one, with
  -- the entry that is registered for its id.
  abbrev pub IsRow : List ℕ → List ℕ → ℕ → Row Float → Type 0
  IsRow ids offsets k row =
      (id : ℕ) × (start : ℕ) × (end : ℕ) × (e : Entry Float) × (get_elem? ids k ≡ some id)
      × (get_elem? offsets k ≡ some start)
      × (get_elem? offsets (suc k) ≡ some end)
      × (lookup store id ≡ some e)
      × (row ≡ segment_row cuda slots d id start end e)

  abbrev pub written : List ℕ → List ℕ → ℕ → List (Row Float) → List (Row Float) × Bool
  written ids offsets i rows = write_rows cuda store slots d ids offsets i rows

  -- Rows before the first round's are left alone.
  write_rows_before :
      (ids offsets : List ℕ) (i j : ℕ) (rows : List (Row Float))
      → j < i
      → get_elem? (written ids offsets i rows).0 j ≡ get_elem? rows j
  unfolding write_rows
  write_rows_before [] offsets i j rows h = refl
  write_rows_before (id ∷ ids) [] i j rows h = refl
  write_rows_before (id ∷ ids) (start ∷ []) i j rows h = refl
  write_rows_before (id ∷ ids) (start ∷ end ∷ offsets) i j rows h =
      elim (Option-cases (lookup store id)) [
        | inl e ↦ rw (e, write_rows)
        | inr (entry, e) ↦
            rw (e, write_rows)
              (write_rows_before ids (end ∷ offsets) (suc i) j
                  (set rows i (segment_row cuda slots d id start end entry)) (omega arith)
                ∙ get_elem?-set_ne rows i j _ (omega arith))
      ]

  -- A round that does not raise.
  write_rows-cons :
      (id : ℕ) (ids : List ℕ) (start end : ℕ) (offsets : List ℕ) (i : ℕ) (rows : List (Row Float))
      → (written (id ∷ ids) (start ∷ end ∷ offsets) i rows).1 ≡ true
      → (e : Entry Float) × (lookup store id ≡ some e)
        × (written (id ∷ ids) (start ∷ end ∷ offsets) i rows
            ≡ written ids
                (end ∷ offsets)
                (suc i)
                (set rows i (segment_row cuda slots d id start end e)))
  unfolding write_rows
  write_rows-cons id ids start end offsets i rows h = elim (Option-cases (lookup store id)) [
    | inl e ↦ absurd (ground (arith, h, e))
    | inr (entry, e) ↦ (entry, e, rw (e, write_rows))
  ]

  -- A loop that ends has written each of its rows.
  pub write_rows-IsRow :
      (ids offsets : List ℕ) (i k : ℕ) (rows : List (Row Float)) (row : Row Float)
      → (written ids offsets i rows).1 ≡ true
      → length offsets ≡ length ids + 1
      → k < length ids
      → get_elem? (written ids offsets i rows).0 (i + k) ≡ some row
      → IsRow ids offsets k row
  write_rows-IsRow [] offsets i k rows row h len lt at = absurd (omega arith)
  write_rows-IsRow (id ∷ ids) [] i k rows row h len lt at = absurd (omega arith)
  write_rows-IsRow (id ∷ ids) (start ∷ []) i k rows row h len lt at = absurd (omega arith)
  write_rows-IsRow (id ∷ ids) (start ∷ end ∷ offsets) i zero rows row h len lt at =
      let (e, known, step) = write_rows-cons id ids start end offsets i rows h in
      let i_zero : i + 0 ≡ i = omega arith in
      let first : get_elem? (written (id ∷ ids) (start ∷ end ∷ offsets) i rows).0 i ≡ some row =
        rw i_zero at at in
      let there = rw step at first in
      let kept =
        write_rows_before ids (end ∷ offsets) (suc i) i
          (set rows i (segment_row cuda slots d id start end e)) (omega arith) in
      (
        id,
        start,
        end,
        e,
        refl,
        refl,
        refl,
        known,
        get_elem?-set_self rows i (segment_row cuda slots d id start end e) row (sym kept ∙ there),
      )
  write_rows-IsRow (id ∷ ids) (start ∷ end ∷ offsets) i (suc k) rows row h len lt at =
      let (e, known, step) = write_rows-cons id ids start end offsets i rows h in
      let next_i : i + suc k ≡ suc i + k = omega arith in
      let later : get_elem? (written (id ∷ ids) (start ∷ end ∷ offsets) i rows).0 (suc i + k)
          ≡ some row =
        rw next_i at at in
      write_rows-IsRow ids (end ∷ offsets) (suc i) k
        (set rows i (segment_row cuda slots d id start end e)) row (rw step at h)
        (omega (arith, len)) (omega arith) (rw step at later)

  -- The loop ends if every id is known.
  pub write_rows-true :
      (ids offsets : List ℕ) (i : ℕ) (rows : List (Row Float))
      → ((k id : ℕ) → get_elem? ids k ≡ some id → (e : Entry Float) × (lookup store id ≡ some e))
      → (written ids offsets i rows).1 ≡ true
  unfolding write_rows
  write_rows-true [] offsets i rows known = refl
  write_rows-true (id ∷ ids) [] i rows known = refl
  write_rows-true (id ∷ ids) (start ∷ []) i rows known = refl
  write_rows-true (id ∷ ids) (start ∷ end ∷ offsets) i rows known =
      let (e, found) = known 0 id refl in
      rw (found, write_rows)
        (write_rows-true ids (end ∷ offsets) (suc i)
          (set rows i (segment_row cuda slots d id start end e)) (λ k j at. known (suc k) j at))

  -- It raises at an unknown id.
  pub write_rows-false :
      (ids offsets : List ℕ) (i k id : ℕ) (rows : List (Row Float))
      → length offsets ≡ length ids + 1
      → get_elem? ids k ≡ some id
      → lookup store id ≡ none
      → (written ids offsets i rows).1 ≡ false
  unfolding write_rows
  write_rows-false [] offsets i k id rows len at unknown = absurd (cc)
  write_rows-false (j ∷ ids) [] i k id rows len at unknown = absurd (omega arith)
  write_rows-false (j ∷ ids) (start ∷ []) i k id rows len at unknown = absurd (omega arith)
  write_rows-false (j ∷ ids) (start ∷ end ∷ offsets) i k id rows len at unknown =
      elim (Option-cases (lookup store j)) [
        | inl e ↦ rw (e, write_rows)
        | inr (entry, e) ↦
            rw (e, write_rows)
              (later k at e (λ k' at'.
                write_rows-false ids (end ∷ offsets) (suc i) k' id
                  (set rows i (segment_row cuda slots d j start end entry)) (omega (arith, len)) at'
                  unknown))
      ]
    where
      later :
          {result : Bool} (k : ℕ)
          → get_elem? (j ∷ ids) k ≡ some id
          → {entry : Entry Float} → lookup store j ≡ some entry
          → ((k' : ℕ) → get_elem? ids k' ≡ some id → result ≡ false)
          → result ≡ false
      later zero at e rec =
          let same : j ≡ id = cc in
          let gone : lookup store j ≡ none = rw same unknown in absurd (cc)
      later (suc k) at e rec = rec k at

  length-set :
      (rows : List (Row Float)) (i : ℕ) (row : Row Float) → length (set rows i row) ≡ length rows
  length-set [] i row = refl
  length-set (r ∷ rows) zero row = refl
  length-set (r ∷ rows) (suc i) row = ap suc (length-set rows i row)

  pub length-write_rows :
      (ids offsets : List ℕ) (i : ℕ) (rows : List (Row Float))
      → length (written ids offsets i rows).0 ≡ length rows
  unfolding write_rows
  length-write_rows [] offsets i rows = refl
  length-write_rows (id ∷ ids) [] i rows = refl
  length-write_rows (id ∷ ids) (start ∷ []) i rows = refl
  length-write_rows (id ∷ ids) (start ∷ end ∷ offsets) i rows =
      elim (Option-cases (lookup store id)) [
        | inl e ↦ rw (e, write_rows)
        | inr (entry, e) ↦
            rw (e, write_rows)
              (length-write_rows ids (end ∷ offsets) (suc i)
                  (set rows i (segment_row cuda slots d id start end entry))
                ∙ length-set rows i (segment_row cuda slots d id start end entry))
      ]
