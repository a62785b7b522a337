-- ===== src/KvEager/Masks.antt =====
-- What the models see of their caches behind an iteration of `spec_kv_iter`
-- (benchmarks/e2e/serve_kv_eager.py).
use adapter_slots_plus_plus.Common.{
  ℕ, zero, suc, ◌+◌, ◌-◌, ◌≤◌, ◌≡◌, ◌∙◌, sym, refl, ap, inl, inr, List, [], ◌∷◌, ◌++◌, append_assoc,
  append-nil, some, true, arith, Bool-cases, ==_iff, length, take, drop_last, get_last?, ◌==◌,
  if◌then◌else◌, eq_refl, take_of_length-le, length-drop_last, drop_last-append_last,
  get_last?-cons,
}
use adapter_slots_plus_plus.KvEager.{
  CacheRow, feed, write_bits, overwrite_mask, at_most, less_than, target_row, draft_row, any_full,
}
use adapter_slots_plus_plus.KvEager.Slots.{
  real_slots, slots_at, real_slots-append, overwrite_mask-append, at_most-take, less_than-take,
}

length-drop_last_cons : (x : ℕ) (xs : List ℕ) → length (drop_last (x ∷ xs)) ≡ length xs
length-drop_last_cons x xs = omega (arith, length-drop_last {0} (x ∷ xs))

-- Behind an iteration that accepts `acc` of the proposals, the target sees what it saw before, the
-- pending token and the accepted proposals, at the positions from `real_len - 1` on, and nothing
-- else.
pub target_row_lem :
    (row : CacheRow) (real_len pending : ℕ) (prop : List ℕ) (acc : ℕ)
    → acc ≤ length prop
    → real_slots (target_row row real_len pending prop acc)
      ≡ real_slots row ++ slots_at (real_len - 1) (pending ∷ take acc prop)
unfolding target_row
target_row_lem row real_len pending prop acc fits =
    let e : length prop + 1 ≡ length (pending ∷ prop) = omega arith in
    ap real_slots (
      overwrite_mask-append row (real_len - 1) (pending ∷ prop) (length prop + 1)
        (at_most acc 0 (length prop + 1)) (omega arith))
    ∙ real_slots-append row _
    ∙ ap (λ (l : CacheRow). real_slots row ++ l)
        (rw e (at_most-take acc 0 (suc acc) (real_len - 1) (pending ∷ prop) (omega arith)))

pub slots_at-append :
    (pos : ℕ) (xs ys : List ℕ)
    → slots_at pos (xs ++ ys) ≡ slots_at pos xs ++ slots_at (pos + length xs) ys
unfolding slots_at
slots_at-append pos [] ys = let e : pos + 0 ≡ pos = omega arith in rw e
slots_at-append pos (x ∷ xs) ys =
    let e : pos + length (x ∷ xs) ≡ suc pos + length xs = omega arith in
    rw e (ap (◌∷◌ (record { token = x; pos = pos; real = true })) (slots_at-append (suc pos) xs ys))

take-drop_last :
    (n x : ℕ) (xs : List ℕ) → n ≤ length xs → take n (drop_last (x ∷ xs)) ≡ take n (x ∷ xs)
take-drop_last zero x xs h = refl
take-drop_last (suc n) x [] h = absurd (omega arith)
take-drop_last (suc n) x (y ∷ xs) h = ap (◌∷◌ x) (take-drop_last n y xs (omega arith))

any_full-append :
    (gamma : ℕ) (before after : List ℕ) → any_full gamma (before ++ gamma ∷ after) ≡ true
unfolding any_full
any_full-append gamma [] after = rw (eq_refl gamma)
any_full-append gamma (a ∷ before) after = ground (arith, any_full-append gamma before after)

module _ (row : CacheRow) (real_len pending p : ℕ) (prop : List ℕ) (acc : ℕ)
    (fits : acc ≤ length (p ∷ prop)) where
  -- The draft's row before the last proposal is fed.
  abbrev masked : CacheRow
  masked =
      overwrite_mask (feed row (real_len - 1) (drop_last (pending ∷ p ∷ prop))) (length (p ∷ prop))
        (less_than acc 0 (length (p ∷ prop)))

  real_slots-masked :
      real_slots masked ≡ real_slots row ++ slots_at (real_len - 1) (take acc (pending ∷ p ∷ prop))
  real_slots-masked =
      let n : length (drop_last (pending ∷ p ∷ prop)) ≡ length (p ∷ prop) =
        length-drop_last_cons pending (p ∷ prop) in
      ap real_slots (
        overwrite_mask-append row (real_len - 1) (drop_last (pending ∷ p ∷ prop))
          (length (p ∷ prop)) (less_than acc 0 (length (p ∷ prop))) n)
      ∙ real_slots-append row _
      ∙ ap (λ (l : CacheRow). real_slots row ++ l)
          (rw (← n) (
              less_than-take acc 0 acc (real_len - 1) (drop_last (pending ∷ p ∷ prop))
                (omega arith))
            ∙ ap (slots_at (real_len - 1)) (take-drop_last acc pending (p ∷ prop) fits))

  -- The row where every row is fed the last proposal.
  abbrev fed_last : ℕ → CacheRow
  fed_last last =
      overwrite_mask (feed masked (real_len - 1 + length (p ∷ prop)) (last ∷ [])) 1
        ((acc == length (p ∷ prop)) ∷ [])

  all_slots :
      (last : ℕ)
      → acc ≡ length (p ∷ prop)
      → get_last? (p ∷ prop) ≡ some last
      → real_slots masked ++ slots_at (real_len - 1 + length (p ∷ prop)) (last ∷ [])
        ≡ real_slots row ++ slots_at (real_len - 1) (pending ∷ p ∷ prop)
  all_slots last all e_last =
      let fed = drop_last (pending ∷ p ∷ prop) in
      let n : length fed ≡ length (p ∷ prop) = length-drop_last_cons pending (p ∷ prop) in
      let whole : take acc (pending ∷ p ∷ prop) ≡ fed =
        sym (take-drop_last acc pending (p ∷ prop) fits)
        ∙ take_of_length-le acc fed (omega (arith, n, all)) in
      let tail_slots : slots_at (real_len - 1) fed
            ++ slots_at (real_len - 1 + length (p ∷ prop)) (last ∷ [])
          ≡ slots_at (real_len - 1) (pending ∷ p ∷ prop) =
        rw (← n) (sym (slots_at-append (real_len - 1) fed (last ∷ [])))
        ∙ ap (slots_at (real_len - 1)) (drop_last-append_last pending (p ∷ prop) last e_last) in
      rw (real_slots-masked, whole)
        (append_assoc (real_slots row) (slots_at (real_len - 1) fed) _
          ∙ ap (λ (l : CacheRow). real_slots row ++ l) tail_slots)

  -- The last proposal is real where all are accepted.
  real_slots-last :
      (last : ℕ)
      → real_slots (
          overwrite_mask
            (feed masked (real_len - 1 + length (p ∷ prop)) (last ∷ []))
            1
            ((acc == length (p ∷ prop)) ∷ []))
        ≡ real_slots masked
          ++ (if acc == length (p ∷ prop)
              then slots_at (real_len - 1 + length (p ∷ prop)) (last ∷ [])
              else [])
  unfolding real_slots write_bits slots_at
  real_slots-last last =
      ap real_slots (
        overwrite_mask-append masked (real_len - 1 + length (p ∷ prop)) (last ∷ []) 1
          ((acc == length (p ∷ prop)) ∷ []) refl)
      ∙ real_slots-append masked _
      ∙ ap (λ (l : CacheRow). real_slots masked ++ l) (ground arith)

-- Behind an iteration, on a row of a batch whose other rows accept as many proposals as they do:
-- where the row accepts all of its proposals, one at least, the draft sees what it saw before, the
-- pending token and all proposals. Where it accepts fewer, the draft sees one token less than the
-- target: the last accepted proposal is masked with the rejected ones, or, where none is accepted,
-- the pending token.
pub draft_row_lem :
    (row : CacheRow) (real_len pending p : ℕ) (prop : List ℕ) (acc : ℕ) (before after : List ℕ)
    → acc ≤ length (p ∷ prop)
    → (row' : CacheRow) × (draft_row row real_len pending
          (p ∷ prop)
          acc
          (any_full (length (p ∷ prop)) (before ++ acc ∷ after))
        ≡ some row')
      × (real_slots row'
          ≡ real_slots row
            ++ slots_at (real_len - 1) (
                if acc == length (p ∷ prop)
                then pending ∷ p ∷ prop
                else take acc (pending ∷ p ∷ prop)))
unfolding draft_row
draft_row_lem row real_len pending p prop acc before after fits =
    let (last, e_last) = get_last?-cons p prop in
    let full = any_full (length (p ∷ prop)) (before ++ acc ∷ after) in
    elim (Bool-cases (acc == length (p ∷ prop))) [
      | inl all ↦
          let acc_all = (==_iff acc (length (p ∷ prop))).0 all in
          let any : full ≡ true = rw acc_all (any_full-append (length (p ∷ prop)) before after) in
          (
            fed_last row real_len pending p prop acc fits last,
            rw (e_last, any),
            real_slots-last row real_len pending p prop acc fits last
                ∙ rw all (all_slots row real_len pending p prop acc fits last acc_all e_last),
          )
      | inr some_left ↦ elim (Bool-cases full) [
        | inl fed ↦ (
          fed_last row real_len pending p prop acc fits last,
          rw (e_last, fed),
          real_slots-last row real_len pending p prop acc fits last
              ∙ rw some_left
                  (append-nil _ ∙ real_slots-masked row real_len pending p prop acc fits),
        )
        | inr unfed ↦ (
          masked row real_len pending p prop acc fits,
          rw (e_last, unfed),
          real_slots-masked row real_len pending p prop acc fits ∙ rw some_left,
        )
      ]
    ]
