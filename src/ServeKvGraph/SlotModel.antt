-- ===== src/ServeKvGraph/SlotModel.antt =====
-- A model over a static cache that keeps the tokens themselves in its slots, from any next-token
-- function: it satisfies `IsStatic`.
use adapter_slots_plus_plus.Common.{
  ℕ, zero, false, ◌==◌, eq_refl, replicate, length-replicate, suc, ◌+◌, ◌≤◌, ◌≡◌, refl, ap, ◌∙◌,
  List, [], ◌∷◌, ◌++◌, Option, none, some, arith, length, take, drop, leb, le→leb, if◌then◌else◌,
  length-append, length-take, take_append_length,
}
use adapter_slots_plus_plus.Models.{logits_after}
use adapter_slots_plus_plus.ServeKvGraph.{StaticModel, IsStatic, arange}

-- At the slots from `n` on.
abbrev pub write_from : (List ℕ → ℕ) → ℕ → List ℕ → ℕ → List ℕ → Option (List ℕ × List ℕ)
write_from f max_cache xs n c =
    if leb (n + length xs) max_cache
    then some (logits_after f (take n c) xs, (take n c ++ xs) ++ drop (n + length xs) c)
    else none

-- One token several times, at slot `n`.
abbrev pub write_over : (List ℕ → ℕ) → ℕ → List ℕ → ℕ → List ℕ → Option (List ℕ × List ℕ)
write_over f max_cache [] n c = none
write_over f max_cache (x ∷ xs) n c =
    if leb (n + 1) max_cache
    then some (
      replicate (suc (length xs)) (f (take n c ++ x ∷ [])),
      (take n c ++ x ∷ []) ++ drop (n + 1) c,
    )
    else none

abbrev pub write_slots : (List ℕ → ℕ) → ℕ → List ℕ → List ℕ → List ℕ → Option (List ℕ × List ℕ)
write_slots f max_cache xs [] c = none
write_slots f max_cache xs (n ∷ []) c = write_from f max_cache xs n c
write_slots f max_cache xs (n ∷ k ∷ at) c =
    if n == k then write_over f max_cache xs n c else write_from f max_cache xs n c

abbrev pub slot_model : (List ℕ → ℕ) → ℕ → StaticModel
slot_model f max_cache = record {
  Logits = ℕ;
  Cache = List ℕ;
  argmax = λ l. l;
  forward = λ xs pos at c. write_slots f max_cache xs at c;
}

write_slots-arange :
    (f : List ℕ → ℕ) (max_cache x : ℕ) (xs : List ℕ) (n : ℕ) (c : List ℕ)
    → write_slots f max_cache (x ∷ xs) (arange n (suc (length xs))) c
      ≡ write_from f max_cache (x ∷ xs) n c
unfolding arange
write_slots-arange f max_cache x [] n c = refl
write_slots-arange f max_cache x (y ∷ xs) n c =
    let apart : (n == suc n) ≡ false = ground arith in rw apart refl

write_slots-replicate :
    (f : List ℕ → ℕ) (max_cache x k n : ℕ) (c : List ℕ)
    → n + 1 ≤ max_cache
    → write_slots f max_cache (replicate (suc k) x) (replicate (suc k) n) c
      ≡ some (replicate (suc k) (f (take n c ++ x ∷ [])), (take n c ++ x ∷ []) ++ drop (n + 1) c)
unfolding logits_after
write_slots-replicate f max_cache x zero n c fits = rw (le→leb (n + 1) max_cache fits) refl
write_slots-replicate f max_cache x (suc k) n c fits =
    rw (eq_refl n, le→leb (n + 1) max_cache fits, length-replicate k x) refl

-- What the slots hold behind a write at `n`.
holds_written :
    (n : ℕ) (c xs : List ℕ)
    → n ≤ length c
    → let c' = (take n c ++ xs) ++ drop (n + length xs) c in
      (length xs + n ≤ length c') × (take (n + length xs) c' ≡ take n c ++ xs)
holds_written n c xs full =
    let written = take n c ++ xs in
    let long : n + length xs ≡ length written =
      omega (arith, length-append {0} (take n c) xs, length-take {0} n c, full) in
    let rest = drop (n + length xs) c in
    (
      omega (arith, long, length-append {0} written rest),
      ap (λ k. take k (written ++ rest)) long ∙ take_append_length written rest,
    )

-- What `IsStatic` asks for.
pub write_slots_lem :
    (f : List ℕ → ℕ) (max_cache x : ℕ) (xs : List ℕ) (n : ℕ) (c : List ℕ)
    → n ≤ length c
    → n + suc (length xs) ≤ max_cache
    → (c' : List ℕ) × (write_slots f max_cache (x ∷ xs) (arange n (suc (length xs))) c
        ≡ some (logits_after f (take n c) (x ∷ xs), c'))
      × (suc (length xs) + n ≤ length c')
      × (take (n + suc (length xs)) c' ≡ take n c ++ x ∷ xs)
write_slots_lem f max_cache x xs n c full fits = (
  (take n c ++ x ∷ xs) ++ drop (n + suc (length xs)) c,
  write_slots-arange f max_cache x xs n c ∙ rw (le→leb (n + suc (length xs)) max_cache fits) refl,
  (holds_written n c (x ∷ xs) full).0,
  (holds_written n c (x ∷ xs) full).1,
)

pub write_slots_repeated :
    (f : List ℕ → ℕ) (max_cache x k n : ℕ) (c : List ℕ)
    → n ≤ length c
    → n + 1 ≤ max_cache
    → (c' : List ℕ) × (write_slots f max_cache (replicate (suc k) x) (replicate (suc k) n) c
        ≡ some (replicate (suc k) (f (take n c ++ x ∷ [])), c'))
      × (1 + n ≤ length c')
      × (take (n + 1) c' ≡ take n c ++ x ∷ [])
write_slots_repeated f max_cache x k n c full fits = (
  (take n c ++ x ∷ []) ++ drop (n + 1) c,
  write_slots-replicate f max_cache x k n c fits,
  (holds_written n c (x ∷ []) full).0,
  (holds_written n c (x ∷ []) full).1,
)

abbrev pub slot_model-IsStatic :
    (f : List ℕ → ℕ) (max_cache : ℕ) → IsStatic (slot_model f max_cache) max_cache
slot_model-IsStatic f max_cache = record {
  logits = f;
  slots = λ c. c;
  forward_lem = λ x xs n c full fits. write_slots_lem f max_cache x xs n c full fits;
  forward_repeated = λ x k n c full fits. write_slots_repeated f max_cache x k n c full fits;
}
