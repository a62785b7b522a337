-- ===== src/KvEager/Slots.antt =====
-- Appending to a row of the cache of benchmarks/e2e/serve_kv_eager.py, and masking its last slots.
use adapter_slots_plus_plus.Common.{
  ℕ, zero, suc, ◌+◌, ◌-◌, ◌≤◌, ◌<◌, ◌≡◌, ◌∙◌, sym, refl, ap, List, [], ◌∷◌, ◌++◌, append-nil, Bool,
  true, false, arith, length, length-append, take, ltb, leb, if◌then◌else◌, take_append_length,
  drop-append_length, append_snoc,
}
use adapter_slots_plus_plus.KvEager.{CacheRow, feed, write_bits, overwrite_mask, at_most, less_than}

-- The slots that attention sees.
unfoldable pub real_slots : CacheRow → CacheRow
real_slots [] = []
real_slots (s ∷ row) = let rest = real_slots row in if s.real then s ∷ rest else rest

-- Tokens at consecutive positions, all real.
unfoldable pub slots_at : ℕ → List ℕ → CacheRow
slots_at pos [] = []
slots_at pos (x ∷ xs) = record { token = x; pos = pos; real = true } ∷ slots_at (suc pos) xs

feed-slots_at : (row : CacheRow) (pos : ℕ) (xs : List ℕ) → feed row pos xs ≡ row ++ slots_at pos xs
unfolding feed slots_at
feed-slots_at row pos [] = sym (append-nil row)
feed-slots_at row pos (x ∷ xs) =
    feed-slots_at _ (suc pos) xs ∙ append_snoc row _ (slots_at (suc pos) xs)

length-slots_at : (pos : ℕ) (xs : List ℕ) → length (slots_at pos xs) ≡ length xs
unfolding slots_at
length-slots_at pos [] = refl
length-slots_at pos (x ∷ xs) = ap suc (length-slots_at (suc pos) xs)

pub real_slots-append :
    (row more : CacheRow) → real_slots (row ++ more) ≡ real_slots row ++ real_slots more
unfolding real_slots
real_slots-append [] more = refl
real_slots-append (s ∷ row) more = ground (arith, real_slots-append row more)

-- Overwriting the mask of the slots that were fed last.
pub overwrite_mask-append :
    (row : CacheRow) (pos : ℕ) (xs : List ℕ) (n : ℕ) (bits : List Bool)
    → length xs ≡ n
    → overwrite_mask (feed row pos xs) n bits ≡ row ++ write_bits (slots_at pos xs) bits
unfolding overwrite_mask
overwrite_mask-append row pos xs n bits e =
    let k : length (row ++ slots_at pos xs) - n ≡ length row =
      omega (arith, length-append {0} row (slots_at pos xs), length-slots_at pos xs, e) in
    rw (
      feed-slots_at row pos xs,
      k,
      take_append_length row (slots_at pos xs),
      drop-append_length row (slots_at pos xs),
    )

at_most-none :
    (acc j pos : ℕ) (xs : List ℕ)
    → acc < j
    → real_slots (write_bits (slots_at pos xs) (at_most acc j (length xs))) ≡ []
unfolding real_slots write_bits slots_at at_most
at_most-none acc j pos [] h = refl
at_most-none acc j pos (x ∷ xs) h =
    let off : leb j acc ≡ false = ground arith in
    rw off (at_most-none acc (suc j) (suc pos) xs (omega arith))

-- The first `k` slots are kept.
pub at_most-take :
    (acc j k pos : ℕ) (xs : List ℕ)
    → acc + 1 ≡ j + k
    → real_slots (write_bits (slots_at pos xs) (at_most acc j (length xs)))
      ≡ slots_at pos (take k xs)
unfolding real_slots write_bits slots_at at_most
at_most-take acc j zero pos xs h = at_most-none acc j pos xs (omega (arith, h))
at_most-take acc j (suc k) pos [] h = refl
at_most-take acc j (suc k) pos (x ∷ xs) h =
    let on : leb j acc ≡ true = ground (arith, h) in
    rw on (
      ap (◌∷◌ (record { token = x; pos = pos; real = true }))
        (at_most-take acc (suc j) k (suc pos) xs (omega (arith, h))))

less_than-none :
    (acc j pos : ℕ) (xs : List ℕ)
    → acc ≤ j
    → real_slots (write_bits (slots_at pos xs) (less_than acc j (length xs))) ≡ []
unfolding real_slots write_bits slots_at less_than
less_than-none acc j pos [] h = refl
less_than-none acc j pos (x ∷ xs) h =
    let off : ltb j acc ≡ false = ground arith in
    rw off (less_than-none acc (suc j) (suc pos) xs (omega arith))

-- The first `k` slots are kept.
pub less_than-take :
    (acc j k pos : ℕ) (xs : List ℕ)
    → acc ≡ j + k
    → real_slots (write_bits (slots_at pos xs) (less_than acc j (length xs)))
      ≡ slots_at pos (take k xs)
unfolding real_slots write_bits slots_at less_than
less_than-take acc j zero pos xs h = less_than-none acc j pos xs (omega (arith, h))
less_than-take acc j (suc k) pos [] h = refl
less_than-take acc j (suc k) pos (x ∷ xs) h =
    let on : ltb j acc ≡ true = ground (arith, h) in
    rw on (
      ap (◌∷◌ (record { token = x; pos = pos; real = true }))
        (less_than-take acc (suc j) k (suc pos) xs (omega (arith, h))))
