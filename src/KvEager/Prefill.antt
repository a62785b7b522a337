-- ===== src/KvEager/Prefill.antt =====
-- What the target sees behind `KVBatch.prefill` (benchmarks/e2e/serve_kv_eager.py).
use adapter_slots_plus_plus.Common.{
  ℕ, zero, suc, ◌+◌, ◌-◌, ◌<◌, ◌≡◌, ◌∙◌, sym, refl, ap, List, [], ◌∷◌, ◌++◌, append_assoc, some,
  true, false, arith, length, length-append, replicate, drop_last, drop_last-snoc, get_last?,
  get_last?-snoc, snoc-cases,
}
use adapter_slots_plus_plus.Multitenant.{positions, pad_ids, pad_mask}
use adapter_slots_plus_plus.Serving.{Kind}
use adapter_slots_plus_plus.KvEager.{CacheRow, CacheSlot}
use adapter_slots_plus_plus.KvEager.Slots.{real_slots, slots_at}
use adapter_slots_plus_plus.KvEager.Masks.{slots_at-append}
use adapter_slots_plus_plus.KvEager.Iter.{KvRow}
use adapter_slots_plus_plus.KvEager.Target.{Sees}
use adapter_slots_plus_plus.KvEager.Run.{slots_of, prefill_row, start_row, start_draft}

-- A padding slot.
abbrev padding : ℕ → CacheSlot
padding pad_id = record { token = pad_id; pos = 0; real = false }

slots_of-padding :
    (pad_id k : ℕ) (ids mask : List ℕ)
    → slots_of
        (replicate k pad_id ++ ids)
        (replicate k 0 ++ mask)
        (positions 0 (replicate k 0 ++ mask))
      ≡ replicate k (padding pad_id) ++ slots_of ids mask (positions 0 mask)
unfolding slots_of positions
slots_of-padding pad_id zero ids mask = refl
slots_of-padding pad_id (suc k) ids mask =
    ap (◌∷◌ (padding pad_id)) (slots_of-padding pad_id k ids mask)

slots_of-slots_at :
    (n : ℕ) (xs : List ℕ)
    → slots_of xs (replicate (length xs) 1) (positions n (replicate (length xs) 1)) ≡ slots_at n xs
unfolding slots_of positions slots_at
slots_of-slots_at n [] = refl
slots_of-slots_at n (x ∷ xs) =
    let here : n + 1 - 1 ≡ n = omega arith in
    let after : n + 1 ≡ suc n = omega arith in
    rw (here, after)
      (ap (◌∷◌ (record { token = x; pos = n; real = true })) (slots_of-slots_at (suc n) xs))

real_slots-padding :
    (pad_id k : ℕ) (row : CacheRow)
    → real_slots (replicate k (padding pad_id) ++ row) ≡ real_slots row
unfolding real_slots
real_slots-padding pad_id zero row = refl
real_slots-padding pad_id (suc k) row = real_slots-padding pad_id k row

real_slots-slots_at : (pos : ℕ) (xs : List ℕ) → real_slots (slots_at pos xs) ≡ slots_at pos xs
unfolding real_slots slots_at
real_slots-slots_at pos [] = refl
real_slots-slots_at pos (x ∷ xs) =
    ap (◌∷◌ (record { token = x; pos = pos; real = true })) (real_slots-slots_at (suc pos) xs)

-- The padding stays unseen, whatever the width.
prefill_row-slots_at :
    (pad_id s : ℕ) (xs : List ℕ) (y : ℕ)
    → real_slots (prefill_row pad_id s (xs ++ y ∷ [])) ≡ slots_at 0 xs
unfolding prefill_row pad_ids pad_mask slots_at
prefill_row-slots_at pad_id s xs y =
    let p = xs ++ y ∷ [] in
    let k = s - length p in
    let pads = replicate k (padding pad_id) in
    ap (λ l. real_slots (drop_last l))
      (slots_of-padding pad_id k p (replicate (length p) 1)
        ∙ ap (λ (l : CacheRow). pads ++ l) (slots_of-slots_at 0 p ∙ slots_at-append 0 xs (y ∷ []))
        ∙ sym (append_assoc pads (slots_at 0 xs) _))
    ∙ ap real_slots (drop_last-snoc (pads ++ slots_at 0 xs) _)
    ∙ real_slots-padding pad_id k (slots_at 0 xs)
    ∙ real_slots-slots_at 0 xs

-- A row starts with its prompt: all tokens but the last are seen, and the last is pending.
pub start_row-Sees :
    (kind : Kind) (pad_id s : ℕ) (p : List ℕ)
    → 0 < length p
    → (r : KvRow) × (done : List ℕ) × (start_row kind pad_id s p ≡ some r)
      × (done ++ r.pending ∷ [] ≡ p)
      × Sees r done
unfolding start_row
start_row-Sees kind pad_id s [] h = absurd (omega arith)
start_row-Sees kind pad_id s (x ∷ xs) h =
    let (zs, y, e) = snoc-cases x xs in
    let p = x ∷ xs in
    let last : get_last? p ≡ some y = ap get_last? e ∙ get_last?-snoc zs y in
    (
      record {
        target = prefill_row pad_id s p;
        draft = start_draft kind (prefill_row pad_id s p);
        real_len = length p;
        pending = y;
      },
      zs,
      rw last refl,
      sym e,
      (
        ap (λ l. real_slots (prefill_row pad_id s l)) e ∙ prefill_row-slots_at pad_id s zs y,
        omega (arith, ap length e, length-append {0} zs (y ∷ [])),
      ),
    )
