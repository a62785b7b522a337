-- ===== src/Multitenant/RowModel.antt =====
-- A batched model that reads each row by its mask, from any next-token function: it satisfies
-- `IsRagged`.
use adapter_slots_plus_plus.Common.{
  ℕ, zero, suc, ◌-◌, ◌≡◌, refl, ap, arith, List, [], ◌∷◌, ◌++◌, map, length, replicate,
}
use adapter_slots_plus_plus.Models.{logits_after}
use adapter_slots_plus_plus.Multitenant.{BatchedModel, pad_ids, pad_mask, max_length}
use adapter_slots_plus_plus.Multitenant.Padding.{IsRagged, Reads, with_none, with_adapters}

abbrev pub read_row : (List ℕ → ℕ) → List ℕ → List ℕ → List ℕ → List ℕ
read_row f ctx (x ∷ ids) (zero ∷ mask) = f [] ∷ read_row f ctx ids mask
read_row f ctx (x ∷ ids) (suc b ∷ mask) = f (ctx ++ x ∷ []) ∷ read_row f (ctx ++ x ∷ []) ids mask
read_row f ctx _ _ = []

abbrev pub read_rows : (List ℕ → ℕ) → List (List ℕ) → List (List ℕ) → List (List ℕ)
read_rows f (r ∷ ids) (b ∷ mask) = read_row f [] r b ∷ read_rows f ids mask
read_rows f _ _ = []

abbrev pub row_model : (List ℕ → ℕ) → BatchedModel
row_model f = record {
  Logits = ℕ;
  argmax = λ l. l;
  forward = λ mode ids mask pos. read_rows f ids mask;
}

read_real :
    (f : List ℕ → ℕ) (ctx r : List ℕ)
    → read_row f ctx r (replicate (length r) 1) ≡ logits_after f ctx r
unfolding logits_after
read_real f ctx [] = refl
read_real f ctx (x ∷ r) = ap (◌∷◌ (f (ctx ++ x ∷ []))) (read_real f (ctx ++ x ∷ []) r)

read_padded :
    (f : List ℕ → ℕ) (pad_id k : ℕ) (r : List ℕ)
    → read_row f [] (replicate k pad_id ++ r) (replicate k 0 ++ replicate (length r) 1)
      ≡ replicate k (f []) ++ logits_after f [] r
read_padded f pad_id zero r = read_real f [] r
read_padded f pad_id (suc k) r = ap (◌∷◌ (f [])) (read_padded f pad_id k r)

pub read_rows-none :
    (f : List ℕ → ℕ) (pad_id s : ℕ) (rows : List (List ℕ))
    → Reads
        (λ a. f)
        (read_rows f (map (pad_ids pad_id s) rows) (map (pad_mask s) rows))
        (with_none rows)
unfolding pad_ids pad_mask
read_rows-none f pad_id s [] = tt
read_rows-none f pad_id s (r ∷ rows) = (
  (replicate (s - length r) (f []), read_padded f pad_id (s - length r) r),
  read_rows-none f pad_id s rows,
)

pub read_rows-adapters :
    (f : List ℕ → ℕ) (pad_id s : ℕ) (adapter : List ℕ) (rows : List (List ℕ))
    → length adapter ≡ length rows
    → Reads
        (λ a. f)
        (read_rows f (map (pad_ids pad_id s) rows) (map (pad_mask s) rows))
        (with_adapters adapter rows)
unfolding pad_ids pad_mask
read_rows-adapters f pad_id s [] [] h = tt
read_rows-adapters f pad_id s [] (r ∷ rows) h = absurd (cc)
read_rows-adapters f pad_id s (a ∷ adapter) [] h = absurd (cc)
read_rows-adapters f pad_id s (a ∷ adapter) (r ∷ rows) h = (
  (replicate (s - length r) (f []), read_padded f pad_id (s - length r) r),
  read_rows-adapters f pad_id s adapter rows (omega (arith, h)),
)

abbrev pub row_model-IsRagged : (f : List ℕ → ℕ) (pad_id : ℕ) → IsRagged (row_model f) pad_id
row_model-IsRagged f pad_id = record {
  logits = λ a. f;
  forward_base = λ rows. read_rows-none f pad_id (max_length rows) rows;
  forward_lora = λ adapter rows h. read_rows-adapters f pad_id (max_length rows) adapter rows h;
}
