-- ===== src/Punica/Grid.antt =====
-- Which tokens the shrink and expand kernels of csrc/kernels/warp_pipe_r32.cu visit: their grid has a
-- block for each segment and each of its first chunks of tokens.
use adapter_slots_plus_plus.Common.{
  ℕ, zero, suc, ◌+◌, ◌-◌, ◌*◌, ◌/◌, ◌≤◌, min, ◌≡◌, refl, ap, ap₂, sym, ◌∙◌, inl, inr, List, [], ◌∷◌,
  ◌++◌, Option, none, some, arith, take, Bool-cases,
}
use adapter_slots_plus_plus.Punica.Kernel.{
  Segment, Index, max_segments, max_segment_tokens, emit, thread, threads, is_run_start,
  build_seg_bounds_kernel,
}
use adapter_slots_plus_plus.Punica.Bounds.{run_rows, run_rows-add, run_rows-start, rows}

-- WP_TOKEN_CHUNK and WP_MAX_CHUNKS_PER_SEGMENT
abbrev pub token_chunk : ℕ
token_chunk = 4

abbrev pub max_chunks : ℕ
max_chunks = (max_segment_tokens + token_chunk - 1) / token_chunk

-- The blocks of a segment from chunk `c` on, `k` of them.
unfoldable pub chunks : Segment → ℕ → ℕ → List (ℕ × ℕ)
unfolding run_rows
chunks s c zero = []
chunks s c (suc k) =
    run_rows s.adapter_id (s.token_start + c * token_chunk)
      (min token_chunk (s.token_count - c * token_chunk))
    ++ chunks s (suc c) k

-- The tokens that the grid visits, each with its segment's adapter.
unfoldable pub visited : List Segment → List (ℕ × ℕ)
unfolding chunks
visited [] = []
visited (s ∷ segments) = chunks s 0 max_chunks ++ visited segments

-- No segment has more tokens than the grid has room for.
abbrev AllShort : List Segment → Type 0
AllShort [] = Unit
AllShort (s ∷ segments) = (s.token_count ≤ max_segment_tokens) × AllShort segments

chunks-rows :
    (s : Segment) (c k : ℕ)
    → s.token_count ≤ (c + k) * token_chunk
    → chunks s c k
      ≡ run_rows s.adapter_id (s.token_start + c * token_chunk) (s.token_count - c * token_chunk)
unfolding chunks run_rows
chunks-rows s c zero h =
    let over : s.token_count - c * token_chunk ≡ 0 = omega (arith, h) in rw over refl
chunks-rows s c (suc k) h =
    let a = s.adapter_id in
    let i = s.token_start + c * token_chunk in
    let here = min token_chunk (s.token_count - c * token_chunk) in
    let left = s.token_count - suc c * token_chunk in
    let split : s.token_count - c * token_chunk ≡ here + left = omega arith in
    ap (◌++◌ (run_rows a i here)) (
      chunks-rows s (suc c) k (omega (arith, h))
      ∙ run_rows-start a (s.token_start + suc c * token_chunk) (i + here) left
          (λ more. omega arith))
    ∙ sym (ap (run_rows a i) split ∙ run_rows-add a i here left)

visited-rows : (segments : List Segment) → AllShort segments → visited segments ≡ rows segments
unfolding visited rows
visited-rows [] short = refl
visited-rows (s ∷ segments) (h, short) =
    ap₂ ◌++◌ (chunks-rows s 0 max_chunks (omega (arith, h)) ∙ from_start)
      (visited-rows segments short)
  where
    from_start :
        run_rows s.adapter_id (s.token_start + 0 * token_chunk) (s.token_count - 0 * token_chunk)
        ≡ run_rows s.adapter_id s.token_start s.token_count
    from_start = ap₂ (run_rows s.adapter_id) (omega arith) (omega arith)

append-AllShort : (s t : List Segment) → AllShort s → AllShort t → AllShort (s ++ t)
append-AllShort [] t hs ht = ht
append-AllShort (x ∷ s) t (h, hs) ht = (h, append-AllShort s t hs ht)

take-AllShort : (n : ℕ) (s : List Segment) → AllShort s → AllShort (take n s)
take-AllShort zero s h = tt
take-AllShort (suc n) [] h = tt
take-AllShort (suc n) (x ∷ s) (h, hs) = (h, take-AllShort n s hs)

emit-AllShort : (a i run_len s k : ℕ) → AllShort (emit a i run_len s k)
unfolding emit
emit-AllShort a i run_len s zero = tt
emit-AllShort a i run_len s (suc k) = (omega arith, emit-AllShort a i run_len (suc s) k)

threads-AllShort :
    (before : Option Index) (i : ℕ) (indices : List Index) → AllShort (threads before i indices)
unfolding threads thread
threads-AllShort before i [] = tt
threads-AllShort before i (none ∷ indices) = threads-AllShort (some none) (suc i) indices
threads-AllShort before i (some a ∷ indices) =
    let rest = threads-AllShort (some (some a)) (suc i) indices in
    elim (Bool-cases (is_run_start before (some a))) [
      | inl starts ↦ rw starts (append-AllShort _ _ (emit-AllShort a i _ 0 _) rest)
      | inr other ↦ rw other rest
    ]

-- The grid visits every token of every segment that the kernel before it has built.
pub visited-build_seg_bounds_kernel :
    (indices : List Index)
    → visited (build_seg_bounds_kernel indices) ≡ rows (build_seg_bounds_kernel indices)
unfolding build_seg_bounds_kernel
visited-build_seg_bounds_kernel indices =
    visited-rows (build_seg_bounds_kernel indices)
      (take-AllShort max_segments (threads none 0 indices) (threads-AllShort none 0 indices))
