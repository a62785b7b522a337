-- ===== src/Punica/Kernel.antt =====
-- The segment table of a decode step: `build_seg_bounds_kernel` of csrc/kernels/warp_pipe_r32.cu.
-- Its threads run at once; here they are a list, in the order of the slots that the prefix sum
-- gives them. A negative index, a token with no adapter, is `none`.
use adapter_slots_plus_plus.Common.{
  ℕ, zero, suc, ◌+◌, ◌-◌, ◌*◌, ◌/◌, min, List, [], ◌∷◌, ◌++◌, Option, none, some, Bool, true, false,
  take, ◌==◌, if◌then◌else◌,
}

-- WP_MAX_SEGMENTS and WP_MAX_SEGMENT_TOKENS
abbrev pub max_segments : ℕ
max_segments = 256

abbrev pub max_segment_tokens : ℕ
max_segment_tokens = 32

-- The fields that the kernel writes.
pub record Segment : Type 0 where
  pub adapter_id : ℕ
  pub token_start : ℕ
  pub token_count : ℕ

abbrev pub Index : Type 0
Index = Option ℕ

unfoldable pub same_index : Index → Index → Bool
same_index none none = true
same_index none (some b) = false
same_index (some a) none = false
same_index (some a) (some b) = a == b

-- `while (… && token_lora_indices[i + run_len] == my_idx) run_len++`
unfoldable pub run_length : Index → List Index → ℕ
run_length my_idx [] = 0
run_length my_idx (x ∷ indices) =
    let rest = run_length my_idx indices in if same_index x my_idx then suc rest else 0

-- The loop over a thread's own segments, from the one with number `s`, with `k` left.
unfoldable pub emit : ℕ → ℕ → ℕ → ℕ → ℕ → List Segment
emit my_idx i run_len s zero = []
emit my_idx i run_len s (suc k) =
    record {
      adapter_id = my_idx;
      token_start = i + s * max_segment_tokens;
      token_count = min max_segment_tokens (run_len - s * max_segment_tokens);
    }
    ∷ emit my_idx i run_len (suc s) k

-- `i == 0 || token_lora_indices[i - 1] != my_idx`
unfoldable pub is_run_start : Option Index → Index → Bool
is_run_start none my_idx = true
is_run_start (some before) my_idx = if same_index before my_idx then false else true

-- The thread of token `i`, from the index before it, its own, and the ones behind it.
unfoldable pub thread : Option Index → ℕ → Index → List Index → List Segment
unfolding run_length emit is_run_start
thread before i none indices = []
thread before i (some my_idx) indices =
    let run_len = suc (run_length (some my_idx) indices) in
    if is_run_start before (some my_idx)
    then emit my_idx i run_len 0 ((run_len + max_segment_tokens - 1) / max_segment_tokens)
    else []

unfoldable pub threads : Option Index → ℕ → List Index → List Segment
threads before i [] = []
threads before i (x ∷ indices) = thread before i x indices ++ threads (some x) (suc i) indices

-- Slots past the end of the table are not written.
unfoldable pub build_seg_bounds_kernel : List Index → List Segment
build_seg_bounds_kernel indices = take max_segments (threads none 0 indices)
