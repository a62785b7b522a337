-- ===== src/Extension/Cuda.antt =====
-- What the prefetch engine uses of CUDA, which is not part of the repository: one stream, whose
-- commands finish in the order in which they were issued, and events recorded on it.
use adapter_slots_plus_plus.Common.{
  ℕ, ◌*◌, ltb, none, ◌≡◌, List, [], ◌∷◌, ◌++◌, Option, some, Bool, false, not, ◌||◌, ◌==◌,
  if◌then◌else◌,
}

-- The device buffers of a slot of the staging pool.
pub data Buffer : Type 0 where
  a_buf : ℕ → Buffer
  b_buf : ℕ → Buffer

-- A copy of so many bytes from a device pointer, and `cudaEventRecord` on a slot's event.
pub data Command : Type 0 where
  copy : ℕ → Buffer → ℕ → Command
  record_event : ℕ → Command

-- WP_STAGING_RANK * WP_STAGING_MAX_DMODEL halves: the bytes that `cudaMalloc` gave each buffer.
abbrev pub buffer_bytes : ℕ
buffer_bytes = 32 * 8192 * 2

-- What a buffer holds, where that is known: the device pointer that the last copy read, and its bytes.
abbrev pub Contents : Type 0
Contents = Buffer → Option (ℕ × ℕ)

abbrev pub same_buffer : Buffer → Buffer → Bool
same_buffer (a_buf i) (a_buf j) = i == j
same_buffer (b_buf i) (b_buf j) = i == j
same_buffer (a_buf i) (b_buf j) = false
same_buffer (b_buf i) (a_buf j) = false

-- The contents when a command has finished. A copy past the end of its buffer writes to whatever is
-- there, and no buffer's contents are known behind it.
unfoldable pub finish : Command → Contents → Contents
finish (copy src dst bytes) held b =
    if ltb buffer_bytes bytes
    then none
    else (if same_buffer dst b then some (src, bytes) else held b)
finish (record_event i) held b = held b

-- The event of a slot is recorded by a command that has yet to finish.
unfoldable pub awaits : ℕ → List Command → Bool
awaits i [] = false
awaits i (copy src dst bytes ∷ commands) = awaits i commands
awaits i (record_event j ∷ commands) = j == i || awaits i commands

pub record Cuda : Type 1 where
  pub Device : Type 0
  -- The address that `cudaMalloc` gave a buffer.
  pub address : Buffer → ℕ
  -- A device on which the stream has no commands.
  pub idle : Device
  -- A command issued on the stream.
  pub issue : Command → Device → Device
  -- `cudaEventQuery(event) == cudaSuccess`
  pub event_query : Device → ℕ → Bool
  -- The device finishes the oldest command.
  pub progress : Device → Device
  -- The commands issued and not finished, the oldest first.
  pub pending : Device → List Command
  pub held : Device → Contents
  pub pending-idle : pending idle ≡ []
  pub pending-issue : (c : Command) (d : Device) → pending (issue c d) ≡ pending d ++ c ∷ []
  pub held-issue : (c : Command) (d : Device) → held (issue c d) ≡ held d
  -- An event's status is that of the commands up to its last record.
  pub event_query_lem : (d : Device) (i : ℕ) → event_query d i ≡ not (awaits i (pending d))
  pub progress_idle : (d : Device) → pending d ≡ [] → progress d ≡ d
  pub pending-progress :
      (d : Device) (c : Command) (cs : List Command)
      → pending d ≡ c ∷ cs
      → pending (progress d) ≡ cs
  pub held-progress :
      (d : Device) (c : Command) (cs : List Command)
      → pending d ≡ c ∷ cs
      → held (progress d) ≡ finish c (held d)
