-- ===== src/Tests/Gpu.antt =====
-- A GPU with one stream as a queue, and an extension on it whose only adapter is prefetched.
use adapter_slots_plus_plus.Common.{
  arith, none, ℕ, ◌+◌, ◌≡◌, refl, List, [], ◌∷◌, ◌++◌, some, true, not,
}
use adapter_slots_plus_plus.Extension.Cuda.{
  Cuda, Buffer, a_buf, b_buf, Command, Contents, finish, awaits,
}
use adapter_slots_plus_plus.Extension.Store.{Entry, lookup, assign_entry, evict}
use adapter_slots_plus_plus.Extension.Store
use adapter_slots_plus_plus.Extension.Staging.{find_slot_for_adapter}
use adapter_slots_plus_plus.Extension.Extension.{
  WarpPipeExtension, Tensor, entry_of, new_extension, register_adapter, prefetch_adapter,
}
use adapter_slots_plus_plus.Extension.Prefetched.{
  registers, prefetches, Fits, advances, Reach, here, next, advance,
}

abbrev pub Gpu : Type 0
Gpu = List Command × Contents

abbrev pub issued : Command → Gpu → Gpu
issued c (queue, held) = (queue ++ c ∷ [], held)

abbrev pub finished : Gpu → Gpu
finished ([], held) = ([], held)
finished (c ∷ queue, held) = (queue, finish c held)

abbrev pub address_of : Buffer → ℕ
address_of (a_buf i) = 0x100000 + i
address_of (b_buf i) = 0x200000 + i

pub finished_idle : (d : Gpu) → d.0 ≡ [] → finished d ≡ d
finished_idle ([], held) e = refl
finished_idle (c ∷ queue, held) e = cc

pub queue-finished :
    (d : Gpu) (c : Command) (cs : List Command) → d.0 ≡ c ∷ cs → (finished d).0 ≡ cs
queue-finished ([], held) c cs e = cc
queue-finished (b ∷ queue, held) c cs e = cc

pub held-finished :
    (d : Gpu) (c : Command) (cs : List Command) → d.0 ≡ c ∷ cs → (finished d).1 ≡ finish c d.1
held-finished ([], held) c cs e = cc
held-finished (b ∷ queue, held) c cs e = let same : b ≡ c = cc in rw same

abbrev pub gpu : Cuda
gpu = record {
  Device = Gpu;
  address = address_of;
  idle = ([], λ b. none);
  issue = issued;
  event_query = λ d i. not (awaits i d.0);
  progress = finished;
  pending = λ d. d.0;
  held = λ d. d.1;
  pending-idle = refl;
  pending-issue = λ c d. refl;
  held-issue = λ c d. refl;
  event_query_lem = λ d i. refl;
  progress_idle = finished_idle;
  pending-progress = queue-finished;
  held-progress = held-finished;
}

abbrev pub matrix : ℕ → ℕ → ℕ → Tensor
matrix ptr rows columns = record {
  data_ptr = ptr;
  rows = rows;
  columns = columns;
  is_cuda_half_contiguous = true;
}

abbrev pub fresh : WarpPipeExtension gpu ℕ
fresh = new_extension gpu ℕ 0

abbrev pub entry : Entry ℕ
entry = entry_of gpu ℕ (matrix 4096 32 64) (matrix 8192 128 32) 32 2

-- Adapter 7 is registered, with rank 32.
abbrev pub registered : WarpPipeExtension gpu ℕ
registered = record fresh { store = (7, entry) ∷ [] }

registered_lem :
    register_adapter gpu ℕ fresh 7 (matrix 4096 32 64) (matrix 8192 128 32) 32 2 ≡ some registered
unfolding register_adapter Store.register_adapter assign_entry
registered_lem = refl

-- Its copies are issued, and then finished.
abbrev pub copying : WarpPipeExtension gpu ℕ
copying = (prefetch_adapter gpu ℕ registered 7).0

abbrev pub drained : WarpPipeExtension gpu ℕ
drained = advance gpu (advance gpu (advance gpu copying))

unstaged : find_slot_for_adapter fresh.slots 7 ≡ none
unfolding find_slot_for_adapter
unstaged = refl

entry-Fits : Fits entry
entry-Fits = (omega arith, omega arith)

pub drained-Reach : Reach gpu Fits (new_extension gpu ℕ 0) drained
drained-Reach =
    next
      (next
        (next
          (next
            (next here (
              registers 7 (matrix 4096 32 64) (matrix 8192 128 32) 32 2 unstaged entry-Fits
                registered_lem))
            (prefetches 7))
          advances)
        advances)
      advances
