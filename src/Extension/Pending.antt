-- ===== src/Extension/Pending.antt =====
-- The stream of the prefetch engine: what its buffers will hold when every command has finished.
use adapter_slots_plus_plus.Common.{
  ℕ, ◌≤◌, le→ltb_false, ◌≡◌, ◌≢◌, refl, ◌∙◌, List, [], ◌∷◌, ◌++◌, some, true, false, ◌||◌, arith,
  ==_iff, eq_refl, ne→eq_false,
}
use adapter_slots_plus_plus.Extension.Cuda.{
  Buffer, a_buf, b_buf, Command, copy, record_event, Contents, same_buffer, finish, awaits,
  buffer_bytes,
}

unfoldable pub settle : List Command → Contents → Contents
settle [] held = held
settle (c ∷ cs) held = settle cs (finish c held)

pub settle-append :
    (cs ds : List Command) (held : Contents) → settle (cs ++ ds) held ≡ settle ds (settle cs held)
unfolding settle
settle-append [] ds held = refl
settle-append (c ∷ cs) ds held = settle-append cs ds (finish c held)

abbrev pub slot_of : Buffer → ℕ
slot_of (a_buf i) = i
slot_of (b_buf i) = i

-- Every copy fits its buffer, and behind every copy into a buffer of slot `i` the slot's event is
-- recorded.
abbrev pub IsFenced : ℕ → List Command → Type 0
IsFenced i [] = Unit
IsFenced i (copy src dst bytes ∷ cs) =
    (bytes ≤ buffer_bytes) × (slot_of dst ≡ i → awaits i cs ≡ true) × IsFenced i cs
IsFenced i (record_event j ∷ cs) = IsFenced i cs

same_buffer-slot_of : (b c : Buffer) → slot_of b ≢ slot_of c → same_buffer b c ≡ false
same_buffer-slot_of (a_buf i) (a_buf j) ne = ne→eq_false i j ne
same_buffer-slot_of (b_buf i) (b_buf j) ne = ne→eq_false i j ne
same_buffer-slot_of (a_buf i) (b_buf j) ne = refl
same_buffer-slot_of (b_buf i) (a_buf j) ne = refl

pub finish_other :
    (src bytes : ℕ) (dst b : Buffer) (held : Contents)
    → bytes ≤ buffer_bytes
    → slot_of dst ≢ slot_of b
    → finish (copy src dst bytes) held b ≡ held b
unfolding finish
finish_other src bytes dst b held fits ne =
    rw (le→ltb_false buffer_bytes bytes fits, same_buffer-slot_of dst b ne)

-- When a slot's event is not awaited, its buffers hold what they will hold.
pub settle-IsFenced :
    (i : ℕ) (cs : List Command) (held : Contents) (b : Buffer)
    → IsFenced i cs
    → awaits i cs ≡ false
    → slot_of b ≡ i
    → settle cs held b ≡ held b
unfolding settle awaits finish
settle-IsFenced i [] held b fenced done at = refl
settle-IsFenced i (copy src dst bytes ∷ cs) held b fenced done at =
    settle-IsFenced i cs (finish (copy src dst bytes) held) b fenced.2 done at
    ∙ finish_other src bytes dst b held fenced.0 (λ same. let h = fenced.1 (same ∙ at) in cc)
settle-IsFenced i (record_event j ∷ cs) held b fenced done at =
    let open_tail : awaits i cs ≡ false = ground arith in
    settle-IsFenced i cs (finish (record_event j) held) b fenced open_tail at ∙ refl

pub awaits-append :
    (i : ℕ) (cs ds : List Command) → awaits i (cs ++ ds) ≡ (awaits i cs || awaits i ds)
unfolding awaits
awaits-append i [] ds = refl
awaits-append i (copy src dst bytes ∷ cs) ds = awaits-append i cs ds
awaits-append i (record_event j ∷ cs) ds = ground (arith, awaits-append i cs ds)

-- The commands of a prefetch into slot `k`.
abbrev pub prefetch_commands : ℕ → ℕ → ℕ → ℕ → ℕ → List Command
prefetch_commands k a a_bytes b b_bytes =
    copy a (a_buf k) a_bytes ∷ copy b (b_buf k) b_bytes ∷ record_event k ∷ []

pub IsFenced-prefetch_commands :
    (i k a a_bytes b b_bytes : ℕ) (cs : List Command)
    → a_bytes ≤ buffer_bytes
    → b_bytes ≤ buffer_bytes
    → IsFenced i cs
    → IsFenced i (cs ++ prefetch_commands k a a_bytes b b_bytes)
unfolding awaits
IsFenced-prefetch_commands i k a a_bytes b b_bytes [] fits_a fits_b fenced =
    (fits_a, λ e. rw ((==_iff k i).1 e), (fits_b, λ e. rw ((==_iff k i).1 e), tt))
IsFenced-prefetch_commands i k a a_bytes b b_bytes (copy src dst bytes ∷ cs) fits_a fits_b fenced =
    (
      fenced.0,
      λ e.
          let h = fenced.1 e in
          rw (awaits-append i cs (prefetch_commands k a a_bytes b b_bytes), h),
      IsFenced-prefetch_commands i k a a_bytes b b_bytes cs fits_a fits_b fenced.2,
    )
IsFenced-prefetch_commands i k a a_bytes b b_bytes (record_event j ∷ cs) fits_a fits_b fenced =
    IsFenced-prefetch_commands i k a a_bytes b b_bytes cs fits_a fits_b fenced

pub settle-prefetch_commands_self :
    (k a a_bytes b b_bytes : ℕ) (held : Contents)
    → a_bytes ≤ buffer_bytes
    → b_bytes ≤ buffer_bytes
    → let after = settle (prefetch_commands k a a_bytes b b_bytes) held in
      (after (a_buf k) ≡ some (a, a_bytes)) × (after (b_buf k) ≡ some (b, b_bytes))
unfolding settle finish
settle-prefetch_commands_self k a a_bytes b b_bytes held fits_a fits_b =
    let whole_a = le→ltb_false buffer_bytes a_bytes fits_a in
    let whole_b = le→ltb_false buffer_bytes b_bytes fits_b in
    (rw (whole_a, whole_b, eq_refl k), rw (whole_b, eq_refl k))

pub settle-prefetch_commands_other :
    (k a a_bytes b b_bytes : ℕ) (held : Contents) (c : Buffer)
    → a_bytes ≤ buffer_bytes
    → b_bytes ≤ buffer_bytes
    → k ≢ slot_of c
    → settle (prefetch_commands k a a_bytes b b_bytes) held c ≡ held c
unfolding settle finish
settle-prefetch_commands_other k a a_bytes b b_bytes held c fits_a fits_b ne =
    finish_other b b_bytes (b_buf k) c (finish (copy a (a_buf k) a_bytes) held) fits_b ne
    ∙ finish_other a a_bytes (a_buf k) c held fits_a ne

pub IsFenced-tail : (i : ℕ) (c : Command) (cs : List Command) → IsFenced i (c ∷ cs) → IsFenced i cs
IsFenced-tail i (copy src dst bytes) cs fenced = fenced.2
IsFenced-tail i (record_event j) cs fenced = fenced
