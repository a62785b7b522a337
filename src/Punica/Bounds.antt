-- ===== src/Punica/Bounds.antt =====
-- The table names each token with an adapter exactly once, under its adapter.
use adapter_slots_plus_plus.Common.{
  ℕ, zero, suc, ◌+◌, ◌-◌, ◌*◌, ◌/◌, ◌≤◌, ◌<◌, min, ◌≡◌, refl, ap, ap₂, subst, sym, ◌∙◌, inl, inr,
  List, [], ◌∷◌, ◌++◌, append_assoc, Option, none, some, true, false, arith, length, length-append,
  take_of_length-le, ==_iff, eq_refl, if◌then◌else◌, Bool-cases,
}
use adapter_slots_plus_plus.Punica.Kernel.{
  Segment, Index, same_index, run_length, emit, is_run_start, thread, threads,
  build_seg_bounds_kernel, max_segments,
}

-- `n` tokens from `i` on, each with the adapter `a`.
unfoldable pub run_rows : ℕ → ℕ → ℕ → List (ℕ × ℕ)
run_rows a i zero = []
run_rows a i (suc n) = (i, a) ∷ run_rows a (suc i) n

-- The tokens that the segments name, each with its adapter, in order.
unfoldable pub rows : List Segment → List (ℕ × ℕ)
rows [] = []
rows (s ∷ segments) = run_rows s.adapter_id s.token_start s.token_count ++ rows segments

-- The tokens that have an adapter, each with its own, in order, from the token `i` on.
unfoldable pub tagged : ℕ → List Index → List (ℕ × ℕ)
tagged i [] = []
tagged i (none ∷ indices) = tagged (suc i) indices
tagged i (some a ∷ indices) = (i, a) ∷ tagged (suc i) indices

-- The same without the leading tokens of the run of `x`.
unfoldable after_run : Index → ℕ → List Index → List (ℕ × ℕ)
after_run x i [] = []
after_run x i (y ∷ indices) =
    let rest = after_run x (suc i) indices in
    if same_index y x then rest else tagged i (y ∷ indices)

same_index→≡ : (x y : Index) → same_index x y ≡ true → x ≡ y
unfolding same_index
same_index→≡ none none h = refl
same_index→≡ none (some b) h = absurd (cc)
same_index→≡ (some a) none h = absurd (cc)
same_index→≡ (some a) (some b) h = ap some ((==_iff a b).0 h)

rows-append : (s t : List Segment) → rows (s ++ t) ≡ rows s ++ rows t
unfolding rows
rows-append [] t = refl
rows-append (x ∷ s) t =
    ap (λ l. run_rows x.adapter_id x.token_start x.token_count ++ l) (rows-append s t)
    ∙ sym (append_assoc (run_rows x.adapter_id x.token_start x.token_count) (rows s) (rows t))

-- It does not matter where no tokens start.
pub run_rows-start : (a i j n : ℕ) → (0 < n → i ≡ j) → run_rows a i n ≡ run_rows a j n
unfolding run_rows
run_rows-start a i j zero h = refl
run_rows-start a i j (suc n) h = ap (λ k. run_rows a k (suc n)) (h (omega arith))

run_rows-congr : (a i j n m : ℕ) → i ≡ j → n ≡ m → run_rows a i n ≡ run_rows a j m
run_rows-congr a i j n m = ap₂ (run_rows a)

length-run_rows : (a i n : ℕ) → length (run_rows a i n) ≡ n
unfolding run_rows
length-run_rows a i zero = refl
length-run_rows a i (suc n) = ap suc (length-run_rows a (suc i) n)

pub run_rows-add : (a i n m : ℕ) → run_rows a i (n + m) ≡ run_rows a i n ++ run_rows a (i + n) m
unfolding run_rows
run_rows-add a i zero m =
    let e : 0 + m ≡ m = omega arith in
    ap (run_rows a i) e ∙ run_rows-start a i (i + 0) m (λ some_left. omega arith)
run_rows-add a i (suc n) m =
    let sum : suc n + m ≡ suc (n + m) = omega arith in
    let e : suc i + n ≡ i + suc n = omega arith in
    ap (run_rows a i) sum
    ∙ ap (◌∷◌ (i, a))
        (run_rows-add a (suc i) n m ∙ ap (λ k. run_rows a (suc i) n ++ run_rows a k m) e)

-- A thread's segments are its run, cut up.
rows-emit :
    (a i n s k : ℕ)
    → k ≡ (n - s * 32 + 31) / 32
    → rows (emit a i n s k) ≡ run_rows a (i + s * 32) (n - s * 32)
unfolding rows emit run_rows
rows-emit a i n s zero e =
    let done : n - s * 32 ≡ 0 = omega (arith, e) in ap (run_rows a (i + s * 32)) (sym done)
rows-emit a i n s (suc k) e =
    let more : k ≡ (n - suc s * 32 + 31) / 32 = omega (arith, e) in
    let size : min 32 (n - s * 32) + (n - suc s * 32) ≡ n - s * 32 = omega arith in
    let next : run_rows a (i + suc s * 32) (n - suc s * 32)
        ≡ run_rows a (i + s * 32 + min 32 (n - s * 32)) (n - suc s * 32) =
      run_rows-start a _ _ (n - suc s * 32) (λ some_left. omega arith) in
    ap (λ l. run_rows a (i + s * 32) (min 32 (n - s * 32)) ++ l)
      (rows-emit a i n (suc s) k more ∙ next)
    ∙ sym (run_rows-add a (i + s * 32) (min 32 (n - s * 32)) (n - suc s * 32))
    ∙ ap (run_rows a (i + s * 32)) size

-- The run of an index, and then the rest.
tagged-run :
    (a i : ℕ) (indices : List Index)
    → tagged i indices ≡ run_rows a i (run_length (some a) indices) ++ after_run (some a) i indices
unfolding tagged run_length after_run run_rows
tagged-run a i [] = refl
tagged-run a i (y ∷ indices) = elim (Bool-cases (same_index y (some a))) [
  | inl same ↦
      rw (same, same_index→≡ y (some a) same) (ap (◌∷◌ (i, a)) (tagged-run a (suc i) indices))
  | inr other ↦ rw other refl
]

same_index_comm : (x y : Index) → same_index x y ≡ false → same_index y x ≡ false
unfolding same_index
same_index_comm none none h = h
same_index_comm none (some b) h = refl
same_index_comm (some a) none h = refl
same_index_comm (some a) (some b) h = ground (arith, h, ==_iff a b, ==_iff b a)

same_index_refl : (x : Index) → same_index x x ≡ true
unfolding same_index
same_index_refl none = refl
same_index_refl (some a) = eq_refl a

-- Tokens with no adapter are not named, run or not.
after_run-none : (i : ℕ) (indices : List Index) → after_run none i indices ≡ tagged i indices
unfolding after_run tagged same_index
after_run-none i [] = refl
after_run-none i (none ∷ indices) = after_run-none (suc i) indices
after_run-none i (some a ∷ indices) = refl

abbrev own_segments : ℕ → ℕ → List Index → List Segment
own_segments a i indices =
    let n = suc (run_length (some a) indices) in emit a i n 0 ((n + 32 - 1) / 32)

-- A run that starts at token `i`, and what the threads behind it name.
rows-run :
    (a i : ℕ) (indices : List Index)
    → rows (own_segments a i indices) ++ after_run (some a) (suc i) indices
      ≡ tagged i (some a ∷ indices)
unfolding tagged run_rows
rows-run a i indices =
    let n = suc (run_length (some a) indices) in
    let count : (n + 32 - 1) / 32 ≡ (n - 0 * 32 + 31) / 32 = omega arith in
    let all : run_rows a (i + 0 * 32) (n - 0 * 32) ≡ run_rows a i n =
      run_rows-congr a (i + 0 * 32) i (n - 0 * 32) n (omega arith) (omega arith) in
    ap (λ l. l ++ after_run (some a) (suc i) indices) (rows-emit a i n 0 _ count ∙ all)
    ∙ ap (◌∷◌ (i, a)) (sym (tagged-run a (suc i) indices))

-- What the threads from token `i` on name, where the one before it has the index `x`.
rows-threads_after :
    (x : Index) (i : ℕ) (indices : List Index)
    → rows (threads (some x) i indices) ≡ after_run x i indices
unfolding threads thread after_run is_run_start tagged rows
rows-threads_after x i [] = refl
rows-threads_after x i (none ∷ indices) =
    rows-threads_after none (suc i) indices ∙ elim (Bool-cases (same_index none x)) [
      | inl same ↦ rw same (ap (λ y. after_run y (suc i) indices) (same_index→≡ none x same))
      | inr other ↦ rw other (after_run-none (suc i) indices)
    ]
rows-threads_after x i (some a ∷ indices) = elim (Bool-cases (same_index (some a) x)) [
  | inl same ↦
      let e = same_index→≡ (some a) x same in
      let going : same_index x (some a) ≡ true =
        subst (λ y. same_index y (some a) ≡ true) e (same_index_refl (some a)) in
      rw (same, going)
        (rows-threads_after (some a) (suc i) indices ∙ ap (λ y. after_run y (suc i) indices) e)
  | inr other ↦
      let start = same_index_comm (some a) x other in
      rw (other, start)
        (rows-append (own_segments a i indices) (threads (some (some a)) (suc i) indices)
          ∙ ap (λ l. rows (own_segments a i indices) ++ l)
              (rows-threads_after (some a) (suc i) indices)
          ∙ rows-run a i indices)
]

rows-threads : (i : ℕ) (indices : List Index) → rows (threads none i indices) ≡ tagged i indices
unfolding threads thread is_run_start rows tagged
rows-threads i [] = refl
rows-threads i (none ∷ indices) =
    rows-threads_after none (suc i) indices ∙ after_run-none (suc i) indices
rows-threads i (some a ∷ indices) =
    rows-append (own_segments a i indices) (threads (some (some a)) (suc i) indices)
    ∙ ap (λ l. rows (own_segments a i indices) ++ l) (rows-threads_after (some a) (suc i) indices)
    ∙ rows-run a i indices

length-emit : (a i n s k : ℕ) → length (emit a i n s k) ≡ k
unfolding emit
length-emit a i n s zero = refl
length-emit a i n s (suc k) = ap suc (length-emit a i n (suc s) k)

-- A segment names at least one token.
own_segments-le :
    (a i : ℕ) (indices : List Index)
    → length (own_segments a i indices) ≤ length (rows (own_segments a i indices))
own_segments-le a i indices =
    let n = suc (run_length (some a) indices) in
    let k = (n + 32 - 1) / 32 in
    omega (
      arith,
      length-emit a i n 0 k,
      ap length (rows-emit a i n 0 k (omega arith)),
      length-run_rows a (i + 0 * 32) (n - 0 * 32),
    )

threads-le :
    (before : Option Index) (i : ℕ) (indices : List Index)
    → length (threads before i indices) ≤ length (rows (threads before i indices))
unfolding threads thread rows
threads-le before i [] = omega arith
threads-le before i (none ∷ indices) = threads-le (some none) (suc i) indices
threads-le before i (some a ∷ indices) =
    let rest = threads (some (some a)) (suc i) indices in
    let later = threads-le (some (some a)) (suc i) indices in
    elim (Bool-cases (is_run_start before (some a))) [
      | inl start ↦ rw start (
          omega (
            arith,
            later,
            own_segments-le a i indices,
            length-append (own_segments a i indices) rest,
            ap length (rows-append (own_segments a i indices) rest),
            length-append (rows (own_segments a i indices)) (rows rest),
          ))
      | inr going ↦ rw going later
    ]

length-tagged : (i : ℕ) (indices : List Index) → length (tagged i indices) ≤ length indices
unfolding tagged
length-tagged i [] = omega arith
length-tagged i (none ∷ indices) = omega (arith, length-tagged (suc i) indices)
length-tagged i (some a ∷ indices) = omega (arith, length-tagged (suc i) indices)

-- For at most 256 tokens, the table that the kernel writes names each token that has an adapter once, with
-- its own adapter, in order, and no other token.
pub build_seg_bounds_kernel-tagged :
    (indices : List Index)
    → length indices ≤ max_segments
    → rows (build_seg_bounds_kernel indices) ≡ tagged 0 indices
unfolding build_seg_bounds_kernel
build_seg_bounds_kernel-tagged indices few =
    ap rows (take_of_length-le max_segments (threads none 0 indices) fits) ∙ rows-threads 0 indices
  where
    fits : length (threads none 0 indices) ≤ max_segments
    fits = omega (
      arith,
      few,
      threads-le none 0 indices,
      ap length (rows-threads 0 indices),
      length-tagged 0 indices,
    )
