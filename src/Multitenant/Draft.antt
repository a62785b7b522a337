-- ===== src/Multitenant/Draft.antt =====
-- `draft_step` of benchmarks/e2e/serve_multitenant.py returns a token for each row.
use adapter_slots_plus_plus.Common.{
  ℕ, zero, suc, ◌+◌, ◌*◌, ◌≤◌, ◌<◌, ◌≡◌, ◌≢◌, refl, ap, sym, ◌∙◌, inl, inr, List, [], ◌∷◌, ◌++◌,
  map, some, arith, length, length-map, length-replicate, replicate, get_elem?, set, ◌==◌, ltb,
  Bool-cases, eq_refl,
}
use adapter_slots_plus_plus.Multitenant.{
  lora, BatchedModel, max_length, repeat_interleave, unique, insert, indices_of, select, scatter,
  each_adapter, draft_step, Strategy, shared_draft, sgmv_draft, per_adapter, no_spec,
}
use adapter_slots_plus_plus.Multitenant.Padding.{
  IsRagged, Filled, next_token, with_none, with_adapters, next_tokens-base, next_tokens-lora,
  length-with_none, length-with_adapters,
}

abbrev pub Occurs : ℕ → List ℕ → Type 0
Occurs a adapter = (i : ℕ) → 0 < length (indices_of a i adapter)

abbrev pub AllOccur : List ℕ → List ℕ → Type 0
AllOccur [] adapter = Unit
AllOccur (a ∷ l) adapter = Occurs a adapter × AllOccur l adapter

Occurs-cons : (a b : ℕ) (adapter : List ℕ) → Occurs a adapter → Occurs a (b ∷ adapter)
unfolding indices_of
Occurs-cons a b adapter h i = ground (arith, h (suc i))

Occurs-head : (a : ℕ) (adapter : List ℕ) → Occurs a (a ∷ adapter)
unfolding indices_of
Occurs-head a adapter i = rw (eq_refl a) (omega arith)

AllOccur-cons :
    (l : List ℕ) (b : ℕ) (adapter : List ℕ) → AllOccur l adapter → AllOccur l (b ∷ adapter)
AllOccur-cons [] b adapter h = tt
AllOccur-cons (a ∷ l) b adapter (h, hs) = (Occurs-cons a b adapter h, AllOccur-cons l b adapter hs)

insert-AllOccur :
    (a : ℕ) (l adapter : List ℕ)
    → Occurs a adapter
    → AllOccur l adapter
    → AllOccur (insert a l) adapter
unfolding insert
insert-AllOccur a [] adapter h hs = (h, tt)
insert-AllOccur a (b ∷ l) adapter h (h', hs) = elim (Bool-cases (a == b)) [
  | inl same ↦ rw same (h', hs)
  | inr other ↦ elim (Bool-cases (ltb a b)) [
    | inl less ↦ rw (other, less) (h, (h', hs))
    | inr more ↦ rw (other, more) (h', insert-AllOccur a l adapter h hs)
  ]
]

pub unique-AllOccur : (adapter : List ℕ) → AllOccur (unique adapter) adapter
unfolding unique
unique-AllOccur [] = tt
unique-AllOccur (a ∷ adapter) =
    insert-AllOccur a (unique adapter) (a ∷ adapter) (Occurs-head a adapter)
      (AllOccur-cons (unique adapter) a adapter (unique-AllOccur adapter))

abbrev pub AllBelow : ℕ → List ℕ → Type 0
AllBelow n [] = Unit
AllBelow n (i ∷ sub) = (i < n) × AllBelow n sub

pub indices_of-AllBelow :
    (a i n : ℕ) (adapter : List ℕ) → i + length adapter ≤ n → AllBelow n (indices_of a i adapter)
unfolding indices_of
indices_of-AllBelow a i n [] h = tt
indices_of-AllBelow a i n (b ∷ adapter) h =
    let rest = indices_of-AllBelow a (suc i) n adapter (omega arith) in
    elim (Bool-cases (b == a)) [
      | inl same ↦ rw same (omega arith, rest)
      | inr other ↦ rw other rest
    ]

get_elem?-Filled :
    (rows : List (List ℕ)) (i : ℕ)
    → Filled rows
    → i < length rows
    → (r : List ℕ) × (get_elem? rows i ≡ some r) × (0 < length r)
get_elem?-Filled [] i f h = absurd (omega arith)
get_elem?-Filled (r ∷ rows) zero (p, f) h = (r, refl, p)
get_elem?-Filled (r ∷ rows) (suc i) (p, f) h = get_elem?-Filled rows i f (omega arith)

pub select-Filled :
    (rows : List (List ℕ)) (sub : List ℕ)
    → Filled rows
    → AllBelow (length rows) sub
    → (subrows : List (List ℕ)) × (select rows sub ≡ some subrows)
      × Filled subrows
      × (length subrows ≡ length sub)
unfolding select
select-Filled rows [] f b = ([], refl, tt, refl)
select-Filled rows (i ∷ sub) f (below, b) =
    let (r, found, p) = get_elem?-Filled rows i f below in
    let (rest, ran, g, long) = select-Filled rows sub f b in
    (r ∷ rest, rw (found, ran), (p, g), ap suc long)

replicate-add : (n k a : ℕ) → replicate n a ++ replicate k a ≡ replicate (n + k) a
replicate-add zero k a = let e : k ≡ 0 + k = omega arith in ap (λ j. replicate j a) e
replicate-add (suc n) k a =
    let e : suc (n + k) ≡ suc n + k = omega arith in
    ap (◌∷◌ a) (replicate-add n k a) ∙ ap (λ j. replicate j a) e

pub repeat_interleave-replicate :
    (n a s : ℕ) → repeat_interleave (replicate n a) s ≡ replicate (n * s) a
unfolding repeat_interleave
repeat_interleave-replicate zero a s = let e : 0 ≡ 0 * s = omega arith in ap (λ j. replicate j a) e
repeat_interleave-replicate (suc n) a s =
    let e : s + n * s ≡ suc n * s = omega arith in
    ap (λ l. replicate s a ++ l) (repeat_interleave-replicate n a s)
    ∙ replicate-add s (n * s) a
    ∙ ap (λ j. replicate j a) e

pub length-set : (nt : List ℕ) (i v : ℕ) → length (set nt i v) ≡ length nt
length-set [] i v = refl
length-set (x ∷ nt) zero v = refl
length-set (x ∷ nt) (suc i) v = ap suc (length-set nt i v)

pub length-scatter : (nt sub values : List ℕ) → length (scatter nt sub values) ≡ length nt
unfolding scatter
length-scatter nt [] values = refl
length-scatter nt (i ∷ sub) [] = refl
length-scatter nt (i ∷ sub) (v ∷ values) =
    length-scatter (set nt i v) sub values ∙ length-set nt i v

module _ {m : BatchedModel} {pad_id : ℕ} (law : IsRagged m pad_id) where
  pub each_adapter-length :
      (rows : List (List ℕ)) (adapter adapters nt : List ℕ)
      → Filled rows
      → length adapter ≡ length rows
      → AllOccur adapters adapter
      → (nt' : List ℕ) × (each_adapter m rows adapter pad_id adapters nt ≡ some nt')
        × (length nt' ≡ length nt)
  unfolding each_adapter
  each_adapter-length rows adapter [] nt f same occur = (nt, refl, refl)
  each_adapter-length rows adapter (a ∷ adapters) nt f same (occurs, occur) =
      let sub = indices_of a 0 adapter in
      let (subrows, chosen, g, long) =
        select-Filled rows sub f
          (indices_of-AllBelow a 0 (length rows) adapter (omega (arith, same))) in
      let ran =
        next_tokens-lora law (replicate (length subrows) a) subrows
          (λ s. lora (replicate (length subrows * s) a))
          (ap lora (sym (repeat_interleave-replicate (length subrows) a (max_length subrows))))
          (omega (arith, long, occurs 0)) (length-replicate (length subrows) a) g in
      let values = map (next_token law) (with_adapters (replicate (length subrows) a) subrows) in
      let (nt', rest, kept) =
        each_adapter-length rows adapter adapters (scatter nt sub values) f same occur in
      (nt', rw (chosen, ran, rest) refl, kept ∙ length-scatter nt sub values)

  -- On rows none of which is empty, with an adapter for each, every strategy returns a token for each
  -- row.
  pub draft_step-length :
      (rows : List (List ℕ)) (adapter : List ℕ) (strategy : Strategy)
      → strategy ≢ no_spec
      → 0 < length rows
      → length adapter ≡ length rows
      → Filled rows
      → (nt : List ℕ) × (draft_step m rows adapter strategy pad_id ≡ some nt)
        × (length nt ≡ length rows)
  unfolding draft_step
  draft_step-length rows adapter shared_draft known some_rows same f = (
    _,
    next_tokens-base law rows some_rows f,
    length-map (next_token law) (with_none rows) ∙ length-with_none rows,
  )
  draft_step-length rows adapter sgmv_draft known some_rows same f = (
    _,
    next_tokens-lora law adapter rows (λ s. lora (repeat_interleave adapter s)) refl some_rows same
        f,
    length-map (next_token law) (with_adapters adapter rows)
        ∙ length-with_adapters adapter rows same,
  )
  draft_step-length rows adapter per_adapter known some_rows same f =
      let (nt, ran, long) =
        each_adapter-length rows adapter (unique adapter) (replicate (length rows) 0) f same
          (unique-AllOccur adapter) in
      (nt, ran, long ∙ length-replicate (length rows) 0)
  draft_step-length rows adapter no_spec known some_rows same f = absurd (known refl)
