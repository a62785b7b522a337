-- ===== src/Multitenant/Scatter.antt =====
-- The loop over the adapters of `draft_step` (benchmarks/e2e/serve_multitenant.py): which rows it
-- takes, and where their tokens go.
use adapter_slots_plus_plus.Common.{
  get_elem?-set, get_elem?-set_ne, ℕ, zero, suc, ◌+◌, ◌<◌, ◌≡◌, ◌≢◌, refl, ap, sym, ◌∙◌, inl, inr,
  ◌⊎◌, List, [], ◌∷◌, map, some, arith, length, get_elem?, set, ◌==◌, ltb, ==_iff, Bool-cases,
  Option-cases, eq_false→ne,
}
use mathlib.Core.Option.{some-injective}
use adapter_slots_plus_plus.Multitenant.{unique, insert, indices_of, select, scatter}
use adapter_slots_plus_plus.Multitenant.Draft.{length-set}

-- Membership, as a test.
abbrev pub Has : ℕ → List ℕ → Type 0
Has b [] = ⊥
Has b (a ∷ l) = (a ≡ b) ⊎ Has b l

insert-Has : (a : ℕ) (l : List ℕ) → Has a (insert a l)
unfolding insert
insert-Has a [] = inl refl
insert-Has a (b ∷ l) = elim (Bool-cases (a == b)) [
  | inl same ↦ rw same (inl (sym ((==_iff a b).0 same)))
  | inr other ↦ elim (Bool-cases (ltb a b)) [
    | inl less ↦ rw (other, less) (inl refl)
    | inr more ↦ rw (other, more) (inr (insert-Has a l))
  ]
]

insert-Has_other : (a b : ℕ) (l : List ℕ) → Has b l → Has b (insert a l)
unfolding insert
insert-Has_other a b [] h = absurd h
insert-Has_other a b (c ∷ l) h = elim (Bool-cases (a == c)) [
  | inl same ↦ rw same h
  | inr other ↦ elim (Bool-cases (ltb a c)) [
    | inl less ↦ rw (other, less) (inr h)
    | inr more ↦ rw (other, more) (go (λ g. insert-Has_other a b l g) h)
  ]
]
  where
    go : (Has b l → Has b (insert a l)) → (c ≡ b) ⊎ Has b l → (c ≡ b) ⊎ Has b (insert a l)
    go rest (inl e) = inl e
    go rest (inr g) = inr (rest g)

-- Every row's adapter is in the list that the loop goes through.
pub unique-Has :
    (adapter : List ℕ) (i b : ℕ) → get_elem? adapter i ≡ some b → Has b (unique adapter)
unfolding unique
unique-Has [] i b h = absurd (cc)
unique-Has (a ∷ adapter) zero b h = rw (← some-injective _ _ h) (insert-Has a (unique adapter))
unique-Has (a ∷ adapter) (suc i) b h =
    insert-Has_other a b (unique adapter) (unique-Has adapter i b h)

-- The rows of an adapter, taken apart.
select-cons :
    (rows : List (List ℕ)) (i : ℕ) (sub : List ℕ) (subrows : List (List ℕ))
    → select rows (i ∷ sub) ≡ some subrows
    → (r : List ℕ) × (rest : List (List ℕ)) × (get_elem? rows i ≡ some r)
      × (select rows sub ≡ some rest)
      × (subrows ≡ r ∷ rest)
unfolding select
select-cons rows i sub subrows h = elim (Option-cases (get_elem? rows i)) [
  | inl e ↦ absurd (ground (arith, h, e))
  | inr (r, found) ↦ elim (Option-cases (select rows sub)) [
    | inl e ↦ absurd (ground (arith, h, found, e))
    | inr (rest, ran) ↦ (r, rest, found, ran, ground (arith, h, found, ran))
  ]
]

-- Entries before the indices stay.
scatter_before :
    (a k j : ℕ) (adapter values nt : List ℕ)
    → j < k
    → get_elem? (scatter nt (indices_of a k adapter) values) j ≡ get_elem? nt j
unfolding scatter indices_of
scatter_before a k j [] values nt h = refl
scatter_before a k j (c ∷ adapter) values nt h = elim (Bool-cases (c == a)) [
  | inr other ↦ rw other (scatter_before a (suc k) j adapter values nt (omega arith))
  | inl same ↦
      rw same
        (hit (λ nt' values'. scatter_before a (suc k) j adapter values' nt' (omega arith)) values)
]
  where
    hit :
        ((nt' values' : List ℕ)
          → get_elem? (scatter nt' (indices_of a (suc k) adapter) values') j ≡ get_elem? nt' j)
        → (values : List ℕ)
        → get_elem? (scatter nt (k ∷ indices_of a (suc k) adapter) values) j ≡ get_elem? nt j
    hit rest [] = refl
    hit rest (v ∷ values) =
        rest (set nt k v) values ∙ get_elem?-set_ne nt k j v (λ e. absurd (omega (arith, e)))

-- The values of an adapter's rows land on them, and nowhere else.
pub scatter_lem :
    (f : List ℕ → ℕ) (rows : List (List ℕ)) (a k j b : ℕ) (r : List ℕ) (adapter nt : List ℕ)
    (subrows : List (List ℕ))
    → select rows (indices_of a k adapter) ≡ some subrows
    → get_elem? adapter j ≡ some b
    → get_elem? rows (k + j) ≡ some r
    → k + j < length nt
    → let nt' = scatter nt (indices_of a k adapter) (map f subrows) in
      ((b ≡ a → get_elem? nt' (k + j) ≡ some (f r))
        × (b ≢ a → get_elem? nt' (k + j) ≡ get_elem? nt (k + j)))
unfolding scatter indices_of
scatter_lem f rows a k j b r [] nt subrows chosen at row lt = absurd (cc)
scatter_lem f rows a k zero b r (c ∷ adapter) nt subrows chosen at row lt =
    let here_k : k + 0 ≡ k = omega arith in
    let c_b : c ≡ b = some-injective _ _ at in
    elim (Bool-cases (c == a)) [
      | inl same ↦
          let (r₀, rest, found, ran, e) =
            select-cons rows k (indices_of a (suc k) adapter) subrows
              (rw (same, indices_of) at chosen) in
          let c_a : c ≡ a = (==_iff c a).0 same in
          let r_r : r₀ ≡ r =
            some-injective _ _ (sym found ∙ ap (get_elem? rows) (sym here_k) ∙ row) in
          rw (here_k, e)
            (rw same (
              λ b_a.
                  scatter_before a (suc k) k adapter (map f rest) (set nt k (f r₀)) (omega arith)
                  ∙ get_elem?-set nt k (f r₀) (omega arith)
                  ∙ ap (λ (q : List ℕ). some (f q)) r_r,
              λ b_a. absurd (b_a (sym c_b ∙ c_a)),
            ))
      | inr other ↦ rw here_k (
          rw other (
            λ b_a. absurd (eq_false→ne c a other (c_b ∙ b_a)),
            λ b_a. scatter_before a (suc k) k adapter (map f subrows) nt (omega arith),
          ))
    ]
scatter_lem f rows a k (suc j) b r (c ∷ adapter) nt subrows chosen at row lt =
    let next_k : k + suc j ≡ suc k + j = omega arith in
    let row' : get_elem? rows (suc k + j) ≡ some r = rw next_k at row in
    elim (Bool-cases (c == a)) [
      | inl same ↦
          let (r₀, rest, found, ran, e) =
            select-cons rows k (indices_of a (suc k) adapter) subrows
              (rw (same, indices_of) at chosen) in
          let (hit, miss) =
            scatter_lem f rows a (suc k) j b r adapter (set nt k (f r₀)) rest ran at row'
              (rw (length-set nt k (f r₀)) (omega (arith, lt))) in
          rw (next_k, e)
            (rw same (
              hit,
              λ b_a.
                  miss b_a
                  ∙ get_elem?-set_ne nt k (suc k + j) (f r₀) (λ e. absurd (omega (arith, e))),
            ))
      | inr other ↦ rw next_k (
          rw other (
            scatter_lem f rows a (suc k) j b r adapter nt subrows (rw (other, indices_of) at chosen)
              at row' (omega (arith, lt))))
    ]
