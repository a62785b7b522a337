-- ===== src/Bridge/FirstSeen.antt =====
-- `AdapterIdMap` of lora_warp_pipe/scheduler_bridge.py against what it stands for: the list of the
-- adapters in the order in which they were first asked for.
use Prim.Native.String.{String}
use mathlib.Core.Option
use mathlib.Core.Path.{fun_ext}
use text.Mathlib.Text.{◌==◌ as str_eq}
use text.Mathlib.TextEquality.{eq_iff}
use adapter_slots_plus_plus.Common.{
  ℕ, zero, suc, ◌≡◌, ◌≢◌, refl, ap, ap₂, sym, ◌∙◌, inl, inr, List, [], ◌∷◌, ◌++◌, map, Option, none,
  some, arith, get_elem?, if◌then◌else◌, Bool-cases, Option-cases, ◌>>=◌,
}
use adapter_slots_plus_plus.Bridge.IdMap.{
  AdapterIdMap, IsBijection, new_map, new_map-IsBijection, assign, assign-IsBijection, assign_known,
  assign_new, assign_gets, assign_keeps, get_or_assign, get_or_assign_of, to_int, ordered_ids,
}

-- The place of a string in a list.
unfoldable pub position : String → List String → Option ℕ
position a [] = none
position a (x ∷ xs) =
    let later = Option.map suc (position a xs) in if str_eq x a then some 0 else later

-- A list that takes in a string that it does not have.
abbrev pub note : List String → String → List String
note seen a = elim (position a seen) [ none ↦ seen ++ a ∷ [] | some i ↦ seen ]

unfoldable pub first_seen : List String → List String → List String
unfolding position
first_seen seen [] = seen
first_seen seen (a ∷ requests) = first_seen (note seen a) requests

-- One `get_or_assign` for each request.
pub get_or_assign_all : AdapterIdMap → List String → Option (List ℕ × AdapterIdMap)
unfolding get_or_assign
get_or_assign_all m [] = some ([], m)
get_or_assign_all m (a ∷ requests) = do
  (i, m') ← get_or_assign m a
  (ids, m'') ← get_or_assign_all m' requests
  some (i ∷ ids, m'')

position-some :
    (a : String) (xs : List String) (i : ℕ) → position a xs ≡ some i → get_elem? xs i ≡ some a
unfolding position
position-some a [] i h = absurd (cc)
position-some a (x ∷ xs) i h = elim (Bool-cases (str_eq x a)) [
  | inl same ↦ let at : i ≡ 0 = ground (arith, h, same) in rw at (ap some ((eq_iff x a).0 same))
  | inr other ↦ elim (Option-cases (position a xs)) [
    | inl e ↦ absurd (ground (arith, h, other, e))
    | inr (k, e) ↦
        let at : i ≡ suc k = ground (arith, h, other, e) in rw at (position-some a xs k e)
  ]
]

position-none :
    (a : String) (xs : List String) (i : ℕ) → position a xs ≡ none → get_elem? xs i ≢ some a
unfolding position
position-none a [] i h = λ e. cc
position-none a (x ∷ xs) zero h = λ e. ground (arith, h, e, eq_iff x a)
position-none a (x ∷ xs) (suc i) h = elim (Bool-cases (str_eq x a)) [
  | inl same ↦ absurd (ground (arith, h, same))
  | inr other ↦ elim (Option-cases (position a xs)) [
    | inl e ↦ position-none a xs i e
    | inr (k, e) ↦ absurd (ground (arith, h, other, e))
  ]
]

-- On a bijection, an adapter's id is its place in the list.
position-to_int :
    (m : AdapterIdMap) (a : String) → IsBijection m → position a (ordered_ids m) ≡ to_int m a
unfolding ordered_ids to_int
position-to_int m a b = elim (Option-cases (position a m.int_to_str)) [
  | inr (i, e) ↦ e ∙ sym (b.listed a i (position-some a m.int_to_str i e))
  | inl e ↦ elim (Option-cases (to_int m a)) [
    | inl unknown ↦ e ∙ sym unknown
    | inr (i, found) ↦ absurd (position-none a m.int_to_str i e (b.known a i found))
  ]
]

ordered_ids-assign :
    (m : AdapterIdMap) (a : String)
    → IsBijection m
    → ordered_ids (assign m a) ≡ note (ordered_ids m) a
unfolding ordered_ids to_int
ordered_ids-assign m a b = elim (Option-cases (to_int m a)) [
  | inl new ↦ rw (position-to_int m a b ∙ new, note) (ap ordered_ids (assign_new m a new))
  | inr (i, old) ↦ rw (position-to_int m a b ∙ old, note) (ap ordered_ids (assign_known m a old))
]

get_or_assign_all-first_seen :
    (m : AdapterIdMap) (requests : List String)
    → IsBijection m
    → (ids : List ℕ) × (m' : AdapterIdMap) × (get_or_assign_all m requests ≡ some (ids, m'))
      × IsBijection m'
      × ((s : String) (j : ℕ) → to_int m s ≡ some j → to_int m' s ≡ some j)
      × (ordered_ids m' ≡ first_seen (ordered_ids m) requests)
      × (map some ids ≡ map (to_int m') requests)
unfolding get_or_assign_all first_seen to_int
get_or_assign_all-first_seen m [] b = ([], m, refl, b, λ s j h. h, refl, refl)
get_or_assign_all-first_seen m (a ∷ requests) b =
    let (i, found) = assign_gets m a in
    let (ids, m', ran, b', keeps, seen, same) =
      get_or_assign_all-first_seen (assign m a) requests (assign-IsBijection m a b) in
    (
      i ∷ ids,
      m',
      rw (get_or_assign_of m a i found, ran),
      b',
      λ s j h. keeps s j (assign_keeps m a s j h),
      seen ∙ ap (λ l. first_seen l requests) (ordered_ids-assign m a b),
      ap₂ ◌∷◌ (sym (keeps a i found)) same,
    )

-- `get_or_assign`, called on a new map for any requests one after the other, never raises, and
-- numbers the adapters in the order in which they are first asked for: `ordered_ids` is the list of
-- the requests without repetitions, and each request gets its adapter's place in that list.
pub get_or_assign-first_seen :
    (requests : List String)
    → (ids : List ℕ) × (m : AdapterIdMap) × (get_or_assign_all new_map requests ≡ some (ids, m))
      × (ordered_ids m ≡ first_seen [] requests)
      × (map some ids ≡ map (λ a. position a (first_seen [] requests)) requests)
unfolding ordered_ids
get_or_assign-first_seen requests =
    let (ids, m, ran, b, keeps, seen, same) =
      get_or_assign_all-first_seen new_map requests new_map-IsBijection in
    let places : (λ (a : String). position a (first_seen [] requests)) ≡ to_int m =
      fun_ext (λ a. ap (position a) (sym seen) ∙ position-to_int m a b) in
    (ids, m, ran, seen, rw places same)
