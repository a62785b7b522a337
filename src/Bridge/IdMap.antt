-- ===== src/Bridge/IdMap.antt =====
-- `AdapterIdMap` of lora_warp_pipe/scheduler_bridge.py: string adapter ids and the small integers
-- that the kernel's structs use. `none` is a `KeyError`.
use Prim.Native.String.{String}
use text.Mathlib.Text.{◌==◌ as str_eq}
use text.Mathlib.TextEquality.{eq_iff}
use text.Mathlib.TextPositions.{eq_refl as str_eq_refl}
use adapter_slots_plus_plus.Common.{
  ℕ, zero, suc, ◌≤◌, ◌<◌, ◌≡◌, refl, ap, sym, ◌∙◌, inl, inr, List, [], ◌∷◌, ◌++◌, append-nil,
  Option, none, some, not, arith, length, get_elem?, if◌then◌else◌, Bool-cases, Option-cases,
  get_elem?-append_length, get_elem?-append_left, ◌>>=◌, get_elem?-lt, ◌⊎◌, ◌↔◌,
}
use adapter_slots_plus_plus.Dict.{Dict, get, put, contains, get-put, contains-some, contains-none}
use mathlib.Core.Option.{some-injective}

pub record AdapterIdMap : Type 0 where
  pub str_to_int : Dict ℕ
  pub int_to_str : List String

abbrev pub new_map : AdapterIdMap
new_map = record { str_to_int = []; int_to_str = [] }

-- The map after the assignment of a new id, where one is due.
unfoldable pub assign : AdapterIdMap → String → AdapterIdMap
assign m adapter_id =
    if not (contains m.str_to_int adapter_id)
    then record {
      str_to_int = put m.str_to_int adapter_id (length m.int_to_str);
      int_to_str = m.int_to_str ++ adapter_id ∷ [];
    }
    else m

unfoldable pub to_int : AdapterIdMap → String → Option ℕ
to_int m adapter_id = get m.str_to_int adapter_id

unfoldable pub get_or_assign : AdapterIdMap → String → Option (ℕ × AdapterIdMap)
unfolding assign to_int
get_or_assign m adapter_id = do
  let m' = assign m adapter_id
  i ← get m'.str_to_int adapter_id
  some (i, m')

unfoldable pub ordered_ids : AdapterIdMap → List String
ordered_ids m = m.int_to_str

unfoldable pub len : AdapterIdMap → ℕ
len m = length m.int_to_str

-- The two containers are inverse to one another.
pub record IsBijection (m : AdapterIdMap) : Type 0 where
  pub known : (s : String) (i : ℕ) → get m.str_to_int s ≡ some i → get_elem? m.int_to_str i ≡ some s
  pub listed :
      (s : String) (i : ℕ) → get_elem? m.int_to_str i ≡ some s → get m.str_to_int s ≡ some i

pub new_map-IsBijection : IsBijection new_map
unfolding get
new_map-IsBijection = record { known = λ s i h. cc; listed = λ s i h. cc }

-- An entry of a list with one more item is an old one or the new one.
snoc_entry :
    (l : List String) (x s : String) (i : ℕ)
    → get_elem? (l ++ x ∷ []) i ≡ some s
    → (get_elem? l i ≡ some s) × (i < length l) ⊎ (i ≡ length l) × (x ≡ s)
snoc_entry [] x s zero h = inr (refl, some-injective _ _ h)
snoc_entry [] x s (suc i) h = absurd (cc)
snoc_entry (y ∷ l) x s zero h = inl (h, omega arith)
snoc_entry (y ∷ l) x s (suc i) h = elim (snoc_entry l x s i h) [
  | inl (found, less) ↦ inl (found, omega arith)
  | inr (at, same) ↦ inr (ap suc at, same)
]

pub assign_known :
    (m : AdapterIdMap) (a : String) {i : ℕ} → get m.str_to_int a ≡ some i → assign m a ≡ m
unfolding assign
assign_known m a old = rw (contains-some m.str_to_int a old)

-- The map with a new entry at the end.
abbrev pub extended : AdapterIdMap → String → AdapterIdMap
extended m a = record {
  str_to_int = put m.str_to_int a (length m.int_to_str);
  int_to_str = m.int_to_str ++ a ∷ [];
}

pub assign_new :
    (m : AdapterIdMap) (a : String) → get m.str_to_int a ≡ none → assign m a ≡ extended m a
unfolding assign
assign_new m a new = rw (contains-none m.str_to_int a new)

extended-IsBijection :
    (m : AdapterIdMap) (a : String)
    → get m.str_to_int a ≡ none
    → IsBijection m
    → IsBijection (extended m a)
extended-IsBijection m a new b = record {
  known = λ s i h. known s i (sym (get-put m.str_to_int a s (length m.int_to_str)) ∙ h);
  listed = λ s i h. get-put m.str_to_int a s (length m.int_to_str) ∙ listed s i h;
}
  where
    known :
        (s : String) (i : ℕ)
        → (if str_eq a s then some (length m.int_to_str) else get m.str_to_int s) ≡ some i
        → get_elem? (m.int_to_str ++ a ∷ []) i ≡ some s
    known s i h = elim (Bool-cases (str_eq a s)) [
      | inl same ↦
          let n_i : length m.int_to_str ≡ i = some-injective _ _ (rw same at h) in
          rw (← n_i) (get_elem?-append_length m.int_to_str a [] ∙ ap some ((eq_iff a s).0 same))
      | inr other ↦
          let old = b.known s i (rw other at h) in
          get_elem?-append_left m.int_to_str (a ∷ []) i (get_elem?-lt m.int_to_str i s old) ∙ old
    ]

    listed :
        (s : String) (i : ℕ)
        → get_elem? (m.int_to_str ++ a ∷ []) i ≡ some s
        → (if str_eq a s then some (length m.int_to_str) else get m.str_to_int s) ≡ some i
    listed s i h = elim (snoc_entry m.int_to_str a s i h) [
      | inl (found, less) ↦
          let old = b.listed s i found in
          elim (Bool-cases (str_eq a s)) [
            | inl same ↦
                absurd (let e : a ≡ s = (eq_iff a s).0 same in cc (ap (get m.str_to_int) e))
            | inr other ↦ rw other old
          ]
      | inr (at, same) ↦ rw (same, str_eq_refl s, at)
    ]

pub assign-IsBijection : (m : AdapterIdMap) (a : String) → IsBijection m → IsBijection (assign m a)
assign-IsBijection m a b = elim (Option-cases (get m.str_to_int a)) [
  | inr (i, old) ↦ rw (assign_known m a old) b
  | inl new ↦ rw (assign_new m a new) (extended-IsBijection m a new b)
]

-- What an assignment leaves in the list: the old ids in their places, and perhaps one behind them.
assign-int_to_str :
    (m : AdapterIdMap) (a : String)
    → (more : List String) × ((assign m a).int_to_str ≡ m.int_to_str ++ more) × (length more ≤ 1)
assign-int_to_str m a = elim (Option-cases (get m.str_to_int a)) [
  | inr (i, old) ↦ ([], rw (assign_known m a old, append-nil), omega arith)
  | inl new ↦ (a ∷ [], rw (assign_new m a new), omega arith)
]

pub assign_gets :
    (m : AdapterIdMap) (a : String) → (i : ℕ) × (get (assign m a).str_to_int a ≡ some i)
assign_gets m a = elim (Option-cases (get m.str_to_int a)) [
  | inr (i, old) ↦ (i, rw (assign_known m a old, old))
  | inl new ↦ (
    length m.int_to_str,
    rw (assign_new m a new, get-put m.str_to_int a a (length m.int_to_str), str_eq_refl a),
  )
]

pub assign_keeps :
    (m : AdapterIdMap) (a s : String) (j : ℕ)
    → get m.str_to_int s ≡ some j
    → get (assign m a).str_to_int s ≡ some j
assign_keeps m a s j h = elim (Option-cases (get m.str_to_int a)) [
  | inr (i, old) ↦ rw (assign_known m a old, h)
  | inl new ↦
      rw (assign_new m a new, get-put m.str_to_int a s (length m.int_to_str))
        (ground (arith, eq_iff a s, new, h))
]

pub get_or_assign_of :
    (m : AdapterIdMap) (a : String) (i : ℕ)
    → get (assign m a).str_to_int a ≡ some i
    → get_or_assign m a ≡ some (i, assign m a)
unfolding get_or_assign
get_or_assign_of m a i h = rw h

-- `get_or_assign` on a map that is a bijection never raises; the map stays a bijection; the id it
-- returns is an index of `ordered_ids` at which the adapter stands; every id handed out before is
-- still the same; and asking again returns the same id and changes nothing.
pub get_or_assign_lem :
    (m : AdapterIdMap) (a : String)
    → IsBijection m
    → (i : ℕ) × (m' : AdapterIdMap) × (get_or_assign m a ≡ some (i, m'))
      × IsBijection m'
      × (get_elem? (ordered_ids m') i ≡ some a)
      × ((s : String) (j : ℕ) → to_int m s ≡ some j → to_int m' s ≡ some j)
      × (get_or_assign m' a ≡ some (i, m'))
unfolding ordered_ids to_int
get_or_assign_lem m a b =
    let (i, found) = assign_gets m a in
    let m' = assign m a in
    let b' = assign-IsBijection m a b in
    let again : assign m' a ≡ m' = assign_known m' a found in
    (
      i,
      m',
      get_or_assign_of m a i found,
      b',
      b'.known a i found,
      assign_keeps m a,
      get_or_assign_of m' a i (rw (again, found)) ∙ ap (λ n. some (i, n)) again,
    )

-- On a bijection, an adapter's id is its index in `ordered_ids`, and nothing else is.
pub to_int-ordered_ids :
    (m : AdapterIdMap)
    → IsBijection m
    → (s : String) (i : ℕ) → (to_int m s ≡ some i) ↔ (get_elem? (ordered_ids m) i ≡ some s)
unfolding to_int ordered_ids
to_int-ordered_ids m b s i = (b.known s i, b.listed s i)

-- No adapter stands at two indices.
pub ordered_ids_distinct :
    (m : AdapterIdMap)
    → IsBijection m
    → (s : String) (i j : ℕ) → get_elem? (ordered_ids m) i ≡ some s
    → get_elem? (ordered_ids m) j ≡ some s
    → i ≡ j
unfolding ordered_ids
ordered_ids_distinct m b s i j p q = some-injective _ _ (sym (b.listed s i p) ∙ b.listed s j q)
