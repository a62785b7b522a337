-- ===== src/Extension/Store.antt =====
-- `AdapterStore` of csrc/memory/adapter_store.h. An `int32_t` id is the word that it is stored in,
-- and `Float` is the type of a scale.
use adapter_slots_plus_plus.Common.{
  ℕ, ◌%◌, ◌≡◌, ◌≢◌, refl, List, [], ◌∷◌, Option, none, some, Bool, true, false, ◌&&◌, arith, ◌==◌,
  if◌then◌else◌, ==_iff, eq_refl, ne→eq_false, Bool-cases, inl, inr, sym, ◌∙◌, eq_false→ne,
}

pub record Entry (Float : Type 0) : Type 0 where
  pub a_ptr : ℕ
  pub b_ptr : ℕ
  pub rank : ℕ
  pub d_model : ℕ
  pub out_features : ℕ
  pub alpha_scale : Float

abbrev pub AdapterStore : Type 0 → Type 0
AdapterStore Float = List (ℕ × Entry Float)

-- `(p & 0xF) == 0`
abbrev pub is_aligned : ℕ → Bool
is_aligned p = p % 16 == 0

module _ {Float : Type 0} where
  -- `none` is the exception on an unknown id.
  unfoldable pub lookup : AdapterStore Float → ℕ → Option (Entry Float)
  lookup [] id = none
  lookup ((k, e) ∷ store) id = if k == id then some e else lookup store id

  unfoldable pub contains : AdapterStore Float → ℕ → Bool
  unfolding lookup
  contains store id = elim (lookup store id) [ none ↦ false | some e ↦ true ]

  -- `entries_[adapter_id] = e`
  unfoldable pub assign_entry : AdapterStore Float → ℕ → Entry Float → AdapterStore Float
  assign_entry [] id e = (id, e) ∷ []
  assign_entry ((k, old) ∷ store) id e =
      if k == id then (k, e) ∷ store else (k, old) ∷ assign_entry store id e

  -- `none` is the exception on a pointer that is not aligned.
  unfoldable pub register_adapter :
      AdapterStore Float → ℕ → Entry Float → Option (AdapterStore Float)
  unfolding assign_entry
  register_adapter store id e =
      if is_aligned e.a_ptr && is_aligned e.b_ptr then some (assign_entry store id e) else none

  unfoldable pub evict : AdapterStore Float → ℕ → AdapterStore Float
  evict [] id = []
  evict ((k, e) ∷ store) id = if k == id then evict store id else (k, e) ∷ evict store id

  pub register_adapter-some :
      (store : AdapterStore Float) (id : ℕ) (e : Entry Float) (store' : AdapterStore Float)
      → register_adapter store id e ≡ some store'
      → store' ≡ assign_entry store id e
  unfolding register_adapter
  register_adapter-some store id e store' h =
      elim (Bool-cases (is_aligned e.a_ptr && is_aligned e.b_ptr)) [
        | inl aligned ↦ ground (arith, h, aligned)
        | inr other ↦ absurd (ground (arith, h, other))
      ]

  pub lookup-assign_entry_self :
      (store : AdapterStore Float) (id : ℕ) (e : Entry Float)
      → lookup (assign_entry store id e) id ≡ some e
  unfolding lookup assign_entry
  lookup-assign_entry_self [] id e = rw (eq_refl id)
  lookup-assign_entry_self ((k, old) ∷ store) id e = elim (Bool-cases (k == id)) [
    | inl same ↦ rw (same, same)
    | inr other ↦ rw (other, other) (lookup-assign_entry_self store id e)
  ]

  pub lookup-assign_entry_ne :
      (store : AdapterStore Float) (id j : ℕ) (e : Entry Float)
      → id ≢ j
      → lookup (assign_entry store id e) j ≡ lookup store j
  unfolding lookup assign_entry
  lookup-assign_entry_ne [] id j e ne = rw (ne→eq_false id j ne)
  lookup-assign_entry_ne ((k, old) ∷ store) id j e ne = elim (Bool-cases (k == id)) [
    | inl same ↦
        let e : k ≡ id = (==_iff k id).0 same in
        rw (same, ne→eq_false k j (λ h. ne (ground (arith, h, e))))
    | inr other ↦ rw other (ground (arith, lookup-assign_entry_ne store id j e ne))
  ]

  pub lookup-evict_self : (store : AdapterStore Float) (id : ℕ) → lookup (evict store id) id ≡ none
  unfolding lookup evict
  lookup-evict_self [] id = refl
  lookup-evict_self ((k, e) ∷ store) id = elim (Bool-cases (k == id)) [
    | inl same ↦ rw same (lookup-evict_self store id)
    | inr other ↦ rw (other, other) (lookup-evict_self store id)
  ]

  pub lookup-evict_ne :
      (store : AdapterStore Float) (id j : ℕ) → id ≢ j → lookup (evict store id) j ≡ lookup store j
  unfolding lookup evict
  lookup-evict_ne [] id j ne = refl
  lookup-evict_ne ((k, e) ∷ store) id j ne = elim (Bool-cases (k == id)) [
    | inl same ↦
        let e : k ≡ id = (==_iff k id).0 same in
        rw (same, ne→eq_false k j (λ h. ne (ground (arith, h, e)))) (lookup-evict_ne store id j ne)
    | inr other ↦ rw other (ground (arith, lookup-evict_ne store id j ne))
  ]

  -- What is known after an eviction was known before.
  pub lookup-evict-some :
      (store : AdapterStore Float) (id j : ℕ) (e : Entry Float)
      → lookup (evict store id) j ≡ some e
      → lookup store j ≡ some e
  lookup-evict-some store id j e h = elim (Bool-cases (id == j)) [
    | inl same ↦
        let there : id ≡ j = (==_iff id j).0 same in
        let gone : lookup (evict store id) j ≡ none = rw there (lookup-evict_self store j) in
        absurd (cc)
    | inr other ↦ sym (lookup-evict_ne store id j (eq_false→ne id j other)) ∙ h
  ]
