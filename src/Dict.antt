-- ===== src/Dict.antt =====
-- Python's `dict` with `str` keys: `d.get(k)`, `d[k] = v` and `k in d`, as an association list. A
-- new key goes to the end; the program never iterates over a dict of this kind.
use Prim.Native.String.{String}
use text.Mathlib.Text.{◌==◌ as str_eq}
use text.Mathlib.TextEquality.{eq_iff}
use adapter_slots_plus_plus.Common.{
  ◌≡◌, refl, List, [], ◌∷◌, Option, none, some, Bool, true, false, arith, if◌then◌else◌,
}

abbrev pub Dict {ℓ} : Type ℓ → Type ℓ
Dict V = List (String × V)

module _ {ℓ} {V : Type ℓ} where
  unfoldable pub get : Dict V → String → Option V
  get [] k = none
  get ((j, v) ∷ d) k = if str_eq j k then some v else get d k

  unfoldable pub put : Dict V → String → V → Dict V
  put [] k v = (k, v) ∷ []
  put ((j, w) ∷ d) k v = if str_eq j k then (k, v) ∷ d else (j, w) ∷ put d k v

  unfoldable pub contains : Dict V → String → Bool
  unfolding get
  contains d k = elim (get d k) [ none ↦ false | some v ↦ true ]

  pub get-put :
      (d : Dict V) (k j : String) (v : V)
      → get (put d k v) j ≡ (if str_eq k j then some v else get d j)
  unfolding get put
  get-put [] k j v = refl
  get-put ((i, w) ∷ d) k j v = ground (arith, eq_iff k j, eq_iff i k, eq_iff i j, get-put d k j v)

  pub contains-some : (d : Dict V) (k : String) {v : V} → get d k ≡ some v → contains d k ≡ true
  unfolding contains
  contains-some d k h = ground arith

  pub contains-none : (d : Dict V) (k : String) → get d k ≡ none → contains d k ≡ false
  unfolding contains
  contains-none d k h = ground arith
