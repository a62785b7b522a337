-- ===== src/Bridge/Gwar.antt =====
-- `GwarHistory` of lora_warp_pipe/scheduler_bridge.py, and the loop of `SchedulerBridge.write` that
-- feeds it. Floating-point numbers are a parameter: `Floats` has the operations that the module
-- uses, and nothing is assumed of them.
use Prim.Native.String.{String}
use text.Mathlib.Text.{◌==◌ as str_eq}
use text.Mathlib.TextEquality.{eq_iff}
use mathlib.Core.Option
use mathlib.Core.Option.{some-injective}
use adapter_slots_plus_plus.Common.{
  ℕ, zero, suc, ◌≡◌, ◌≢◌, refl, ap, ap₂, ◌∙◌, inl, inr, List, [], ◌∷◌, Option, none, some, Bool,
  false, arith, length, get_elem?, if◌then◌else◌, Option-cases,
}
use adapter_slots_plus_plus.Dict
use adapter_slots_plus_plus.Dict.{Dict, get-put}

pub record Floats : Type 1 where
  pub Float : Type 0
  pub add : Float → Float → Float
  pub sub : Float → Float → Float
  pub mul : Float → Float → Float
  pub lt : Float → Float → Bool
  -- the literal a / b
  pub ratio : ℕ → ℕ → Float
  -- the value that an array of `np.float32` keeps
  pub to_float32 : Float → Float

module _ (fl : Floats) where
  open fl use {Float, add, sub, mul, ratio, to_float32}

  pub record GwarHistory : Type 0 where
    pub alpha : Float
    pub ewma : Dict Float

  -- `GwarHistory()`
  abbrev pub new_history : GwarHistory
  new_history = record { alpha = ratio 3 10; ewma = [] }

  -- The new average, from a reading and the average before it.
  unfoldable pub smooth : GwarHistory → String → Float → Float
  smooth h adapter_id gwar_value =
      let prev = Option.get_or (Dict.get h.ewma adapter_id) gwar_value in
      add (mul h.alpha gwar_value) (mul (sub (ratio 1 1) h.alpha) prev)

  unfoldable pub update : GwarHistory → String → Float → GwarHistory × Float
  unfolding smooth
  update h adapter_id gwar_value =
      let new = smooth h adapter_id gwar_value in
      (record h { ewma = Dict.put h.ewma adapter_id new }, new)

  unfoldable pub get : GwarHistory → String → Float
  get h adapter_id = Option.get_or (Dict.get h.ewma adapter_id) (ratio 0 1)

  -- `if aid in gwar_readings: self._gwar_history.update(aid, gwar_readings[aid])`
  unfoldable pub observe : Dict Float → GwarHistory → String → GwarHistory
  unfolding update
  observe readings h aid = elim (Dict.get readings aid) [ none ↦ h | some v ↦ (update h aid v).0 ]

  -- The loop over the adapters: the predictions in their order, and the history behind it.
  unfoldable pub fill : Dict Float → List String → GwarHistory → List Float × GwarHistory
  fill readings [] h = ([], h)
  fill readings (aid ∷ ordered) h =
      let h' = observe readings h aid in
      let rest = fill readings ordered h' in (to_float32 (get h' aid) ∷ rest.0, rest.1)

  -- The average of an adapter after a tick, from the history before it.
  abbrev pub after_tick : Dict Float → GwarHistory → String → Option Float
  after_tick readings h s = elim (Dict.get readings s) [
    | none ↦ Dict.get h.ewma s
    | some v ↦ some (smooth h s v)
  ]

  -- An adapter's reading moves its own average alone.
  observe_lem :
      (readings : Dict Float) (h : GwarHistory) (aid s : String)
      → Dict.get (observe readings h aid).ewma s
        ≡ (if str_eq aid s then after_tick readings h s else Dict.get h.ewma s)
  unfolding observe
  observe_lem readings h aid s = elim (Option-cases (Dict.get readings aid)) [
    | inl e ↦ ground (arith, e, eq_iff aid s)
    | inr (v, e) ↦ ground (arith, e, eq_iff aid s, get-put h.ewma aid s (smooth h aid v))
  ]

  observe-alpha :
      (readings : Dict Float) (h : GwarHistory) (aid : String)
      → (observe readings h aid).alpha ≡ h.alpha
  unfolding observe
  observe-alpha readings h aid = ground arith

  smooth_of :
      (h h' : GwarHistory) (s : String) (v : Float)
      → h'.alpha ≡ h.alpha
      → Dict.get h'.ewma s ≡ Dict.get h.ewma s
      → smooth h' s v ≡ smooth h s v
  unfolding smooth
  smooth_of h h' s v same_alpha same =
      ap₂ (λ a o. add (mul a v) (mul (sub (ratio 1 1) a) (Option.get_or o v))) same_alpha same

  -- The reading of another adapter does not matter.
  after_tick-observe :
      (readings : Dict Float) (h : GwarHistory) (aid s : String)
      → str_eq aid s ≡ false
      → after_tick readings (observe readings h aid) s ≡ after_tick readings h s
  after_tick-observe readings h aid s other =
      let same : Dict.get (observe readings h aid).ewma s ≡ Dict.get h.ewma s =
        observe_lem readings h aid s
        ∙ ap (λ b. if b then after_tick readings h s else Dict.get h.ewma s) other in
      elim (Option-cases (Dict.get readings s)) [
        | inl e ↦ rw (e, after_tick) same
        | inr (v, e) ↦
            rw (e, after_tick)
              (ap some
                (smooth_of h (observe readings h aid) s v (observe-alpha readings h aid) same))
      ]

  abbrev Absent : List String → String → Type 0
  Absent l s = (i : ℕ) → get_elem? l i ≢ some s

  fill-Absent :
      (readings : Dict Float) (ordered : List String) (h : GwarHistory) (s : String)
      → Absent ordered s
      → Dict.get (fill readings ordered h).1.ewma s ≡ Dict.get h.ewma s
  unfolding fill
  fill-Absent readings [] h s no_s = refl
  fill-Absent readings (aid ∷ ordered) h s no_s =
      let other : str_eq aid s ≡ false = ground (arith, eq_iff aid s, no_s 0) in
      fill-Absent readings ordered (observe readings h aid) s (λ i. no_s (suc i))
      ∙ observe_lem readings h aid s
      ∙ ap (λ b. if b then after_tick readings h s else Dict.get h.ewma s) other

  -- No item stands at two places.
  abbrev pub Distinct : List String → Type 0
  Distinct l = (s : String) (i j : ℕ) → get_elem? l i ≡ some s → get_elem? l j ≡ some s → i ≡ j

  pub length-fill :
      (readings : Dict Float) (ordered : List String) (h : GwarHistory)
      → length (fill readings ordered h).0 ≡ length ordered
  unfolding fill
  length-fill readings [] h = refl
  length-fill readings (aid ∷ ordered) h =
      ap suc (length-fill readings ordered (observe readings h aid))

  -- Over adapters that are all different, the loop smooths each adapter's reading into its average
  -- exactly once, leaves the averages of adapters with no reading as they were, and puts each
  -- adapter's average after the tick at the adapter's index.
  pub fill_lem :
      (readings : Dict Float) (ordered : List String) (h : GwarHistory) (s : String) (i : ℕ)
      → Distinct ordered
      → get_elem? ordered i ≡ some s
      → let out = fill readings ordered h in
        (Dict.get out.1.ewma s ≡ after_tick readings h s)
        × (get_elem? out.0 i
            ≡ some (to_float32 (Option.get_or (after_tick readings h s) (ratio 0 1))))
  unfolding fill get
  fill_lem readings [] h s i d at = absurd (cc)
  fill_lem readings (aid ∷ ordered) h s zero d at =
      let e : aid ≡ s = some-injective _ _ at in
      let now : Dict.get (observe readings h aid).ewma s ≡ after_tick readings h s =
        observe_lem readings h aid s
        ∙ ap (λ b. if b then after_tick readings h s else Dict.get h.ewma s) ((eq_iff aid s).1 e) in
      (
        fill-Absent readings ordered (observe readings h aid) s
              (λ j later. absurd (zero_suc (d s 0 (suc j) at later)))
            ∙ now,
        ap
              (λ k.
                some (
                  to_float32
                    (Option.get_or (Dict.get (observe readings h aid).ewma k) (ratio 0 1))))
              e
            ∙ ap (λ o. some (to_float32 (Option.get_or o (ratio 0 1)))) now,
      )
    where
      zero_suc : {j : ℕ} → ¬ (0 ≡ suc j)
      zero_suc e = cc
  fill_lem readings (aid ∷ ordered) h s (suc i) d at =
      let other : str_eq aid s ≡ false = ground (arith, eq_iff aid s, d s 0 (suc i), at) in
      let (final, placed) =
        fill_lem readings ordered (observe readings h aid) s i
          (λ s' j k p q. suc_injective (d s' (suc j) (suc k) p q)) at in
      let unmoved = after_tick-observe readings h aid s other in
      (final ∙ unmoved, placed ∙ ap (λ o. some (to_float32 (Option.get_or o (ratio 0 1)))) unmoved)
    where
      suc_injective : {j k : ℕ} → suc j ≡ suc k → j ≡ k
      suc_injective e = omega arith
