-- ===== src/Bridge/Rows.antt =====
-- What a tick of `SchedulerBridge.write` hands the engine: the shape of the arrays and the row of
-- each adapter.
use Prim.Native.String.{String}
use mathlib.Core.Option
use adapter_slots_plus_plus.Common.{
  ℕ, zero, suc, ◌+◌, ◌≤◌, ◌<◌, ◌≡◌, refl, ap, ◌∙◌, inl, inr, List, [], ◌∷◌, map, none, some, true,
  false, arith, length, replicate, length-map, length-replicate, get_elem?, get_elem?-lt, ltb, ◌==◌,
  if◌then◌else◌, lt→ltb, le→ltb_false, ne→eq_false, Option-cases,
}
use adapter_slots_plus_plus.Dict
use adapter_slots_plus_plus.Dict.{Dict}
use adapter_slots_plus_plus.Bridge.IdMap.{
  IsBijection, ordered_ids, len, to_int, to_int-ordered_ids, ordered_ids_distinct,
}
use adapter_slots_plus_plus.Bridge.Gwar.{Floats, GwarHistory, after_tick, fill_lem, length-fill}
use adapter_slots_plus_plus.Bridge.Write.{
  SchedulerBridge, Tick, Metadata, returned, raised, write, count_step, write_bridge, metadata,
  whittle_scores, lambda_hat, promo_eligible, gwar_pred_next3, tile_size_code, max_adapters,
}

get_elem?-map :
    {A B : Type 0} (f : A → B) (xs : List A) (i : ℕ) (a : A)
    → get_elem? xs i ≡ some a
    → get_elem? (map f xs) i ≡ some (f a)
get_elem?-map f [] i a h = absurd (cc)
get_elem?-map f (x ∷ xs) zero a h = ap (Option.map f) h
get_elem?-map f (x ∷ xs) (suc i) a h = get_elem?-map f xs i a h

get_elem?-replicate : {A : Type 0} (n i : ℕ) (a : A) → i < n → get_elem? (replicate n a) i ≡ some a
get_elem?-replicate zero i a h = absurd (omega arith)
get_elem?-replicate (suc n) zero a h = refl
get_elem?-replicate (suc n) (suc i) a h = get_elem?-replicate n i a (omega arith)

module _ (fl : Floats) where
  open fl use {Float, ratio, lt, to_float32}

  -- All eight arrays have one entry for each adapter.
  abbrev pub IsSized : ℕ → Metadata fl → Type 0
  IsSized n w =
      (length w.whittle_scores ≡ n)
      × (length w.t_remaining_ms ≡ n)
      × (length w.gwar_pred_next3 ≡ n)
      × (length w.lambda_hat ≡ n)
      × (length w.burst_active ≡ n)
      × (length w.promo_eligible ≡ n)
      × (length w.is_hot ≡ n)
      × (length w.tile_size_code ≡ n)
      × (w.num_active_adapters ≡ n)

  length-whittle_scores :
      (t : Tick fl) (ordered : List String) → length (whittle_scores fl t ordered) ≡ length ordered
  unfolding whittle_scores
  length-whittle_scores t ordered = grind (arith, length-replicate, length-map)

  length-gwar :
      (t : Tick fl) (ordered : List String) (h : GwarHistory fl)
      → length (gwar_pred_next3 fl t ordered h).0 ≡ length ordered
  unfolding gwar_pred_next3
  length-gwar t ordered h = elim (Option-cases t.gwar_readings) [
    | inl e ↦ rw e (length-replicate (length ordered) (ratio 0 1))
    | inr (v, e) ↦ rw e (length-fill fl v ordered h)
  ]

  metadata-IsSized :
      (b : SchedulerBridge fl) (t : Tick fl) (ordered : List String)
      → IsSized (length ordered) (metadata fl b t ordered)
  unfolding metadata lambda_hat promo_eligible
  metadata-IsSized b t ordered = (
    length-whittle_scores t ordered,
    length-replicate (length ordered) (ratio 0 1),
    length-gwar t ordered b.gwar_history,
    grind (arith, length-replicate, length-map),
    length-replicate (length ordered) 0,
    grind (arith, length-replicate, length-map),
    length-replicate (length ordered) 0,
    length-map (tile_size_code fl) (gwar_pred_next3 fl t ordered b.gwar_history).0
        ∙ length-gwar t ordered b.gwar_history,
    refl,
  )

  -- What a tick says of one adapter, whatever the others are.
  abbrev pub whittle_score : Tick fl → String → Float
  whittle_score t s = elim t.whittle_dispatcher [
    | none ↦ ratio 0 1
    | some compute_indices ↦ elim t.fill_fracs [
      | none ↦ ratio 0 1
      | some fracs ↦ elim t.lambda_est [
        | none ↦ ratio 0 1
        | some est ↦ to_float32 (Option.get_or (Dict.get (compute_indices fracs est) s) (ratio 0 1))
      ]
    ]
  ]

  abbrev pub rate : Tick fl → String → Float
  rate t s = elim t.estimator [ none ↦ ratio 0 1 | some get_rate ↦ to_float32 (get_rate s) ]

  abbrev pub merged : Tick fl → String → ℕ
  merged t s = elim t.mwc [ none ↦ 0 | some is_merged ↦ if is_merged s then 1 else 0 ]

  abbrev pub prediction : Tick fl → GwarHistory fl → String → Float
  prediction t h s = elim t.gwar_readings [
    | none ↦ ratio 0 1
    | some readings ↦ to_float32 (Option.get_or (after_tick fl readings h s) (ratio 0 1))
  ]

  -- Above 0.85 the code is 2, above 0.6 it is 1.
  abbrev pub tile : Float → ℕ
  tile pred =
      if lt (to_float32 (ratio 85 100)) pred
      then 2
      else (if lt (to_float32 (ratio 6 10)) pred then 1 else 0)

  module _ (t : Tick fl) (ordered : List String) (s : String) (i : ℕ)
      (at : get_elem? ordered i ≡ some s) where
    whittle_row : get_elem? (whittle_scores fl t ordered) i ≡ some (whittle_score t s)
    unfolding whittle_scores
    whittle_row = grind (arith, get_elem?-map, get_elem?-replicate, get_elem?-lt)

    rate_row : get_elem? (lambda_hat fl t ordered) i ≡ some (rate t s)
    unfolding lambda_hat
    rate_row = grind (arith, get_elem?-map, get_elem?-replicate, get_elem?-lt)

    merged_row : get_elem? (promo_eligible fl t ordered) i ≡ some (merged t s)
    unfolding promo_eligible
    merged_row = grind (arith, get_elem?-map, get_elem?-replicate, get_elem?-lt)

    prediction_row :
        (h : GwarHistory fl)
        → ((s' : String) (j k : ℕ)
            → get_elem? ordered j ≡ some s'
            → get_elem? ordered k ≡ some s'
            → j ≡ k)
        → get_elem? (gwar_pred_next3 fl t ordered h).0 i ≡ some (prediction t h s)
    unfolding gwar_pred_next3
    prediction_row h d = elim (Option-cases t.gwar_readings) [
      | inl e ↦
          rw (e, prediction)
            (get_elem?-replicate (length ordered) i (ratio 0 1) (get_elem?-lt ordered i s at))
      | inr (v, e) ↦ rw (e, prediction) (fill_lem fl v ordered h s i d at).1
    ]

  -- The call writes `w` to the engine and counts the step.
  abbrev pub Writes : SchedulerBridge fl → Tick fl → Metadata fl → Type 0
  Writes b t w = ((write fl b t).1 ≡ returned (some w)) × ((write fl b t).0.step_id ≡ b.step_id + 1)

  write_some :
      (b : SchedulerBridge fl) (t : Tick fl)
      → 0 < len b.id_map
      → len b.id_map ≤ max_adapters
      → Writes b t (metadata fl b t (ordered_ids b.id_map))
  unfolding write write_bridge count_step metadata ordered_ids len
  write_some b t some_known fits =
      let nonempty : (length b.id_map.int_to_str == 0) ≡ false =
        ne→eq_false _ _ (λ e. omega (arith, e, some_known)) in
      let small : ltb max_adapters (length b.id_map.int_to_str) ≡ false = le→ltb_false _ _ fits in
      (rw (nonempty, small) refl, rw (nonempty, small) refl)

  -- With 1 to 64 adapters known, `write` writes once and counts the step: each of the eight arrays
  -- has one entry for each adapter, and the step id handed over is the one before the call.
  pub write_lem :
      (b : SchedulerBridge fl) (t : Tick fl)
      → 0 < len b.id_map
      → len b.id_map ≤ max_adapters
      → (w : Metadata fl) × Writes b t w
        × IsSized (len b.id_map) w
        × (w.step_id ≡ b.step_id)
        × (w.num_segments ≡ t.num_segments)
  unfolding metadata ordered_ids len
  write_lem b t some_known fits = (
    metadata fl b t (ordered_ids b.id_map),
    write_some b t some_known fits,
    metadata-IsSized b t (ordered_ids b.id_map),
    refl,
    refl,
  )

  -- With more than 64 adapters known, `write` raises: the step is not counted, but the averages
  -- have taken in the tick's readings already, so that a repeated call smooths them twice.
  pub write_raised :
      (b : SchedulerBridge fl) (t : Tick fl) (readings : Dict Float) (s : String) (i : ℕ)
      → IsBijection b.id_map
      → t.gwar_readings ≡ some readings
      → to_int b.id_map s ≡ some i
      → max_adapters < len b.id_map
      → let after = (write fl b t).0 in
        ((write fl b t).1 ≡ raised)
        × (after.step_id ≡ b.step_id)
        × (Dict.get after.gwar_history.ewma s ≡ after_tick fl readings b.gwar_history s)
  unfolding write write_bridge count_step metadata ordered_ids len gwar_pred_next3
  write_raised b t readings s i bijective given known many =
      let nonempty : (length b.id_map.int_to_str == 0) ≡ false =
        ne→eq_false _ _ (λ e. omega (arith, e, many)) in
      let large : ltb max_adapters (length b.id_map.int_to_str) ≡ true = lt→ltb _ _ many in
      let at = (to_int-ordered_ids b.id_map bijective s i).0 known in
      (
        rw (nonempty, large) refl,
        rw (nonempty, large) refl,
        rw (nonempty, large, given)
            (fill_lem fl readings (ordered_ids b.id_map) b.gwar_history s i
              (ordered_ids_distinct b.id_map bijective) at).0,
      )

  -- On a bijection of 1 to 64 adapters, `write` puts what the tick says of an adapter into the row
  -- of the adapter's integer id: its Whittle index, its arrival rate, its merged bit, its average
  -- after this tick's reading, and the tile code of that average. Other adapters do not matter.
  pub write-to_int :
      (b : SchedulerBridge fl) (t : Tick fl) (s : String) (i : ℕ)
      → IsBijection b.id_map
      → to_int b.id_map s ≡ some i
      → len b.id_map ≤ max_adapters
      → let pred = prediction t b.gwar_history s in
        (w : Metadata fl) × Writes b t w
        × (get_elem? w.whittle_scores i ≡ some (whittle_score t s))
        × (get_elem? w.lambda_hat i ≡ some (rate t s))
        × (get_elem? w.promo_eligible i ≡ some (merged t s))
        × (get_elem? w.gwar_pred_next3 i ≡ some pred)
        × (get_elem? w.tile_size_code i ≡ some (tile pred))
  unfolding metadata ordered_ids len tile_size_code
  write-to_int b t s i bijective known fits =
      let ordered = ordered_ids b.id_map in
      let at : get_elem? ordered i ≡ some s = (to_int-ordered_ids b.id_map bijective s i).0 known in
      let predicted =
        prediction_row t ordered s i at b.gwar_history (ordered_ids_distinct b.id_map bijective) in
      (
        metadata fl b t ordered,
        write_some b t (omega (arith, get_elem?-lt ordered i s at)) fits,
        whittle_row t ordered s i at,
        rate_row t ordered s i at,
        merged_row t ordered s i at,
        predicted,
        get_elem?-map (tile_size_code fl) _ i _ predicted,
      )
