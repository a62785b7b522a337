-- ===== src/KvEager/Target.antt =====
-- What one iteration of `spec_kv_iter` (benchmarks/e2e/serve_kv_eager.py) commits, row by row.
use adapter_slots_plus_plus.Common.{
  ℕ, zero, suc, ◌+◌, ◌-◌, ◌≤◌, ◌<◌, ◌≡◌, ◌∙◌, sym, refl, ap, List, [], ◌∷◌, ◌++◌, map, some, true,
  Bool, arith, length, length-append, take, get_last?-cons, drop_last, ◌==◌, length-take,
  if◌then◌else◌,
}
use adapter_slots_plus_plus.Models.Greedy.{
  greedy, predictions, accepted, accepted-le, accepted-greedy, greedy-suc,
}
use adapter_slots_plus_plus.KvEager.{
  CacheRow, any_full, draft_row, target_row, feed, overwrite_mask, less_than,
}
use adapter_slots_plus_plus.KvEager.Slots.{real_slots, slots_at, real_slots-append}
use adapter_slots_plus_plus.KvEager.Masks.{target_row_lem, slots_at-append}
use adapter_slots_plus_plus.KvEager.Iter.{
  KvModel, KvRow, Found, forward_row, propose, verify, verify_all, roll_back, roll_back_all,
  spec_kv_iter,
}

-- The next token of a model that has read the tokens from position 0 on.
abbrev pub next_of : KvModel → List ℕ → ℕ
next_of model ctx = model (slots_at 0 ctx)

-- The target sees the tokens `done` and no others; the pending token comes behind them.
abbrev pub Sees : KvRow → List ℕ → Type 0
Sees r done = (real_slots r.target ≡ slots_at 0 done) × (r.real_len ≡ suc (length done))

abbrev pub AllSee : List KvRow → List (List ℕ) → Type 0
AllSee [] [] = Unit
AllSee (r ∷ rows) (done ∷ dones) = Sees r done × AllSee rows dones
AllSee _ _ = ⊥

-- What the iteration finds of a row is up to `gamma + 1` tokens of greedy decoding, and the target
-- sees them behind it, but for the last, which is pending.
abbrev pub Commits : KvModel → ℕ → KvRow → List ℕ → KvRow → Found → Type 0
Commits target gamma r done r' found =
    (found.acc ≤ gamma)
    × (take found.acc found.prop ++ found.bonus ∷ []
        ≡ greedy (next_of target) (suc found.acc) (done ++ r.pending ∷ []))
    × (r'.pending ≡ found.bonus)
    × Sees r' (done ++ r.pending ∷ take found.acc found.prop)

abbrev pub AllCommit : KvModel → ℕ → List KvRow → List (List ℕ) → List KvRow → List Found → Type 0
AllCommit target gamma [] [] [] [] = Unit
AllCommit target gamma (r ∷ rows) (done ∷ dones) (r' ∷ rows') (found ∷ all) =
    Commits target gamma r done r' found × AllCommit target gamma rows dones rows' all
AllCommit target gamma _ _ _ _ = ⊥

length-propose :
    (model : KvModel) (row : CacheRow) (pos x gamma : ℕ)
    → length (propose model row pos x gamma) ≡ gamma
unfolding propose
length-propose model row pos x zero = refl
length-propose model row pos x (suc gamma) = ap suc (length-propose model _ (suc pos) _ gamma)

-- A row that shows the first tokens shows one more when the next is fed.
pub fed-slots_at :
    (row : CacheRow) (pos x : ℕ) (done : List ℕ)
    → real_slots row ≡ slots_at 0 done
    → pos ≡ length done
    → real_slots (row ++ record { token = x; pos = pos; real = true } ∷ [])
      ≡ slots_at 0 (done ++ x ∷ [])
unfolding real_slots slots_at
fed-slots_at row pos x done seen e =
    real_slots-append row _
    ∙ ap (λ (l : CacheRow). l ++ record { token = x; pos = pos; real = true } ∷ []) seen
    ∙ ap (λ n. slots_at 0 done ++ slots_at n (x ∷ [])) from_start
    ∙ sym (slots_at-append 0 done (x ∷ []))
  where
    from_start : pos ≡ 0 + length done
    from_start = omega (arith, e)

forward_row-predictions :
    (model : KvModel) (row : CacheRow) (pos x : ℕ) (xs done : List ℕ)
    → real_slots row ≡ slots_at 0 done
    → pos ≡ length done
    → forward_row model row pos (x ∷ xs) ≡ predictions (next_of model) (done ++ x ∷ []) xs
unfolding forward_row predictions
forward_row-predictions model row pos x [] done seen e =
    ap (λ l. model l ∷ []) (fed-slots_at row pos x done seen e)
forward_row-predictions model row pos x (y ∷ xs) done seen e =
    let fed = fed-slots_at row pos x done seen e in
    let longer : suc pos ≡ length (done ++ x ∷ []) =
      omega (arith, e, length-append {0} done (x ∷ [])) in
    ap
      (λ l.
        model l
        ∷ forward_row model (row ++ record { token = x; pos = pos; real = true } ∷ []) (suc pos)
            (y ∷ xs))
      fed
    ∙ ap (◌∷◌ (next_of model (done ++ x ∷ []))) (
        forward_row-predictions model (row ++ record { token = x; pos = pos; real = true } ∷ [])
          (suc pos) y xs (done ++ x ∷ []) fed longer)

-- The target's row behind the iteration shows the pending token and the accepted proposals, too.
target_row-slots_at :
    (r : KvRow) (done prop : List ℕ) (acc : ℕ)
    → Sees r done
    → acc ≤ length prop
    → real_slots (target_row r.target r.real_len r.pending prop acc)
      ≡ slots_at 0 (done ++ r.pending ∷ take acc prop)
target_row-slots_at r done prop acc (seen, long) fits =
    let from_start : r.real_len - 1 ≡ 0 + length done = omega (arith, long) in
    target_row_lem r.target r.real_len r.pending prop acc fits
    ∙ ap (λ (l : CacheRow). l ++ slots_at (r.real_len - 1) (r.pending ∷ take acc prop)) seen
    ∙ ap (λ n. slots_at 0 done ++ slots_at n (r.pending ∷ take acc prop)) from_start
    ∙ sym (slots_at-append 0 done (r.pending ∷ take acc prop))

-- The draft's row behind the iteration exists where there is a proposal.
draft_row-some :
    (row : CacheRow) (real_len pending acc : ℕ) (prop : List ℕ) (full : Bool)
    → 0 < length prop
    → (row' : CacheRow) × (draft_row row real_len pending prop acc full ≡ some row')
unfolding draft_row
draft_row-some row real_len pending acc [] full h = absurd (omega arith)
draft_row-some row real_len pending acc (p ∷ prop) full h =
    let (last, e) = get_last?-cons p prop in
    let gamma = length (p ∷ prop) in
    let fed = feed row (real_len - 1) (drop_last (pending ∷ p ∷ prop)) in
    let masked = overwrite_mask fed gamma (less_than acc 0 gamma) in
    (
      (if full
          then overwrite_mask (feed masked (real_len - 1 + gamma) (last ∷ [])) 1
              ((acc == gamma) ∷ [])
          else masked),
      rw e refl,
    )

module _ (draft target : KvModel) (gamma : ℕ) (some_proposed : 0 < gamma) where
  -- What verifying finds.
  abbrev Verified : KvRow → List ℕ → Found → Type 0
  Verified r done found =
      (verify draft target gamma r ≡ some found)
      × (length found.prop ≡ gamma)
      × (found.acc ≤ gamma)
      × (take found.acc found.prop ++ found.bonus ∷ []
          ≡ greedy (next_of target) (suc found.acc) (done ++ r.pending ∷ []))

  verify-greedy :
      (r : KvRow) (done : List ℕ) → Sees r done → (found : Found) × Verified r done found
  unfolding verify
  verify-greedy r done (seen, long) =
      let prop = propose draft r.draft (r.real_len - 1) r.pending gamma in
      let ctx = done ++ r.pending ∷ [] in
      let read =
        forward_row-predictions target r.target (r.real_len - 1) r.pending prop done seen
          (omega (arith, long)) in
      let acc = accepted (predictions (next_of target) ctx prop) prop in
      let (prefix, bonus) = accepted-greedy (next_of target) ctx prop in
      let all = length-propose draft r.draft (r.real_len - 1) r.pending gamma in
      (
        record {
          acc = acc;
          prop = prop;
          bonus = next_of target (ctx ++ greedy (next_of target) acc ctx);
        },
        (
          rw (read, bonus) refl,
          all,
          omega (arith, all, accepted-le (predictions (next_of target) ctx prop) prop),
          ap (λ l. l ++ next_of target (ctx ++ greedy (next_of target) acc ctx) ∷ []) prefix
              ∙ sym (greedy-suc (next_of target) acc ctx),
        ),
      )

  roll_back-Commits :
      (full : Bool) (r : KvRow) (done : List ℕ) (found : Found)
      → Sees r done
      → Verified r done found
      → (r' : KvRow) × (roll_back full r found ≡ some r') × Commits target gamma r done r' found
  unfolding roll_back
  roll_back-Commits full r done found sees (ran, all, fits, agree) =
      let (row', e) =
        draft_row-some r.draft r.real_len r.pending found.acc found.prop full
          (omega (arith, all, some_proposed)) in
      let seen = target_row-slots_at r done found.prop found.acc sees (omega (arith, all, fits)) in
      let n : r.real_len + found.acc + 1
          ≡ suc (length (done ++ r.pending ∷ take found.acc found.prop)) =
        omega (
          arith,
          sees.1,
          all,
          fits,
          length-append {0} done (r.pending ∷ take found.acc found.prop),
          length-take {0} found.acc found.prop,
        ) in
      (
        record {
          target = target_row r.target r.real_len r.pending found.prop found.acc;
          draft = row';
          real_len = r.real_len + found.acc + 1;
          pending = found.bonus;
        },
        rw e refl,
        (fits, agree, refl, (seen, n)),
      )

  abbrev AllVerified : List KvRow → List (List ℕ) → List Found → Type 0
  AllVerified [] [] [] = Unit
  AllVerified (r ∷ rows) (done ∷ dones) (found ∷ all) =
      Verified r done found × AllVerified rows dones all
  AllVerified _ _ _ = ⊥

  verify_all-greedy :
      (rows : List KvRow) (dones : List (List ℕ))
      → AllSee rows dones
      → (all : List Found) × (verify_all draft target gamma rows ≡ some all)
        × AllVerified rows dones all
  unfolding verify_all
  verify_all-greedy [] [] sees = ([], refl, tt)
  verify_all-greedy [] (done ∷ dones) sees = absurd sees
  verify_all-greedy (r ∷ rows) [] sees = absurd sees
  verify_all-greedy (r ∷ rows) (done ∷ dones) (one, sees) =
      let (found, v) = verify-greedy r done one in
      let (all, ran, vs) = verify_all-greedy rows dones sees in
      (found ∷ all, rw (v.0, ran) refl, (v, vs))

  roll_back_all-Commits :
      (full : Bool) (rows : List KvRow) (dones : List (List ℕ)) (all : List Found)
      → AllSee rows dones
      → AllVerified rows dones all
      → (rows' : List KvRow) × (roll_back_all full rows all ≡ some rows')
        × AllCommit target gamma rows dones rows' all
  unfolding roll_back_all
  roll_back_all-Commits full [] [] [] sees v = ([], refl, tt)
  roll_back_all-Commits full [] [] (found ∷ all) sees v = absurd v
  roll_back_all-Commits full [] (done ∷ dones) all sees v = absurd sees
  roll_back_all-Commits full (r ∷ rows) [] all sees v = absurd sees
  roll_back_all-Commits full (r ∷ rows) (done ∷ dones) [] sees v = absurd v
  roll_back_all-Commits full (r ∷ rows) (done ∷ dones) (found ∷ all) (one, sees) (v, vs) =
      let (r', ran, c) = roll_back-Commits full r done found one v in
      let (rows', rest, cs) = roll_back_all-Commits full rows dones all sees vs in
      (r' ∷ rows', rw (ran, rest) refl, (c, cs))

  pub spec_kv_iter_lem :
      (rows : List KvRow) (dones : List (List ℕ))
      → AllSee rows dones
      → (rows' : List KvRow) × (all : List Found) × (spec_kv_iter draft target gamma rows
          ≡ some (rows', all))
        × AllCommit target gamma rows dones rows' all
  unfolding spec_kv_iter
  spec_kv_iter_lem rows dones sees =
      let (all, ran, v) = verify_all-greedy rows dones sees in
      let full = any_full gamma (map (λ (found : Found). found.acc) all) in
      let (rows', rolled, c) = roll_back_all-Commits full rows dones all sees v in
      (rows', all, rw (ran, rolled) refl, c)
