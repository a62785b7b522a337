-- ===== src/KvEager/Extend.antt =====
-- An iteration of `run_kv` (benchmarks/e2e/serve_kv_eager.py), of either kind: how it extends a row,
-- and what that does to the row's request.
use adapter_slots_plus_plus.Common.{
  ℕ, suc, ◌-◌, ◌<◌, ◌≡◌, ◌∙◌, sym, refl, ap, List, [], ◌∷◌, ◌++◌, map, append_assoc, some, arith,
  length, length-append, take,
}
use adapter_slots_plus_plus.Models.Greedy.{greedy}
use adapter_slots_plus_plus.Serving.{Kind, non_speculative, speculative}
use adapter_slots_plus_plus.KvEager.{feed}
use adapter_slots_plus_plus.KvEager.Iter.{KvModel, KvRow, Found}
use adapter_slots_plus_plus.KvEager.Target.{
  next_of, Sees, AllSee, AllCommit, fed-slots_at, spec_kv_iter_lem,
}
use adapter_slots_plus_plus.KvEager.Run.{plain, iterate_kv}

-- The row has grown by the tokens `new`, one at least, of greedy decoding.
abbrev pub Extended : KvModel → KvRow → List ℕ → KvRow → List ℕ → List ℕ → Type 0
Extended target r done r' done' new =
    Sees r' done'
    × (done' ++ r'.pending ∷ [] ≡ (done ++ r.pending ∷ []) ++ new)
    × ((n : ℕ) × (new ≡ greedy (next_of target) (suc n) (done ++ r.pending ∷ [])))

abbrev pub AllExtended :
    KvModel → List KvRow → List (List ℕ) → List KvRow → List (List ℕ) → List (List ℕ) → Type 0
AllExtended target [] [] [] [] [] = Unit
AllExtended target (r ∷ rows) (done ∷ dones) (r' ∷ rows') (done' ∷ dones') (new ∷ news) =
    Extended target r done r' done' new × AllExtended target rows dones rows' dones' news
AllExtended target _ _ _ _ _ = ⊥

abbrev new_tokens : Found → List ℕ
new_tokens found = take found.acc found.prop ++ found.bonus ∷ []

AllCommit-AllExtended :
    (target : KvModel) (gamma : ℕ) (rows : List KvRow) (dones : List (List ℕ)) (rows' : List KvRow)
    (all : List Found)
    → AllCommit target gamma rows dones rows' all
    → (dones' : List (List ℕ)) × AllExtended target rows dones rows' dones' (map new_tokens all)
AllCommit-AllExtended target gamma [] [] [] [] c = ([], tt)
AllCommit-AllExtended target gamma [] [] [] (found ∷ all) c = absurd c
AllCommit-AllExtended target gamma [] [] (r' ∷ rows') all c = absurd c
AllCommit-AllExtended target gamma [] (done ∷ dones) rows' all c = absurd c
AllCommit-AllExtended target gamma (r ∷ rows) [] rows' all c = absurd c
AllCommit-AllExtended target gamma (r ∷ rows) (done ∷ dones) [] all c = absurd c
AllCommit-AllExtended target gamma (r ∷ rows) (done ∷ dones) (r' ∷ rows') [] c = absurd c
AllCommit-AllExtended target gamma (r ∷ rows) (done ∷ dones) (r' ∷ rows') (found ∷ all)
      ((fits, agree, next, sees), c) =
    let (dones', cs) = AllCommit-AllExtended target gamma rows dones rows' all c in
    let kept = take found.acc found.prop in
    (
      (done ++ r.pending ∷ kept) ∷ dones',
      (
        (
          sees,
          rw next (
              append_assoc done (r.pending ∷ kept) (found.bonus ∷ [])
              ∙ sym (append_assoc done (r.pending ∷ []) (kept ++ found.bonus ∷ []))),
          (found.acc, agree),
        ),
        cs,
      ),
    )

-- An iteration without a draft adds the target's next token.
plain-Extended :
    (target : KvModel) (r : KvRow) (done : List ℕ)
    → Sees r done
    → Extended target r done (plain target r).0 (done ++ r.pending ∷ []) (plain target r).1
unfolding plain feed greedy
plain-Extended target r done (seen, long) =
    let here : r.real_len - 1 ≡ length done = omega (arith, long) in
    let fed = fed-slots_at r.target (r.real_len - 1) r.pending done seen here in
    (
      (fed, omega (arith, long, length-append {0} done (r.pending ∷ []))),
      refl,
      (0, ap (λ l. target l ∷ []) fed),
    )

all_plain-AllExtended :
    (target : KvModel) (rows : List KvRow) (dones : List (List ℕ))
    → AllSee rows dones
    → (dones' : List (List ℕ)) × AllExtended target rows dones
        (map (λ r. (plain target r).0) rows)
        dones'
        (map (λ r. (plain target r).1) rows)
all_plain-AllExtended target [] [] sees = ([], tt)
all_plain-AllExtended target [] (done ∷ dones) sees = absurd sees
all_plain-AllExtended target (r ∷ rows) [] sees = absurd sees
all_plain-AllExtended target (r ∷ rows) (done ∷ dones) (one, sees) =
    let (dones', es) = all_plain-AllExtended target rows dones sees in
    ((done ++ r.pending ∷ []) ∷ dones', (plain-Extended target r done one, es))

module _ (draft target : KvModel) (gamma out_tokens pad_id : ℕ) where
  pub iterate_kv-AllExtended :
      (kind : Kind) (rows : List KvRow) (dones : List (List ℕ))
      → 0 < gamma
      → AllSee rows dones
      → (rows' : List KvRow) × (dones' : List (List ℕ)) × (news : List (List ℕ)) × (iterate_kv draft
            target gamma out_tokens pad_id kind rows
          ≡ some (rows', news))
        × AllExtended target rows dones rows' dones' news
  unfolding iterate_kv
  iterate_kv-AllExtended non_speculative rows dones some_proposed sees =
      let (dones', es) = all_plain-AllExtended target rows dones sees in
      (map (λ r. (plain target r).0) rows, dones', map (λ r. (plain target r).1) rows, refl, es)
  iterate_kv-AllExtended speculative rows dones some_proposed sees =
      let (rows', all, ran, c) =
        spec_kv_iter_lem draft target gamma some_proposed rows dones sees in
      let (dones', es) = AllCommit-AllExtended target gamma rows dones rows' all c in
      (rows', dones', map new_tokens all, rw ran refl, es)
