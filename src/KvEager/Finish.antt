-- ===== src/KvEager/Finish.antt =====
-- The requests of `run_kv` (benchmarks/e2e/serve_kv_eager.py) while they are served.
use adapter_slots_plus_plus.Common.{
  ℕ, suc, ◌≤◌, ◌<◌, ◌≡◌, ◌∙◌, sym, refl, ap, inl, inr, List, [], ◌∷◌, ◌++◌, map, subst,
  append_assoc, Option, none, some, true, false, arith, length, length-append, Bool-cases,
}
use adapter_slots_plus_plus.Models.Greedy.{greedy, IsGreedy, IsGreedy-append, length-greedy}
use adapter_slots_plus_plus.KvEager.Iter.{KvModel, KvRow}
use adapter_slots_plus_plus.KvEager.Target.{next_of, Sees, AllSee}
use adapter_slots_plus_plus.KvEager.Extend.{Extended, AllExtended}
use adapter_slots_plus_plus.KvEager.Run.{
  Request, is_none, commit_one, commit, eos_done, finish_one, any_unfinished,
}

-- What is committed: all of the transcript `s`, while the request is not finished.
abbrev pub Kept : KvModel → ℕ → ℕ → ℕ → List ℕ → List ℕ → List ℕ → Option ℕ → Type 0
Kept target out_tokens eos it p s committed none =
    (committed ≡ s) × (eos_done committed out_tokens eos ≡ false)
Kept target out_tokens eos it p s committed (some f) =
    (f ≤ it) × IsGreedy (next_of target) p committed × (eos_done committed out_tokens eos ≡ true)

-- A request after `it` iterations: its row has read the prompt and a transcript of greedy decoding.
abbrev pub Served : KvModel → ℕ → ℕ → ℕ → KvRow → List ℕ → Request → List ℕ → Type 0
Served target out_tokens eos it r done q p =
    Sees r done
    × ((s : List ℕ) × (done ++ r.pending ∷ [] ≡ p ++ s)
        × IsGreedy (next_of target) p s
        × (it ≤ length s)
        × Kept target out_tokens eos it p s q.committed q.finish)

eos_done-no :
    (c : List ℕ) (out_tokens eos : ℕ) → eos_done c out_tokens eos ≡ false → length c < out_tokens
unfolding eos_done
eos_done-no c out_tokens eos h = ground (arith, h)

module _ (target : KvModel) (out_tokens eos it : ℕ) (p s new : List ℕ) where
  Kept-finish_one :
      (c : List ℕ) (finish : Option ℕ)
      → IsGreedy (next_of target) p (s ++ new)
      → Kept target out_tokens eos it p s c finish
      → let q =
          finish_one out_tokens eos
            (suc it)
            (commit_one (record { committed = c; finish = finish }) new) in
        Kept target out_tokens eos (suc it) p (s ++ new) q.committed q.finish
  unfolding finish_one commit_one is_none
  Kept-finish_one c (some f) g (before, k, ended) = (omega (arith, before), k, ended)
  Kept-finish_one c none g (e, running) = elim (Bool-cases (eos_done (c ++ new) out_tokens eos)) [
    | inl ended ↦ rw ended (omega arith, rw e g, ended)
    | inr more ↦ rw more (ap (λ l. l ++ new) e, more)
  ]

Served-finish_one :
    (target : KvModel) (out_tokens eos it : ℕ) (r r' : KvRow) (done done' new : List ℕ)
    (q : Request) (p : List ℕ)
    → Served target out_tokens eos it r done q p
    → Extended target r done r' done' new
    → Served target out_tokens eos
        (suc it)
        r'
        done'
        (finish_one out_tokens eos (suc it) (commit_one q new))
        p
Served-finish_one target out_tokens eos it r r' done done' new q p (sees, (s, read, g, grown, k))
      (sees', added, (n, e)) =
    let f = next_of target in
    let more : new ≡ greedy f (suc n) (p ++ s) = e ∙ ap (greedy f (suc n)) read in
    let g' : IsGreedy f p (s ++ new) =
      subst (λ l. IsGreedy f p (s ++ l)) (sym more) (IsGreedy-append f p s (suc n) g) in
    (
      sees',
      (
        s ++ new,
        added ∙ ap (λ l. l ++ new) read ∙ append_assoc p s new,
        g',
        omega (
          arith,
          grown,
          ap length e,
          length-greedy f (suc n) (done ++ r.pending ∷ []),
          length-append {0} s new,
        ),
        Kept-finish_one target out_tokens eos it p s new q.committed q.finish g' k,
      ),
    )

abbrev pub AllServed :
    KvModel → ℕ → ℕ → ℕ → List KvRow → List (List ℕ) → List Request → List (List ℕ) → Type 0
AllServed target out_tokens eos it [] [] [] [] = Unit
AllServed target out_tokens eos it (r ∷ rows) (done ∷ dones) (q ∷ requests) (p ∷ prompts) =
    Served target out_tokens eos it r done q p
    × AllServed target out_tokens eos it rows dones requests prompts
AllServed target out_tokens eos it _ _ _ _ = ⊥

-- Each request is finished after at most `it` iterations, with greedy decoding's tokens, among which
-- is the end-of-sequence token, or of which there are enough.
abbrev pub AllFinished : KvModel → ℕ → ℕ → ℕ → List Request → List (List ℕ) → Type 0
AllFinished target out_tokens eos it [] [] = Unit
AllFinished target out_tokens eos it (q ∷ requests) (p ∷ prompts) =
    ((f : ℕ) × (q.finish ≡ some f)
      × (f ≤ it)
      × IsGreedy (next_of target) p q.committed
      × (eos_done q.committed out_tokens eos ≡ true))
    × AllFinished target out_tokens eos it requests prompts
AllFinished target out_tokens eos it _ _ = ⊥

module _ (target : KvModel) (out_tokens eos it : ℕ) where
  pub AllServed-AllSee :
      (rows : List KvRow) (dones : List (List ℕ)) (requests : List Request)
      (prompts : List (List ℕ))
      → AllServed target out_tokens eos it rows dones requests prompts
      → AllSee rows dones
  AllServed-AllSee [] [] [] [] v = tt
  AllServed-AllSee [] [] [] (p ∷ prompts) v = absurd v
  AllServed-AllSee [] [] (q ∷ requests) prompts v = absurd v
  AllServed-AllSee [] (done ∷ dones) requests prompts v = absurd v
  AllServed-AllSee (r ∷ rows) [] requests prompts v = absurd v
  AllServed-AllSee (r ∷ rows) (done ∷ dones) [] prompts v = absurd v
  AllServed-AllSee (r ∷ rows) (done ∷ dones) (q ∷ requests) [] v = absurd v
  AllServed-AllSee (r ∷ rows) (done ∷ dones) (q ∷ requests) (p ∷ prompts) (one, v) =
      (one.0, AllServed-AllSee rows dones requests prompts v)

  pub AllServed-finish_one :
      (rows : List KvRow) (dones : List (List ℕ)) (requests : List Request)
      (prompts : List (List ℕ)) (rows' : List KvRow) (dones' news : List (List ℕ))
      → AllServed target out_tokens eos it rows dones requests prompts
      → AllExtended target rows dones rows' dones' news
      → AllServed target out_tokens eos
          (suc it)
          rows'
          dones'
          (map (finish_one out_tokens eos (suc it)) (commit requests news))
          prompts
  unfolding commit
  AllServed-finish_one [] [] [] [] [] [] [] v e = tt
  AllServed-finish_one [] [] [] [] [] [] (new ∷ news) v e = absurd e
  AllServed-finish_one [] [] [] [] [] (d ∷ dones') news v e = absurd e
  AllServed-finish_one [] [] [] [] (r' ∷ rows') dones' news v e = absurd e
  AllServed-finish_one [] [] [] (p ∷ prompts) rows' dones' news v e = absurd v
  AllServed-finish_one [] [] (q ∷ requests) prompts rows' dones' news v e = absurd v
  AllServed-finish_one [] (done ∷ dones) requests prompts rows' dones' news v e = absurd v
  AllServed-finish_one (r ∷ rows) [] requests prompts rows' dones' news v e = absurd v
  AllServed-finish_one (r ∷ rows) (done ∷ dones) [] prompts rows' dones' news v e = absurd v
  AllServed-finish_one (r ∷ rows) (done ∷ dones) (q ∷ requests) [] rows' dones' news v e = absurd v
  AllServed-finish_one (r ∷ rows) (done ∷ dones) (q ∷ requests) (p ∷ prompts) [] dones' news v e =
      absurd e
  AllServed-finish_one (r ∷ rows) (done ∷ dones) (q ∷ requests) (p ∷ prompts) (r' ∷ rows') [] news v
        e =
      absurd e
  AllServed-finish_one (r ∷ rows) (done ∷ dones) (q ∷ requests) (p ∷ prompts) (r' ∷ rows')
        (d ∷ dones') [] v e =
      absurd e
  AllServed-finish_one (r ∷ rows) (done ∷ dones) (q ∷ requests) (p ∷ prompts) (r' ∷ rows')
        (d ∷ dones') (new ∷ news) (one, v) (grown, e) =
      (
        Served-finish_one target out_tokens eos it r r' done d new q p one grown,
        AllServed-finish_one rows dones requests prompts rows' dones' news v e,
      )

  unfinished-lt :
      (p s c : List ℕ) (finish : Option ℕ)
      → Kept target out_tokens eos it p s c finish
      → it ≤ length s
      → is_none finish ≡ true
      → it < out_tokens
  unfolding is_none
  unfinished-lt p s c none (e, running) grown h =
      omega (arith, grown, ap length e, eos_done-no c out_tokens eos running)
  unfinished-lt p s c (some f) k grown h = absurd (cc)

  finished-some :
      (p s c : List ℕ) (finish : Option ℕ)
      → Kept target out_tokens eos it p s c finish
      → is_none finish ≡ false
      → (f : ℕ) × (finish ≡ some f)
        × (f ≤ it)
        × IsGreedy (next_of target) p c
        × (eos_done c out_tokens eos ≡ true)
  unfolding is_none
  finished-some p s c none k h = absurd (cc)
  finished-some p s c (some f) (before, g, ended) h = (f, refl, before, g, ended)

  -- While a request is not finished, there have been fewer iterations than tokens are asked for.
  pub any_unfinished-lt :
      (rows : List KvRow) (dones : List (List ℕ)) (requests : List Request)
      (prompts : List (List ℕ))
      → AllServed target out_tokens eos it rows dones requests prompts
      → any_unfinished requests ≡ true
      → it < out_tokens
  unfolding any_unfinished
  any_unfinished-lt [] [] [] [] v h = absurd (cc)
  any_unfinished-lt [] [] [] (p ∷ prompts) v h = absurd v
  any_unfinished-lt [] [] (q ∷ requests) prompts v h = absurd v
  any_unfinished-lt [] (done ∷ dones) requests prompts v h = absurd v
  any_unfinished-lt (r ∷ rows) [] requests prompts v h = absurd v
  any_unfinished-lt (r ∷ rows) (done ∷ dones) [] prompts v h = absurd v
  any_unfinished-lt (r ∷ rows) (done ∷ dones) (q ∷ requests) [] v h = absurd v
  any_unfinished-lt (r ∷ rows) (done ∷ dones) (q ∷ requests) (p ∷ prompts)
        ((sees, (s, read, g, grown, k)), v) h =
      elim (Bool-cases (is_none q.finish)) [
        | inl unfinished ↦ unfinished-lt p s q.committed q.finish k grown unfinished
        | inr over ↦ any_unfinished-lt rows dones requests prompts v (rw over at h)
      ]

  pub AllServed-AllFinished :
      (rows : List KvRow) (dones : List (List ℕ)) (requests : List Request)
      (prompts : List (List ℕ))
      → AllServed target out_tokens eos it rows dones requests prompts
      → any_unfinished requests ≡ false
      → AllFinished target out_tokens eos it requests prompts
  unfolding any_unfinished
  AllServed-AllFinished [] [] [] [] v h = tt
  AllServed-AllFinished [] [] [] (p ∷ prompts) v h = absurd v
  AllServed-AllFinished [] [] (q ∷ requests) prompts v h = absurd v
  AllServed-AllFinished [] (done ∷ dones) requests prompts v h = absurd v
  AllServed-AllFinished (r ∷ rows) [] requests prompts v h = absurd v
  AllServed-AllFinished (r ∷ rows) (done ∷ dones) [] prompts v h = absurd v
  AllServed-AllFinished (r ∷ rows) (done ∷ dones) (q ∷ requests) [] v h = absurd v
  AllServed-AllFinished (r ∷ rows) (done ∷ dones) (q ∷ requests) (p ∷ prompts)
        ((sees, (s, read, g, grown, k)), v) h =
      elim (Bool-cases (is_none q.finish)) [
        | inl unfinished ↦ let e : true ≡ false = rw unfinished at h in absurd (cc)
        | inr over ↦ (
          finished-some p s q.committed q.finish k over,
          AllServed-AllFinished rows dones requests prompts v (rw over at h),
        )
      ]
