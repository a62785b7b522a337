-- ===== src/SpecLoops/Lossless.antt =====
-- When `spec_kv` and `nospec_kv` (benchmarks/e2e/spec_loops.py) return the same tokens.
use adapter_slots_plus_plus.Common.{
  ℕ, zero, suc, ◌+◌, ◌-◌, ◌≤◌, ◌<◌, ◌≡◌, ◌≢◌, refl, ap, sym, ◌∙◌, List, [], ◌∷◌, ◌++◌, some,
  append_snoc, append-nil, arith, length, take, get_elem?, get_elem?-append_right, get_elem?-take,
  take-append_of_le,
}
use mathlib.Core.Option.{some-injective}
use adapter_slots_plus_plus.Models.{CachedModel, IsCausal, next}
use adapter_slots_plus_plus.Models.Greedy.{greedy, length-greedy, greedy-add, take-greedy}
use adapter_slots_plus_plus.SpecLoops.{spec_kv, nospec_kv}
use adapter_slots_plus_plus.SpecLoops.Reference.{nospec_kv-greedy}
use adapter_slots_plus_plus.SpecLoops.Output.{first_accepted, second_context, spec_kv_lem}

-- Contexts after which a model says the same are greedily continued in the same way.
greedy-cong :
    (f : List ℕ → ℕ) (n : ℕ) (c c' : List ℕ)
    → ((w : List ℕ) → f (c ++ w) ≡ f (c' ++ w))
    → greedy f n c ≡ greedy f n c'
unfolding greedy
greedy-cong f zero c c' same = refl
greedy-cong f (suc n) c c' same =
    let e : f c ≡ f c' = ap f (sym (append-nil c)) ∙ same [] ∙ ap f (append-nil c') in
    rw e (
      ap (◌∷◌ (f c')) (
        greedy-cong f n (c ++ f c' ∷ []) (c' ++ f c' ∷ []) (λ w.
          ap f (append_snoc c (f c') w) ∙ same (f c' ∷ w) ∙ ap f (sym (append_snoc c' (f c') w)))))

-- The token behind the first round's.
get_elem?-greedy :
    (f : List ℕ → ℕ) (k n : ℕ) (base ctx : List ℕ)
    → 0 < n
    → get_elem? (greedy f k ctx ++ greedy f n base) k ≡ some (f base)
unfolding greedy
get_elem?-greedy f k zero base ctx pos = absurd (omega arith)
get_elem?-greedy f k (suc n) base ctx pos =
    let e : k ≡ length (greedy f k ctx) + 0 = omega (arith, length-greedy f k ctx) in
    ap (get_elem? (greedy f k ctx ++ greedy f (suc n) base)) e
    ∙ get_elem?-append_right (greedy f k ctx) (greedy f (suc n) base) 0

module _ {draft target : CachedModel} (dlaw : IsCausal draft) (tlaw : IsCausal target)
    (gamma n_new : ℕ) (ids : List ℕ) where
  -- The prompt and all tokens of the first round.
  abbrev pub after_first : List ℕ
  after_first = ids ++ greedy (next tlaw) (suc (first_accepted dlaw tlaw gamma ids)) ids

  -- `spec_kv` and `nospec_kv` both return, the same list.
  abbrev pub Agree : Type 0
  Agree =
      (tokens : List ℕ) × (acc_tot : ℕ) × (steps : ℕ) × (spec_kv draft target ids gamma n_new
        ≡ some (tokens, acc_tot, steps))
      × (nospec_kv target ids n_new ≡ some tokens)

  reference :
      1 < length ids → 0 < n_new → nospec_kv target ids n_new ≡ some (greedy (next tlaw) n_new ids)
  reference two pos =
      let e : suc (n_new - 1) ≡ n_new = omega arith in
      rw (nospec_kv-greedy tlaw ids n_new (omega arith), e)

  -- With at least one proposal a round, a prompt of at least two tokens and at least one new token,
  -- but no more than the first round commits, `spec_kv` and `nospec_kv` return the same tokens.
  pub spec_kv-first_round :
      0 < gamma
      → 1 < length ids
      → 0 < n_new
      → n_new ≤ suc (first_accepted dlaw tlaw gamma ids)
      → Agree
  spec_kv-first_round g two pos few =
      let (acc_tot, steps, run, _, _, _) = spec_kv_lem dlaw tlaw gamma n_new ids g two in
      let t = next tlaw in
      let k = suc (first_accepted dlaw tlaw gamma ids) in
      (
        greedy t n_new ids,
        acc_tot,
        steps,
        rw run (
            ap (λ l. some (l, acc_tot, steps))
              (take-append_of_le n_new (greedy t k ids) _ (omega (arith, length-greedy t k ids))
                ∙ take-greedy t n_new k ids few)),
        reference two pos,
      )

  -- With at least one proposal a round, a prompt of at least two tokens and at least one new token,
  -- however many: `spec_kv` and `nospec_kv` return the same tokens if the target predicts alike with
  -- and without the token that the first rollback drops, whatever follows.
  pub spec_kv-lossless :
      0 < gamma
      → 1 < length ids
      → 0 < n_new
      → ((w : List ℕ)
          → next tlaw (second_context dlaw tlaw gamma ids ++ w) ≡ next tlaw (after_first ++ w))
      → Agree
  spec_kv-lossless g two pos same =
      let (acc_tot, steps, run, _, _, _) = spec_kv_lem dlaw tlaw gamma n_new ids g two in
      let t = next tlaw in
      let k = suc (first_accepted dlaw tlaw gamma ids) in
      (
        greedy t n_new ids,
        acc_tot,
        steps,
        rw run (
            ap (λ l. some (l, acc_tot, steps))
              (ap (λ l. take n_new (greedy t k ids ++ l))
                  (greedy-cong t n_new (second_context dlaw tlaw gamma ids) after_first same)
                ∙ ap (take n_new) (sym (greedy-add t k n_new ids))
                ∙ take-greedy t n_new (k + n_new) ids (omega arith))),
        reference two pos,
      )

  -- With at least one proposal a round and a prompt of at least two tokens: `spec_kv` and `nospec_kv`
  -- do not both return the same tokens if more are asked for than the first round commits, and the
  -- target's next prediction depends on the token that the first rollback drops.
  pub spec_kv-lossy :
      0 < gamma
      → 1 < length ids
      → suc (first_accepted dlaw tlaw gamma ids) < n_new
      → next tlaw (second_context dlaw tlaw gamma ids) ≢ next tlaw after_first
      → ¬ Agree
  spec_kv-lossy g two many differs (tokens, acc, st, spec, plain) =
      let pos : 0 < n_new = omega arith in
      let left = get_elem?-greedy t k n_new (second_context dlaw tlaw gamma ids) ids pos in
      let right = get_elem?-greedy t k n_new after_first ids pos in
      let seen : get_elem? (take n_new (greedy t k ids ++ greedy t n_new after_first)) k
          ≡ get_elem?
              (take n_new (greedy t k ids ++ greedy t n_new (second_context dlaw tlaw gamma ids)))
              k =
        ap (λ l. get_elem? l k) (whole ∙ plain_tokens ∙ spec_tokens) in
      differs (
        some-injective _ _ (
          sym left
          ∙ sym (get_elem?-take n_new k _ many)
          ∙ sym seen
          ∙ get_elem?-take n_new k _ many
          ∙ right))
    where
      t : List ℕ → ℕ
      t = next tlaw

      k : ℕ
      k = suc (first_accepted dlaw tlaw gamma ids)

      whole : take n_new (greedy t k ids ++ greedy t n_new after_first) ≡ greedy t n_new ids
      whole =
          ap (take n_new) (sym (greedy-add t k n_new ids))
          ∙ take-greedy t n_new (k + n_new) ids (omega arith)

      plain_tokens : greedy t n_new ids ≡ tokens
      plain_tokens = some-injective _ _ (sym (reference two (omega arith)) ∙ plain)

      spec_tokens :
          tokens
          ≡ take n_new (greedy t k ids ++ greedy t n_new (second_context dlaw tlaw gamma ids))
      spec_tokens =
          let (acc_tot, steps, run, _, _, _) = spec_kv_lem dlaw tlaw gamma n_new ids g two in
          ap (λ r. r.0) (some-injective _ _ (sym spec ∙ run))
