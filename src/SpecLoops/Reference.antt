-- ===== src/SpecLoops/Reference.antt =====
-- The non-speculative loops of benchmarks/e2e/spec_loops.py are greedy decoding, with or without a
-- cache.
use adapter_slots_plus_plus.Common.{
  ℕ, zero, suc, ◌-◌, ◌<◌, ◌≡◌, refl, ap, ◌∙◌, List, [], ◌∷◌, ◌++◌, map, some, arith, length,
  append_snoc, get_last?,
}
use adapter_slots_plus_plus.Models.{CachedModel, IsCausal, next, logits_after}
use adapter_slots_plus_plus.Models.Greedy.{greedy, predictions}
use adapter_slots_plus_plus.SpecLoops.{
  last_token, cat, nospec_loop, nospec_kv, nokv_loop, nospec_nokv,
}
use mathlib.Core.Option

-- The predictions of a forward pass, in the words of the specification.
pub argmax-logits_after {ℓ} :
    {L : Type ℓ} (am : L → ℕ) (f : List ℕ → L) (ctx : List ℕ) (x : ℕ) (xs : List ℕ)
    → map am (logits_after f ctx (x ∷ xs)) ≡ predictions (λ c. am (f c)) (ctx ++ x ∷ []) xs
unfolding logits_after predictions
argmax-logits_after am f ctx x [] = refl
argmax-logits_after am f ctx x (y ∷ xs) =
    ap (◌∷◌ (am (f (ctx ++ x ∷ [])))) (argmax-logits_after am f (ctx ++ x ∷ []) y xs)

-- The last position has seen everything.
pub get_last?-logits_after {ℓ} :
    {L : Type ℓ} (f : List ℕ → L) (ctx : List ℕ) (x : ℕ) (xs : List ℕ)
    → get_last? (logits_after f ctx (x ∷ xs)) ≡ some (f (ctx ++ x ∷ xs))
unfolding logits_after
get_last?-logits_after f ctx x [] = refl
get_last?-logits_after f ctx x (y ∷ xs) =
    get_last?-logits_after f (ctx ++ x ∷ []) y xs
    ∙ ap (λ c. some (f c)) (append_snoc ctx x (y ∷ xs))

module _ {m : CachedModel} (law : IsCausal m) where
  pub last_token-forward :
      (x : ℕ) (xs : List ℕ) (c : m.Cache)
      → last_token m (m.forward (x ∷ xs) c).0 ≡ some (next law (law.contents c ++ x ∷ xs))
  unfolding last_token
  last_token-forward x xs c =
      rw (law.forward_logits x xs c)
        (ap (Option.map m.argmax) (get_last?-logits_after law.logits (law.contents c) x xs))

  last_token-uncached :
      (x : ℕ) (xs : List ℕ) → last_token m (m.forward_uncached (x ∷ xs)) ≡ some (next law (x ∷ xs))
  unfolding last_token
  last_token-uncached x xs =
      rw (law.uncached_logits x xs)
        (ap (Option.map m.argmax) (get_last?-logits_after law.logits [] x xs))

  nospec_loop-greedy :
      (k x : ℕ) (c : m.Cache)
      → nospec_loop m k x c ≡ some (greedy (next law) k (law.contents c ++ x ∷ []))
  unfolding nospec_loop greedy
  nospec_loop-greedy zero x c = refl
  nospec_loop-greedy (suc k) x c =
      rw (last_token-forward x [] c, nospec_loop-greedy k, law.forward_contents x [] c)

  nokv_loop-greedy :
      (k x : ℕ) (xs : List ℕ) → nokv_loop m k (x ∷ xs) ≡ some (greedy (next law) k (x ∷ xs))
  unfolding nokv_loop greedy
  nokv_loop-greedy zero x xs = refl
  nokv_loop-greedy (suc k) x xs =
      rw (last_token-uncached x xs, nokv_loop-greedy k x (xs ++ next law (x ∷ xs) ∷ []))

  -- On a prompt that is not empty, `nospec_kv` returns greedy decoding's next `n_new` tokens, and
  -- one token when it is asked for none.
  pub nospec_kv-greedy :
      (ids : List ℕ) (n_new : ℕ)
      → 0 < length ids
      → nospec_kv m ids n_new ≡ some (greedy (next law) (suc (n_new - 1)) ids)
  unfolding nospec_kv greedy cat
  nospec_kv-greedy [] n_new h = absurd (omega arith)
  nospec_kv-greedy (x ∷ xs) n_new h = rw (
    last_token-forward x xs m.new_cache,
    nospec_loop-greedy (n_new - 1),
    law.forward_contents x xs m.new_cache,
    law.contents-new_cache,
  )

  -- The loop without a cache returns the same `n_new` tokens, for `n_new` at least 1.
  pub nospec_nokv-greedy :
      (ids : List ℕ) (n_new : ℕ)
      → 0 < length ids
      → 0 < n_new
      → nospec_nokv m ids n_new ≡ some (greedy (next law) n_new ids)
  unfolding nospec_nokv cat greedy
  nospec_nokv-greedy [] n_new h k = absurd (omega arith)
  nospec_nokv-greedy (x ∷ xs) zero h k = absurd (omega arith)
  nospec_nokv-greedy (x ∷ xs) (suc n) h k = rw (nokv_loop-greedy (suc n) x xs)

  -- Caching keys and values changes nothing: on a prompt that is not empty, and for at least one
  -- new token, `nospec_kv` returns exactly what `nospec_nokv` does, and neither raises.
  pub nospec_kv-nospec_nokv :
      (ids : List ℕ) (n_new : ℕ)
      → 0 < length ids
      → 0 < n_new
      → (nospec_kv m ids n_new ≡ nospec_nokv m ids n_new)
        × (nospec_nokv m ids n_new ≡ some (greedy (next law) n_new ids))
  nospec_kv-nospec_nokv ids n_new h k =
      let e : suc (n_new - 1) ≡ n_new = omega arith in
      let nokv = nospec_nokv-greedy ids n_new h k in
      let kv = nospec_kv-greedy ids n_new h in (rw (kv, nokv, e), nokv)
