-- ===== src/SpecLoops.antt =====
-- benchmarks/e2e/spec_loops.py: `nospec_kv`, `nospec_nokv` and `spec_kv`, one sequence of token
-- ids at a time. `none` is a raised exception (an empty `torch.cat`, an index out of range, a
-- model that returns no position) or, in `spec_loop`, fuel that ran out.
pub mod Reference
pub mod Round
pub mod Kept
pub mod Output
pub mod Lossless
use adapter_slots_plus_plus.Common.{
  ℕ, zero, suc, ◌+◌, ◌-◌, List, [], ◌∷◌, ◌++◌, map, Option, none, some, length, take, get_elem?,
  get_last?, drop_last, ◌==◌, ltb, if◌then◌else◌, ◌>>=◌,
}
use mathlib.Core.Option
use adapter_slots_plus_plus.Models.{CachedModel}
use adapter_slots_plus_plus.Models.Greedy.{accepted}

-- `out.logits[:, -1].argmax(-1)`
unfoldable pub last_token : (m : CachedModel) → List m.Logits → Option ℕ
last_token m out = Option.map m.argmax (get_last? out)

-- `torch.cat(l, 1)` raises on an empty list.
unfoldable pub cat : List ℕ → Option (List ℕ)
cat [] = none
cat (x ∷ xs) = some (x ∷ xs)

module _ (m : CachedModel) where
  -- The loop of `nospec_kv`, with `k` rounds left.
  unfoldable pub nospec_loop : ℕ → ℕ → m.Cache → Option (List ℕ)
  nospec_loop zero x cache = some []
  nospec_loop (suc k) x cache = do
    let (out, cache') = m.forward (x ∷ []) cache
    y ← last_token m out
    rest ← nospec_loop k y cache'
    some (y ∷ rest)

  unfoldable pub nospec_kv : List ℕ → ℕ → Option (List ℕ)
  nospec_kv ids n_new = do
    let (out, cache) = m.forward ids m.new_cache
    x ← last_token m out
    rest ← nospec_loop (n_new - 1) x cache
    cat (x ∷ rest)

  -- The loop of `nospec_nokv`, with `k` rounds left.
  unfoldable pub nokv_loop : ℕ → List ℕ → Option (List ℕ)
  nokv_loop zero seq = some []
  nokv_loop (suc k) seq = do
    x ← last_token m (m.forward_uncached seq)
    rest ← nokv_loop k (seq ++ x ∷ [])
    some (x ∷ rest)

  unfoldable pub nospec_nokv : List ℕ → ℕ → Option (List ℕ)
  nospec_nokv ids n_new = do gen ← nokv_loop n_new ids; cat gen

  -- The draft's loop: `gamma` forward passes of one token, from the pending token `x`.
  unfoldable pub propose : ℕ → ℕ → m.Cache → Option (List ℕ × m.Cache)
  propose zero x cache = some ([], cache)
  propose (suc g) x cache = do
    let (out, cache') = m.forward (x ∷ []) cache
    y ← last_token m out
    (prop, cache'') ← propose g y cache'
    some (y ∷ prop, cache'')

-- The variables of `spec_kv`'s loop. `pending_d` and `pending_t` are always the same token.
pub record SpecState (draft target : CachedModel) : Type 0 where
  pub draft_cache : draft.Cache
  pub target_cache : target.Cache
  pub pending : ℕ
  pub n : ℕ
  pub committed_extra : List ℕ
  pub acc_tot : ℕ
  pub steps : ℕ

module _ (draft target : CachedModel) where
  -- The draft's cache after a round that accepted `a` proposals.
  unfoldable pub roll_back_draft : ℕ → ℕ → ℕ → List ℕ → draft.Cache → Option draft.Cache
  roll_back_draft gamma n a prop cache =
      if a == gamma
      then (do last ← get_last? prop; some (draft.forward (last ∷ []) cache).1)
      else some (draft.crop (n - 1 + a) cache)

  -- A round from its second step on: verify the proposals, commit, roll both caches back.
  unfoldable pub verify :
      ℕ → SpecState draft target → List ℕ → draft.Cache → Option (SpecState draft target)
  unfolding roll_back_draft cat
  verify gamma s prop draft_cache = do
    prop_t ← cat prop
    let (lg, target_cache) = target.forward (s.pending ∷ prop_t) s.target_cache
    let pred = map target.argmax lg
    let a = accepted pred prop_t
    bonus ← get_elem? pred a
    draft_cache' ← roll_back_draft gamma s.n a prop draft_cache
    some (record {
      draft_cache = draft_cache';
      target_cache = target.crop (s.n - 1 + a) target_cache;
      pending = bonus;
      n = s.n + a + 1;
      committed_extra = s.committed_extra ++ (take a prop_t ++ bonus ∷ []);
      acc_tot = s.acc_tot + a;
      steps = s.steps + 1;
    })

  unfoldable pub round : ℕ → SpecState draft target → Option (SpecState draft target)
  round gamma s = do
    (prop, draft_cache) ← propose draft gamma s.pending s.draft_cache
    verify gamma s prop draft_cache

  -- `while len(committed_extra) < n_new`
  unfoldable pub spec_loop : ℕ → ℕ → ℕ → SpecState draft target → Option (SpecState draft target)
  spec_loop zero gamma n_new s = none
  spec_loop (suc fuel) gamma n_new s =
      let again = (round gamma s >>= λ s'. spec_loop fuel gamma n_new s') in
      if ltb (length s.committed_extra) n_new then again else some s

  -- Both caches are filled with all of the prompt but its last token, which is pending.
  unfoldable pub spec_init : List ℕ → ℕ → SpecState draft target
  spec_init ids last = record {
    draft_cache = (draft.forward (drop_last ids) draft.new_cache).1;
    target_cache = (target.forward (drop_last ids) target.new_cache).1;
    pending = last;
    n = length ids;
    committed_extra = [];
    acc_tot = 0;
    steps = 0;
  }

  -- The generated ids, the accepted proposals and the verify steps.
  unfoldable pub spec_kv : List ℕ → ℕ → ℕ → Option (List ℕ × ℕ × ℕ)
  unfolding spec_init
  spec_kv ids gamma n_new = do
    last ← get_last? ids
    s ← spec_loop (suc n_new) gamma n_new (spec_init ids last)
    some (take n_new s.committed_extra, s.acc_tot, s.steps)
