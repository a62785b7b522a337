-- ===== src/ServeKvGraph.antt =====
-- benchmarks/e2e/serve_kv_graph.py: greedy and speculative decoding of one sequence over a
-- `StaticCache`, by replays of a captured forward pass. transformers and torch are not part of the
-- repository: `StaticModel` is a model with its static cache, and `IsStatic` is the documented
-- behaviour of the two for tokens that are fed at the slots, and with the position ids,
-- `n, n + 1, …`, and for one token that is fed several times at one slot. A slot past the end of the cache raises.
pub mod Replay
pub mod Round
pub mod Spec
pub mod Plain
pub mod SlotModel
use adapter_slots_plus_plus.Common.{
  ℕ, zero, suc, ◌+◌, ◌-◌, ◌≤◌, ◌<◌, ◌≡◌, refl, List, [], ◌∷◌, ◌++◌, map, Option, none, some, Bool,
  length, replicate, take, get_elem?, get_last?, drop_last, ◌==◌, ltb, leb, if◌then◌else◌, ◌>>=◌,
}
use mathlib.Core.Option
use adapter_slots_plus_plus.Models.{logits_after}
use adapter_slots_plus_plus.Models.Greedy.{accepted}
use adapter_slots_plus_plus.SpecLoops.{cat}

pub record StaticModel : Type 1 where
  pub Logits : Type 0
  pub Cache : Type 0
  pub argmax : Logits → ℕ
  -- the forward pass: input ids, position ids and cache positions of equal length, over a cache
  pub forward : List ℕ → List ℕ → List ℕ → Cache → Option (List Logits × Cache)

-- `torch.arange(n, n + k)`
unfoldable pub arange : ℕ → ℕ → List ℕ
arange n zero = []
arange n (suc k) = n ∷ arange (suc n) k

-- A query attends to the slots up to its own, whatever the later ones hold.
pub record IsStatic (m : StaticModel) (max_cache : ℕ) : Type 0 where
  pub logits : List ℕ → m.Logits
  -- the tokens whose keys the slots hold, from slot 0
  pub slots : m.Cache → List ℕ
  pub forward_lem :
      (x : ℕ) (xs : List ℕ) (n : ℕ) (c : m.Cache)
      → n ≤ length (slots c)
      → n + suc (length xs) ≤ max_cache
      → let at = arange n (suc (length xs)) in
        (c' : m.Cache) × (m.forward (x ∷ xs) at at c
          ≡ some (logits_after logits (take n (slots c)) (x ∷ xs), c'))
        × (suc (length xs) + n ≤ length (slots c'))
        × (take (n + suc (length xs)) (slots c') ≡ take n (slots c) ++ x ∷ xs)
  pub forward_repeated :
      (x k n : ℕ) (c : m.Cache)
      → n ≤ length (slots c)
      → n + 1 ≤ max_cache
      → let at = replicate (suc k) n in
        (c' : m.Cache) × (m.forward (replicate (suc k) x) at at c
          ≡ some (replicate (suc k) (logits (take n (slots c) ++ x ∷ [])), c'))
        × (1 + n ≤ length (slots c'))
        × (take (n + 1) (slots c') ≡ take n (slots c) ++ x ∷ [])

-- The class: the size of its static buffers, which `run` fills before each replay, its cache, and
-- whether `capture` has set `graph`.
pub record Graphed (m : StaticModel) : Type 0 where
  pub s : ℕ
  pub cache : m.Cache
  pub graph : Bool

-- `buffer.copy_(xs)`, into a buffer of `s` numbers: one number is broadcast, and any other number of
-- them that is not `s` raises.
unfoldable pub copy_into : ℕ → List ℕ → Option (List ℕ)
copy_into s (x ∷ []) = some (replicate s x)
copy_into s xs = if length xs == s then some xs else none

module _ (m : StaticModel) where
  -- The cache is filled at the slots from 0 on; the logits are dropped.
  unfoldable pub prefill : Graphed m → List ℕ → Option (Graphed m)
  prefill g ids = do
    let at = arange 0 (length ids)
    (out, cache) ← m.forward ids at at g.cache
    some (record g { cache = cache })

  -- Copy the inputs into the buffers, replay, return the logits. Without a graph, `replay` raises.
  unfoldable pub run : Graphed m → List ℕ → List ℕ → List ℕ → Option (List m.Logits × Graphed m)
  unfolding copy_into
  run g ids pos cp = do
    ids' ← copy_into g.s ids
    pos' ← copy_into g.s pos
    cp' ← copy_into g.s cp
    (out, cache) ← if g.graph then m.forward ids' pos' cp' g.cache else none
    some (out, record g { cache = cache })

  -- `[:, -1].argmax(-1)`
  unfoldable pub last_token : List m.Logits → Option ℕ
  last_token out = Option.map m.argmax (get_last? out)

  -- The draft's loop, from its round `j`, with `k` rounds left.
  unfoldable pub propose : ℕ → ℕ → ℕ → ℕ → Graphed m → Option (List ℕ × Graphed m)
  propose clen j zero x g = some ([], g)
  propose clen j (suc k) x g = do
    (out, g') ← run g (x ∷ []) ((clen - 1 + j) ∷ []) ((clen - 1 + j) ∷ [])
    y ← last_token out
    (prop, g'') ← propose clen (suc j) k y g'
    some (y ∷ prop, g'')

  -- `graphed_nospec`'s loop. Its test is `len(committed) < n_new`.
  unfoldable pub nospec_loop : ℕ → ℕ → ℕ → ℕ → List ℕ → Graphed m → Option (List ℕ)
  nospec_loop zero n_new pending clen committed g = none
  nospec_loop (suc fuel) n_new pending clen committed g =
      let again = do
        (out, g') ← run g (pending ∷ []) ((clen - 1) ∷ []) ((clen - 1) ∷ [])
        nt ← last_token out
        nospec_loop fuel n_new nt (clen + 1) (committed ++ nt ∷ []) g'
      in if ltb (length committed) n_new then again else some committed

  unfoldable pub graphed_nospec : Graphed m → List ℕ → ℕ → Option (List ℕ)
  graphed_nospec gt prompt_ids n_new = do
    gt' ← prefill gt (drop_last prompt_ids)
    pending ← get_last? prompt_ids
    nospec_loop (suc n_new) n_new pending (length prompt_ids) [] gt'

-- The variables of `graphed_spec`'s loop.
pub record GraphState (draft target : StaticModel) : Type 0 where
  pub gd : Graphed draft
  pub gt : Graphed target
  pub pending : ℕ
  pub clen : ℕ
  pub committed : List ℕ

module _ (draft target : StaticModel) where
  -- A row that accepts everything feeds the draft its last proposal.
  unfoldable pub feed_last : ℕ → ℕ → ℕ → List ℕ → Graphed draft → Option (Graphed draft)
  feed_last gamma clen a prop gd =
      if a == gamma
      then (do
        last ← get_last? prop
        (out, gd') ← run draft gd (last ∷ []) ((clen - 1 + gamma) ∷ []) ((clen - 1 + gamma) ∷ [])
        some gd')
      else some gd

  -- A round from the verification on.
  unfoldable pub verify :
      ℕ → GraphState draft target → List ℕ → Graphed draft → Option (GraphState draft target)
  unfolding cat
  verify gamma s props gd = do
    prop ← cat props
    let at = arange (s.clen - 1) (gamma + 1)
    (out, gt) ← run target s.gt (s.pending ∷ prop) at at
    let pred = map target.argmax out
    let a = accepted pred prop
    bonus ← get_elem? pred a
    gd' ← feed_last gamma s.clen a prop gd
    some (record {
      gd = gd';
      gt = gt;
      pending = bonus;
      clen = s.clen + (a + 1);
      committed = s.committed ++ (take a prop ++ bonus ∷ []);
    })

  unfoldable pub round : ℕ → GraphState draft target → Option (GraphState draft target)
  round gamma s = do
    (prop, gd) ← propose draft s.clen 0 gamma s.pending s.gd
    verify gamma s prop gd

  unfoldable pub spec_loop : ℕ → ℕ → ℕ → GraphState draft target → Option (GraphState draft target)
  spec_loop zero gamma n_new s = none
  spec_loop (suc fuel) gamma n_new s =
      let again = (round gamma s >>= λ s'. spec_loop fuel gamma n_new s') in
      if ltb (length s.committed) n_new then again else some s

  unfoldable pub graphed_spec : Graphed draft → Graphed target → List ℕ → ℕ → ℕ → Option (List ℕ)
  graphed_spec gd gt prompt_ids gamma n_new = do
    gd' ← prefill draft gd (drop_last prompt_ids)
    gt' ← prefill target gt (drop_last prompt_ids)
    pending ← get_last? prompt_ids
    s ←
        spec_loop (suc n_new) gamma n_new (record {
          gd = gd';
          gt = gt';
          pending = pending;
          clen = length prompt_ids;
          committed = [];
        })
    some (take n_new s.committed)
