-- ===== src/Models.antt =====
-- The language models that the decoding loops call. transformers, torch and the weights are not
-- part of the repository, so a model is a parameter: `CachedModel` is a causal language model
-- called through a `DynamicCache`, for one sequence, and `IsCausal` is the documented behaviour
-- of the two. `next` is greedy decoding's next token after a context, in exact arithmetic.
pub mod Greedy
use adapter_slots_plus_plus.Common.{ℕ, ◌≡◌, refl, List, [], ◌∷◌, ◌++◌, map, take}

pub record CachedModel : Type 1 where
  pub Logits : Type 0
  pub Cache : Type 0
  -- `logits.argmax(-1)` of one position
  pub argmax : Logits → ℕ
  -- `DynamicCache()`
  pub new_cache : Cache
  -- `model(input_ids=x, use_cache=True, past_key_values=cache)`: the logits of the positions of `x`
  pub forward : List ℕ → Cache → List Logits × Cache
  -- `model(input_ids=x, use_cache=False)`
  pub forward_uncached : List ℕ → List Logits
  -- `cache.crop(n)`
  pub crop : ℕ → Cache → Cache

-- The logits of each position of `xs`, fed after the context `ctx`.
unfoldable pub logits_after {ℓ} : {L : Type ℓ} → (List ℕ → L) → List ℕ → List ℕ → List L
logits_after f ctx [] = []
logits_after f ctx (x ∷ xs) = f (ctx ++ x ∷ []) ∷ logits_after f (ctx ++ x ∷ []) xs

-- A position's logits depend on the tokens up to it alone, wherever they are read from: a forward
-- pass appends its tokens to the cache, and `crop` keeps the first ones.
pub record IsCausal (m : CachedModel) : Type 0 where
  pub logits : List ℕ → m.Logits
  pub contents : m.Cache → List ℕ
  pub contents-new_cache : contents m.new_cache ≡ []
  pub forward_logits :
      (x : ℕ) (xs : List ℕ) (c : m.Cache)
      → (m.forward (x ∷ xs) c).0 ≡ logits_after logits (contents c) (x ∷ xs)
  pub forward_contents :
      (x : ℕ) (xs : List ℕ) (c : m.Cache) → contents (m.forward (x ∷ xs) c).1 ≡ contents c ++ x ∷ xs
  pub uncached_logits :
      (x : ℕ) (xs : List ℕ) → m.forward_uncached (x ∷ xs) ≡ logits_after logits [] (x ∷ xs)
  pub contents-crop : (n : ℕ) (c : m.Cache) → contents (m.crop n c) ≡ take n (contents c)

-- Greedy decoding's next token.
abbrev pub next : {m : CachedModel} → IsCausal m → List ℕ → ℕ
next {m} law ctx = m.argmax (law.logits ctx)

-- A model that keeps the tokens themselves as its cache, from any next-token function.
abbrev pub token_model : (List ℕ → ℕ) → CachedModel
token_model f = record {
  Logits = ℕ;
  Cache = List ℕ;
  argmax = λ l. l;
  new_cache = [];
  forward = λ xs c. (logits_after f c xs, c ++ xs);
  forward_uncached = λ xs. logits_after f [] xs;
  crop = λ n c. take n c;
}

abbrev pub token_model-IsCausal : (f : List ℕ → ℕ) → IsCausal (token_model f)
token_model-IsCausal f = record {
  logits = f;
  contents = λ c. c;
  contents-new_cache = refl;
  forward_logits = λ x xs c. refl;
  forward_contents = λ x xs c. refl;
  uncached_logits = λ x xs. refl;
  contents-crop = λ n c. refl;
}
