-- ===== src/KvEager/Run.antt =====
-- benchmarks/e2e/serve_kv_eager.py: `run_kv`, which decodes a batch over append-only caches until
-- every request is finished.
use adapter_slots_plus_plus.Common.{
  ℕ, ltb, zero, suc, ◌+◌, ◌-◌, List, [], ◌∷◌, ◌++◌, map, Option, none, some, Bool, true, false,
  ◌||◌, ◌&&◌, ◌==◌, leb, length, take, drop_last, get_last?, if◌then◌else◌, ◌>>=◌,
}
use adapter_slots_plus_plus.Multitenant.{max_length, positions, pad_ids, pad_mask}
use adapter_slots_plus_plus.Serving.{Kind, non_speculative, speculative}
use adapter_slots_plus_plus.KvEager.{CacheRow, feed}
use adapter_slots_plus_plus.KvEager.Slots.{real_slots}
use adapter_slots_plus_plus.KvEager.Iter.{KvModel, KvRow, Found, spec_kv_iter}

-- The slots that a row's ids, mask and positions fill.
unfoldable pub slots_of : List ℕ → List ℕ → List ℕ → CacheRow
slots_of (x ∷ ids) (b ∷ mask) (p ∷ pos) =
    record { token = x; pos = p; real = b == 1 } ∷ slots_of ids mask pos
slots_of _ _ _ = []

-- `KVBatch.prefill`, on a row that `pad_left` has padded to the width `s`: all but its last token.
unfoldable pub prefill_row : ℕ → ℕ → List ℕ → CacheRow
unfolding slots_of pad_ids pad_mask positions
prefill_row pad_id s p =
    drop_last (slots_of (pad_ids pad_id s p) (pad_mask s p) (positions 0 (pad_mask s p)))

-- Where nothing is speculative, there is no draft, and its cache stays empty.
unfoldable pub start_draft : Kind → CacheRow → CacheRow
start_draft non_speculative row = []
start_draft speculative row = row

-- A prompt without a token raises at `p[-1]`.
unfoldable pub start_row : Kind → ℕ → ℕ → List ℕ → Option KvRow
unfolding prefill_row start_draft
start_row kind pad_id s p = do
  last ← get_last? p
  some (record {
    target = prefill_row pad_id s p;
    draft = start_draft kind (prefill_row pad_id s p);
    real_len = length p;
    pending = last;
  })

unfoldable pub start_rows : Kind → ℕ → ℕ → List (List ℕ) → Option (List KvRow)
unfolding start_row
start_rows kind pad_id s [] = some []
start_rows kind pad_id s (p ∷ prompts) = do
  r ← start_row kind pad_id s p
  rest ← start_rows kind pad_id s prompts
  some (r ∷ rest)

-- A request's entries of `committed` and `finish`.
pub record Request : Type 0 where
  pub committed : List ℕ
  pub finish : Option ℕ

-- `finish[i] is None`
unfoldable pub is_none : Option ℕ → Bool
is_none none = true
is_none (some f) = false

-- The tokens of an iteration, for each request that is not finished.
unfoldable pub commit_one : Request → List ℕ → Request
unfolding is_none
commit_one q tokens = if is_none q.finish then record q { committed = q.committed ++ tokens } else q

unfoldable pub commit : List Request → List (List ℕ) → List Request
unfolding commit_one
commit (q ∷ requests) (tokens ∷ news) = commit_one q tokens ∷ commit requests news
commit requests _ = requests

-- `eos in seq`
unfoldable pub has_token : ℕ → List ℕ → Bool
has_token eos [] = false
has_token eos (x ∷ seq) = x == eos || has_token eos seq

-- `_eos_done`
unfoldable pub eos_done : List ℕ → ℕ → ℕ → Bool
unfolding has_token
eos_done seq out_tokens eos = has_token eos seq || leb out_tokens (length seq)

unfoldable pub finish_one : ℕ → ℕ → ℕ → Request → Request
unfolding is_none eos_done
finish_one out_tokens eos it q =
    if is_none q.finish && eos_done q.committed out_tokens eos
    then record q { finish = some it }
    else q

-- `any(f is None for f in finish)`
unfoldable pub any_unfinished : List Request → Bool
unfolding is_none
any_unfinished [] = false
any_unfinished (q ∷ requests) = is_none q.finish || any_unfinished requests

-- An iteration without a draft, on one row.
unfoldable pub plain : KvModel → KvRow → KvRow × List ℕ
unfolding feed real_slots
plain target r =
    let fed = feed r.target (r.real_len - 1) (r.pending ∷ []) in
    let nt = target (real_slots fed) in
    (record r { target = fed; real_len = r.real_len + 1; pending = nt }, nt ∷ [])

module _ (draft target : KvModel) (gamma out_tokens pad_id : ℕ) where
  -- An iteration: the rows behind it, and the tokens that it commits of each.
  unfoldable pub iterate_kv : Kind → List KvRow → Option (List KvRow × List (List ℕ))
  unfolding plain spec_kv_iter
  iterate_kv non_speculative rows =
      some (map (λ r. (plain target r).0) rows, map (λ r. (plain target r).1) rows)
  iterate_kv speculative rows = do
    (rows', all) ← spec_kv_iter draft target gamma rows
    some (rows', map (λ (found : Found). take found.acc found.prop ++ found.bonus ∷ []) all)

  -- The loop, with `left` iterations before the break.
  unfoldable pub serve : Kind → ℕ → ℕ → List KvRow → List Request → Option (List Request × ℕ)
  unfolding iterate_kv commit finish_one
  serve kind zero it rows requests = some (requests, it)
  serve kind (suc left) it rows requests =
      let again = do
        (rows', news) ← iterate_kv kind rows
        serve kind left (suc it) rows'
            (map (finish_one out_tokens pad_id (suc it)) (commit requests news))
      in if any_unfinished requests then again else some (requests, it)

  -- `max` of no prompts raises, and so does a forward pass of no token, in `prefill`. The loop breaks behind iteration 6001.
  unfoldable pub run_kv : Kind → List (List ℕ) → Option (List Request × ℕ)
  unfolding start_rows max_length
  run_kv kind [] = none
  run_kv kind (p ∷ prompts) =
      let started = do
        rows ← start_rows kind pad_id (max_length (p ∷ prompts)) (p ∷ prompts)
        serve kind 6001 0 rows (map (λ p. record { committed = []; finish = none }) (p ∷ prompts))
      in if ltb 1 (max_length (p ∷ prompts)) then started else none
