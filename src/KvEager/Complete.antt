-- ===== src/KvEager/Complete.antt =====
-- `run_kv` of benchmarks/e2e/serve_kv_eager.py finishes every request.
use adapter_slots_plus_plus.Common.{
  ℕ, lt→ltb, zero, suc, ◌+◌, ◌≤◌, ◌<◌, ◌≡◌, ◌∙◌, sym, refl, inl, inr, List, [], ◌∷◌, map,
  append-nil, none, some, false, arith, Bool-cases,
}
use adapter_slots_plus_plus.Models.Greedy.{greedy}
use adapter_slots_plus_plus.Multitenant.{max_length}
use adapter_slots_plus_plus.Multitenant.Padding.{Filled}
use adapter_slots_plus_plus.Serving.{Kind}
use adapter_slots_plus_plus.KvEager.Iter.{KvModel, KvRow}
use adapter_slots_plus_plus.KvEager.Prefill.{start_row-Sees}
use adapter_slots_plus_plus.KvEager.Extend.{iterate_kv-AllExtended}
use adapter_slots_plus_plus.KvEager.Run.{
  Request, has_token, eos_done, any_unfinished, start_rows, commit, finish_one, serve, run_kv,
}
use adapter_slots_plus_plus.KvEager.Finish.{
  AllServed, AllFinished, AllServed-AllSee, AllServed-finish_one, any_unfinished-lt,
  AllServed-AllFinished,
}

-- Nothing is committed yet.
abbrev fresh : List ℕ → Request
fresh p = record { committed = []; finish = none }

fresh-running : (out_tokens eos : ℕ) → 0 < out_tokens → eos_done [] out_tokens eos ≡ false
unfolding eos_done has_token
fresh-running out_tokens eos h = ground (arith, h)

start_rows-AllServed :
    (target : KvModel) (out_tokens pad_id s : ℕ) (kind : Kind) (prompts : List (List ℕ))
    → 0 < out_tokens
    → Filled prompts
    → (rows : List KvRow) × (dones : List (List ℕ)) × (start_rows kind pad_id s prompts ≡ some rows)
      × AllServed target out_tokens pad_id 0 rows dones (map fresh prompts) prompts
unfolding start_rows greedy
start_rows-AllServed target out_tokens pad_id s kind [] asked f = ([], [], refl, tt)
start_rows-AllServed target out_tokens pad_id s kind (p ∷ prompts) asked (h, f) =
    let (r, done, ran, read, sees) = start_row-Sees kind pad_id s p h in
    let (rows, dones, rest, v) =
      start_rows-AllServed target out_tokens pad_id s kind prompts asked f in
    (
      r ∷ rows,
      done ∷ dones,
      rw (ran, rest) refl,
      (
        (
          sees,
          (
            [],
            read ∙ sym (append-nil p),
            refl,
            omega arith,
            (refl, fresh-running out_tokens pad_id asked),
          ),
        ),
        v,
      ),
    )

module _ (draft target : KvModel) (gamma out_tokens pad_id : ℕ) (some_proposed : 0 < gamma) where
  serve-AllFinished :
      (kind : Kind) (left it : ℕ) (rows : List KvRow) (dones : List (List ℕ))
      (requests : List Request) (prompts : List (List ℕ))
      → it ≤ out_tokens
      → out_tokens ≤ it + left
      → AllServed target out_tokens pad_id it rows dones requests prompts
      → (requests' : List Request) × (it' : ℕ) × (serve draft target gamma out_tokens pad_id kind
            left it rows requests
          ≡ some (requests', it'))
        × (it' ≤ out_tokens)
        × AllFinished target out_tokens pad_id it' requests' prompts
  unfolding serve
  serve-AllFinished kind zero it rows dones requests prompts in_time enough v =
      elim (Bool-cases (any_unfinished requests)) [
        | inr stop ↦ (
          requests,
          it,
          refl,
          in_time,
          AllServed-AllFinished target out_tokens pad_id it rows dones requests prompts v stop,
        )
        | inl more ↦
            let less =
              any_unfinished-lt target out_tokens pad_id it rows dones requests prompts v more in
            absurd (omega (arith, less, enough))
      ]
  serve-AllFinished kind (suc left) it rows dones requests prompts in_time enough v =
      elim (Bool-cases (any_unfinished requests)) [
        | inr stop ↦ (
          requests,
          it,
          rw stop refl,
          in_time,
          AllServed-AllFinished target out_tokens pad_id it rows dones requests prompts v stop,
        )
        | inl more ↦
            let less =
              any_unfinished-lt target out_tokens pad_id it rows dones requests prompts v more in
            let (rows₁, dones₁, news, ran, e) =
              iterate_kv-AllExtended draft target gamma out_tokens pad_id kind rows dones
                some_proposed
                (AllServed-AllSee target out_tokens pad_id it rows dones requests prompts v) in
            let (requests', it', rest, late, over) =
              serve-AllFinished kind left (suc it) rows₁ dones₁
                (map (finish_one out_tokens pad_id (suc it)) (commit requests news)) prompts
                (omega (arith, less)) (omega (arith, enough))
                (AllServed-finish_one target out_tokens pad_id it rows dones requests prompts rows₁
                  dones₁ news v e) in
            (requests', it', rw (more, ran) rest, late, over)
      ]

  -- For at least one proposal an iteration, 1 to 6001 tokens, and a batch of prompts none of which is
  -- empty and one of which has two tokens or more, `run_kv` returns and its limit of iterations does not cut it short: after at most
  -- `out_tokens` iterations, with every request finished. What is committed of a request is the
  -- target's own greedy decoding after its prompt, and has the end-of-sequence token or at least
  -- `out_tokens` tokens. This holds for both kinds and for every draft.
  pub run_kv_lem :
      (kind : Kind) (prompts : List (List ℕ))
      → 1 < max_length prompts
      → Filled prompts
      → 0 < out_tokens
      → out_tokens ≤ 6001
      → (requests : List Request) × (it : ℕ) × (run_kv draft target gamma out_tokens pad_id kind
            prompts
          ≡ some (requests, it))
        × (it ≤ out_tokens)
        × AllFinished target out_tokens pad_id it requests prompts
  unfolding run_kv max_length
  run_kv_lem kind [] wide f asked few = absurd (omega arith)
  run_kv_lem kind (p ∷ prompts) wide f asked few =
      let s = max_length (p ∷ prompts) in
      let (rows, dones, ran, v) =
        start_rows-AllServed target out_tokens pad_id s kind (p ∷ prompts) asked f in
      let (requests, it, rest, late, over) =
        serve-AllFinished kind 6001 0 rows dones (map fresh (p ∷ prompts)) (p ∷ prompts)
          (omega arith) (omega (arith, few)) v in
      (requests, it, rw (lt→ltb _ _ wide, ran) rest, late, over)
