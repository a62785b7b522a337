-- ===== src/Tests/Drafts.antt =====
-- Examples for the wrapped draft of benchmarks/e2e/serve_multitenant.py: a network that embeds a token
-- as its number, with one projection, whose adapter `a` adds `a` times the token to it.
use adapter_slots_plus_plus.Common.{
  ℕ, ◌+◌, ◌-◌, ◌*◌, ◌≤◌, ◌≡◌, refl, ap, ap₂, sym, ◌∙◌, subst, List, [], ◌∷◌, ◌++◌, map, Option,
  some, arith, length, length-append, length-map, length-replicate, replicate, take, drop,
  take_append_length, drop-append_length,
}
use adapter_slots_plus_plus.Models.{logits_after}
use adapter_slots_plus_plus.Multitenant.{
  draft_step, per_adapter, sgmv_draft, shared_draft, max_length, pad_ids,
}
use adapter_slots_plus_plus.Multitenant.Padding.{Reads}
use adapter_slots_plus_plus.Multitenant.Lora.{
  Projection, IsBgmv, Network, bgmv_model, apply_rows, pairs, IsRowwise,
}
use adapter_slots_plus_plus.Multitenant.Routing.{draft_step_lem}

abbrev shrink_each : List ℕ → List ℕ → List ℕ → List ℕ
shrink_each (x ∷ xs) (h ∷ hs) (a ∷ idx) = (a * x) ∷ shrink_each xs hs idx
shrink_each _ _ _ = []

abbrev expand_each : List ℕ → List ℕ → List ℕ → List ℕ
expand_each (h ∷ hs) (y ∷ ys) (a ∷ idx) = (y + h) ∷ expand_each hs ys idx
expand_each _ _ _ = []

abbrev projection : Projection ℕ ℕ
projection = record {
  Hidden = ℕ;
  linear = λ x. x;
  add = λ x y. x + y;
  zero_hidden = 0;
  zero_delta = 0;
  bgmv_shrink = shrink_each;
  bgmv_expand = expand_each;
}

abbrev projection-IsBgmv : IsBgmv projection
projection-IsBgmv = record {
  shrink = λ a x. a * x;
  expand = λ a h y. y + h;
  bgmv_shrink-cons = λ x xs h hs a idx. refl;
  bgmv_expand-cons = λ h hs y ys a idx. refl;
}

abbrev flat : List (List ℕ) → List ℕ
flat [] = []
flat (r ∷ rows) = r ++ flat rows

-- The flat batch, cut into rows as long as those of the first list.
abbrev cut : List (List ℕ) → List ℕ → List (List ℕ)
cut [] ys = []
cut (r ∷ rows) ys = take (length r) ys ∷ cut rows (drop (length r) ys)

abbrev network : Network ℕ ℕ
network = record {
  Logits = ℕ;
  argmax = λ l. l;
  forward = λ layers ids mask pos. cut ids (layers 0 (flat ids));
}

-- The last token's projection.
abbrev last_projected : (ℕ → ℕ → ℕ) → List ℕ → ℕ
last_projected f [] = 0
last_projected f (x ∷ []) = f 0 x
last_projected f (x ∷ y ∷ ctx) = last_projected f (y ∷ ctx)

last_projected-snoc :
    (f : ℕ → ℕ → ℕ) (ctx : List ℕ) (x : ℕ) → last_projected f (ctx ++ x ∷ []) ≡ f 0 x
last_projected-snoc f [] x = refl
last_projected-snoc f (y ∷ []) x = refl
last_projected-snoc f (y ∷ z ∷ ctx) x = last_projected-snoc f (z ∷ ctx) x

logits_after-map :
    (f : ℕ → ℕ → ℕ) (ctx r : List ℕ) → logits_after (last_projected f) ctx r ≡ map (f 0) r
unfolding logits_after
logits_after-map f ctx [] = refl
logits_after-map f ctx (x ∷ r) =
    ap₂ ◌∷◌ (last_projected-snoc f ctx x) (logits_after-map f (ctx ++ x ∷ []) r)

map_append : (f : ℕ → ℕ) (xs ys : List ℕ) → map f (xs ++ ys) ≡ map f xs ++ map f ys
map_append f [] ys = refl
map_append f (x ∷ xs) ys = ap (◌∷◌ (f x)) (map_append f xs ys)

-- Rows of at most `s` tokens.
abbrev Narrow : ℕ → List (List ℕ) → Type 0
Narrow s [] = Unit
Narrow s (r ∷ rows) = (length r ≤ s) × Narrow s rows

Narrow-le : (s t : ℕ) (rows : List (List ℕ)) → s ≤ t → Narrow s rows → Narrow t rows
Narrow-le s t [] h n = tt
Narrow-le s t (r ∷ rows) h (n, ns) = (omega (arith, h, n), Narrow-le s t rows h ns)

max_length-Narrow : (rows : List (List ℕ)) → Narrow (max_length rows) rows
unfolding max_length
max_length-Narrow [] = tt
max_length-Narrow (r ∷ rows) =
    (omega arith, Narrow-le (max_length rows) _ rows (omega arith) (max_length-Narrow rows))

length-pad_ids : (pad_id s : ℕ) (r : List ℕ) → length r ≤ s → length (pad_ids pad_id s r) ≡ s
unfolding pad_ids
length-pad_ids pad_id s r h = omega (
  arith,
  h,
  length-append {0} (replicate (s - length r) pad_id) r,
  length-replicate (s - length r) pad_id,
)

length-flat :
    (pad_id s : ℕ) (rows : List (List ℕ))
    → Narrow s rows
    → length (flat (map (pad_ids pad_id s) rows)) ≡ length rows * s
length-flat pad_id s [] n = omega arith
length-flat pad_id s (r ∷ rows) (h, n) = omega (
  arith,
  length-append {0} (pad_ids pad_id s r) (flat (map (pad_ids pad_id s) rows)),
  length-pad_ids pad_id s r h,
  length-flat pad_id s rows n,
)

cut-Reads :
    (of : Option ℕ → ℕ → ℕ → ℕ) (pad_id s : ℕ) (owners : List (Option ℕ)) (rows : List (List ℕ))
    → Narrow s rows
    → length owners ≡ length rows
    → let ids = map (pad_ids pad_id s) rows in
      Reads
        (λ o. last_projected (of o))
        (cut ids (apply_rows (λ o. of o 0) s owners (flat ids)))
        (pairs owners rows)
unfolding apply_rows pad_ids
cut-Reads of pad_id s [] [] n e = tt
cut-Reads of pad_id s [] (r ∷ rows) n e = absurd (omega (arith, e))
cut-Reads of pad_id s (o ∷ owners) [] n e = absurd (omega (arith, e))
cut-Reads of pad_id s (o ∷ owners) (r ∷ rows) (h, n) e =
    let p = pad_ids pad_id s r in
    let ids = map (pad_ids pad_id s) rows in
    let wide = length-pad_ids pad_id s r h in
    let f = of o 0 in
    let first : take s (p ++ flat ids) ≡ p =
      ap (λ k. take k (p ++ flat ids)) (sym wide) ∙ take_append_length p (flat ids) in
    let others : drop s (p ++ flat ids) ≡ flat ids =
      ap (λ k. drop k (p ++ flat ids)) (sym wide) ∙ drop-append_length p (flat ids) in
    let same : length p ≡ length (map f p) = sym (length-map f p) in
    let after = apply_rows (λ o. of o 0) s owners (flat ids) in
    rw (first, others)
      (
        (
          map f (replicate (s - length r) pad_id),
          ap (λ k. take k (map f p ++ after)) same
              ∙ take_append_length (map f p) after
              ∙ split
              ∙ ap (λ l. map f (replicate (s - length r) pad_id) ++ l)
                  (sym (logits_after-map (of o) [] r)),
        ),
        subst (λ ys. Reads (λ o. last_projected (of o)) (cut ids ys) (pairs owners rows))
            (sym (ap (λ k. drop k (map f p ++ after)) same ∙ drop-append_length (map f p) after))
            (cut-Reads of pad_id s owners rows n (omega (arith, e))),
      )
  where
    split :
        map (of o 0) (pad_ids pad_id s r)
        ≡ map (of o 0) (replicate (s - length r) pad_id) ++ map (of o 0) r
    split = map_append (of o 0) (replicate (s - length r) pad_id) r

abbrev network-IsRowwise : (pad_id : ℕ) → IsRowwise network pad_id
network-IsRowwise pad_id = record {
  logits = last_projected;
  forward_lem = λ layers of owners rows same routed.
      let s = max_length rows in
      let ids = map (pad_ids pad_id s) rows in
      let narrow = max_length-Narrow rows in
      subst (λ ys. Reads (λ o. last_projected (of o)) (cut ids ys) (pairs owners rows))
        (sym (routed 0 (flat ids) (length-flat pad_id s rows narrow)))
        (cut-Reads of pad_id s owners rows narrow same);
}

abbrev batch : List (List ℕ)
batch = (7 ∷ 8 ∷ 9 ∷ []) ∷ (4 ∷ []) ∷ (5 ∷ 6 ∷ []) ∷ []

draft_step_lem_example :
    let draft = bgmv_model network (λ k. projection) in
    (draft_step draft batch (2 ∷ 1 ∷ 2 ∷ []) per_adapter 3 ≡ some (27 ∷ 8 ∷ 18 ∷ []))
    × (draft_step draft batch (2 ∷ 1 ∷ 2 ∷ []) sgmv_draft 3 ≡ some (27 ∷ 8 ∷ 18 ∷ []))
    × (draft_step draft batch (2 ∷ 1 ∷ 2 ∷ []) shared_draft 3 ≡ some (9 ∷ 4 ∷ 6 ∷ []))
draft_step_lem_example =
    draft_step_lem (network-IsRowwise 3) (λ k. projection-IsBgmv) batch (2 ∷ 1 ∷ 2 ∷ [])
      (omega arith) refl (omega arith, (omega arith, (omega arith, tt)))
