-- ===== src/Multitenant/Verify.antt =====
-- The verification of one row (`spec_iter` of benchmarks/e2e/serve_multitenant.py).
use adapter_slots_plus_plus.Common.{
  ℕ, suc, ◌+◌, ◌-◌, ◌≡◌, refl, ap, sym, ◌∙◌, List, [], ◌∷◌, ◌++◌, map, append-nil, append_assoc,
  append_snoc, some, arith, length, length-append, drop-append_length, le→ltb_false,
}
use adapter_slots_plus_plus.Models.{logits_after}
use adapter_slots_plus_plus.Models.Greedy.{
  greedy, predictions, accepted, accepted-greedy, greedy-suc, length-predictions,
}
use adapter_slots_plus_plus.SpecLoops.Reference.{argmax-logits_after}
use adapter_slots_plus_plus.Multitenant.{from_end, verify_row}

map-append : {A B : Type 0} (f : A → B) (xs ys : List A) → map f (xs ++ ys) ≡ map f xs ++ map f ys
map-append f [] ys = refl
map-append f (x ∷ xs) ys = ap (◌∷◌ (f x)) (map-append f xs ys)

logits_after-append :
    {L : Type 0} (f : List ℕ → L) (ctx xs ys : List ℕ)
    → logits_after f ctx (xs ++ ys) ≡ logits_after f ctx xs ++ logits_after f (ctx ++ xs) ys
unfolding logits_after
logits_after-append f ctx [] ys = ap (λ c. logits_after f c ys) (sym (append-nil ctx))
logits_after-append f ctx (x ∷ xs) ys = ap (◌∷◌ (f (ctx ++ x ∷ []))) (
    logits_after-append f (ctx ++ x ∷ []) xs ys
    ∙ ap (λ c. logits_after f (ctx ++ x ∷ []) xs ++ logits_after f c ys) (append_snoc ctx x xs))

from_end-append : (n : ℕ) (before xs : List ℕ) → length xs ≡ n → from_end n (before ++ xs) ≡ some xs
unfolding from_end
from_end-append n before xs e =
    let long : length (before ++ xs) ≡ length before + length xs = length-append before xs in
    let at : length (before ++ xs) - n ≡ length before = omega (arith, long, e) in
    rw (le→ltb_false (length (before ++ xs)) n (omega (arith, long, e)), at)
      (ap some (drop-append_length before xs))

module _ {L : Type 0} (am : L → ℕ) (logits : List ℕ → L) where
  abbrev pub token : List ℕ → ℕ
  token ctx = am (logits ctx)

  -- The predictions for a row and its proposals stand at the end.
  pub read_end :
      (junk : List L) (zs : List ℕ) (y : ℕ) (p : List ℕ)
      → map am (junk ++ logits_after logits [] ((zs ++ y ∷ []) ++ p))
        ≡ map am (junk ++ logits_after logits [] zs) ++ predictions token (zs ++ y ∷ []) p
  read_end junk zs y p =
      ap (λ l. map am (junk ++ logits_after logits [] l)) (append_snoc zs y p)
      ∙ ap (λ l. map am (junk ++ l)) (logits_after-append logits [] zs (y ∷ p))
      ∙ ap (map am)
          (sym (append_assoc junk (logits_after logits [] zs) (logits_after logits zs (y ∷ p))))
      ∙ map-append am (junk ++ logits_after logits [] zs) (logits_after logits zs (y ∷ p))
      ∙ ap (λ l. map am (junk ++ logits_after logits [] zs) ++ l)
          (argmax-logits_after am logits zs y p)

  -- What a row's verification commits.
  abbrev pub agreed : List ℕ → List ℕ → ℕ
  agreed r p = accepted (predictions token r p) p

  pub verify_row-greedy :
      (gamma : ℕ) (r p before : List ℕ)
      → length p ≡ gamma
      → verify_row gamma r p (before ++ predictions token r p)
        ≡ some (r ++ greedy token (suc (agreed r p)) r, suc (agreed r p))
  unfolding verify_row
  verify_row-greedy gamma r p before e =
      let (same, bonus) = accepted-greedy token r p in
      let preds = predictions token r p in
      let long : length preds ≡ gamma + 1 = omega (arith, length-predictions token r p, e) in
      let one_more : agreed r p + 1 ≡ suc (agreed r p) = omega arith in
      rw (from_end-append (gamma + 1) before preds long, bonus, one_more, same)
        (ap (λ l. some (r ++ l, suc (agreed r p))) (sym (greedy-suc token (agreed r p) r)))
