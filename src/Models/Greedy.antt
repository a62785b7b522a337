-- ===== src/Models/Greedy.antt =====
-- Greedy decoding as a specification: the tokens that a next-token function appends to a context,
-- and what verifying a proposal against it finds.
use adapter_slots_plus_plus.Common.{
  ℕ, zero, suc, ◌+◌, ◌≤◌, ◌≡◌, refl, ap, sym, ◌∙◌, subst, inl, inr, List, [], ◌∷◌, ◌++◌, append-nil,
  append_snoc, some, true, arith, length, take, get_elem?, ◌==◌, if◌then◌else◌, Bool-cases, ==_iff,
  length-append,
}

-- The next `n` tokens after `ctx`.
unfoldable pub greedy : (List ℕ → ℕ) → ℕ → List ℕ → List ℕ
greedy f zero ctx = []
greedy f (suc n) ctx = f ctx ∷ greedy f n (ctx ++ f ctx ∷ [])

-- What the target predicts after `ctx`, and after each further token of `xs`.
unfoldable pub predictions : (List ℕ → ℕ) → List ℕ → List ℕ → List ℕ
predictions f ctx [] = f ctx ∷ []
predictions f ctx (x ∷ xs) = f ctx ∷ predictions f (ctx ++ x ∷ []) xs

-- The loop that counts the accepted proposals: `for j in range(gamma): if pred[j] == prop[j]:
-- a += 1, else: break`.
unfoldable pub accepted : List ℕ → List ℕ → ℕ
accepted (p ∷ ps) (x ∷ xs) = if p == x then suc (accepted ps xs) else 0
accepted (p ∷ ps) [] = 0
accepted [] xs = 0

pub length-greedy : (f : List ℕ → ℕ) (n : ℕ) (ctx : List ℕ) → length (greedy f n ctx) ≡ n
unfolding greedy
length-greedy f zero ctx = refl
length-greedy f (suc n) ctx = ap suc (length-greedy f n (ctx ++ f ctx ∷ []))

pub greedy-add :
    (f : List ℕ → ℕ) (m n : ℕ) (ctx : List ℕ)
    → greedy f (m + n) ctx ≡ greedy f m ctx ++ greedy f n (ctx ++ greedy f m ctx)
unfolding greedy
greedy-add f zero n ctx = rw (append-nil, zero_add) refl
  where
    zero_add : {k : ℕ} → 0 + k ≡ k
    zero_add {k} = omega arith
greedy-add f (suc m) n ctx =
    let e : suc m + n ≡ suc (m + n) = omega arith in
    rw e (
      ap (◌∷◌ (f ctx)) (
        greedy-add f m n (ctx ++ f ctx ∷ [])
        ∙ ap (λ k. greedy f m (ctx ++ f ctx ∷ []) ++ greedy f n k)
            (append_snoc ctx (f ctx) (greedy f m (ctx ++ f ctx ∷ [])))))

-- Fewer tokens are the first ones.
pub take-greedy :
    (f : List ℕ → ℕ) (n k : ℕ) (ctx : List ℕ) → n ≤ k → take n (greedy f k ctx) ≡ greedy f n ctx
unfolding greedy
take-greedy f zero k ctx h = refl
take-greedy f (suc n) zero ctx h = absurd (omega arith)
take-greedy f (suc n) (suc k) ctx h =
    ap (◌∷◌ (f ctx)) (take-greedy f n k (ctx ++ f ctx ∷ []) (omega arith))

pub length-predictions :
    (f : List ℕ → ℕ) (ctx xs : List ℕ) → length (predictions f ctx xs) ≡ suc (length xs)
unfolding predictions
length-predictions f ctx [] = refl
length-predictions f ctx (x ∷ xs) = ap suc (length-predictions f (ctx ++ x ∷ []) xs)

pub accepted-le : (ps xs : List ℕ) → accepted ps xs ≤ length xs
unfolding accepted
accepted-le (p ∷ ps) (x ∷ xs) = ground (arith, accepted-le ps xs)
accepted-le (p ∷ ps) [] = omega arith
accepted-le [] xs = omega arith

-- The accepted proposals are greedy decoding's own tokens, and the prediction behind them is the
-- token after those.
pub accepted-greedy :
    (f : List ℕ → ℕ) (ctx xs : List ℕ)
    → let a = accepted (predictions f ctx xs) xs in
      (take a xs ≡ greedy f a ctx)
      × (get_elem? (predictions f ctx xs) a ≡ some (f (ctx ++ greedy f a ctx)))
unfolding predictions accepted greedy
accepted-greedy f ctx [] = (refl, ap (λ l. some (f l)) (sym (append-nil ctx)))
accepted-greedy f ctx (x ∷ xs) = elim (Bool-cases (f ctx == x)) [
  | inl same ↦
      let e : f ctx ≡ x = (==_iff _ _).0 same in
      let (prefix, bonus) = accepted-greedy f (ctx ++ x ∷ []) xs in
      rw same (rw e (ap (◌∷◌ x) prefix), rw e (bonus ∙ ap (λ l. some (f l)) (append_snoc ctx x _)))
  | inr differs ↦ rw differs (refl, ap (λ l. some (f l)) (sym (append-nil ctx)))
]

-- A proposal that is greedy decoding's own is accepted whole.
pub accepted_self :
    (f : List ℕ → ℕ) (n : ℕ) (ctx : List ℕ)
    → accepted (predictions f ctx (greedy f n ctx)) (greedy f n ctx) ≡ n
unfolding predictions accepted greedy
accepted_self f zero ctx = refl
accepted_self f (suc n) ctx = rw (eq_self (f ctx)) (ap suc (accepted_self f n (ctx ++ f ctx ∷ [])))
  where
    eq_self : (a : ℕ) → (a == a) ≡ true
    eq_self a = ground arith

-- Greedy decoding's last token.
pub greedy-suc :
    (f : List ℕ → ℕ) (n : ℕ) (ctx : List ℕ)
    → greedy f (suc n) ctx ≡ greedy f n ctx ++ f (ctx ++ greedy f n ctx) ∷ []
unfolding greedy
greedy-suc f zero ctx = ap (λ l. f l ∷ []) (sym (append-nil ctx))
greedy-suc f (suc n) ctx = ap (◌∷◌ (f ctx)) (
    greedy-suc f n (ctx ++ f ctx ∷ [])
    ∙ ap (λ l. greedy f n (ctx ++ f ctx ∷ []) ++ f l ∷ []) (append_snoc ctx (f ctx) _))

-- The tokens `done` are the first ones of greedy decoding after `ids`.
abbrev pub IsGreedy : (List ℕ → ℕ) → List ℕ → List ℕ → Type 0
IsGreedy f ids done = done ≡ greedy f (length done) ids

pub IsGreedy-append :
    (f : List ℕ → ℕ) (ids done : List ℕ) (k : ℕ)
    → IsGreedy f ids done
    → IsGreedy f ids (done ++ greedy f k (ids ++ done))
IsGreedy-append f ids done k h =
    let e : length (done ++ greedy f k (ids ++ done)) ≡ length done + k =
      length-append done (greedy f k (ids ++ done))
      ∙ ap (λ n. length done + n) (length-greedy f k (ids ++ done)) in
    ap (λ l. l ++ greedy f k (ids ++ done)) h
    ∙ ap (λ l. greedy f (length done) ids ++ greedy f k (ids ++ l)) h
    ∙ sym (greedy-add f (length done) k ids)
    ∙ ap (λ n. greedy f n ids) (sym e)

-- Committing accepted proposals, and the prediction behind them, keeps a transcript greedy.
pub IsGreedy-commit :
    (f : List ℕ → ℕ) (ids done ctx w : List ℕ) (a : ℕ)
    → IsGreedy f ids done
    → ctx ≡ ids ++ done
    → w ≡ greedy f a ctx
    → IsGreedy f ids (done ++ (w ++ f (ctx ++ greedy f a ctx) ∷ []))
IsGreedy-commit f ids done ctx w a h e agree =
    subst (λ l. IsGreedy f ids (done ++ l))
      (sym (
        ap (λ l. l ++ f (ctx ++ greedy f a ctx) ∷ []) agree
        ∙ sym (greedy-suc f a ctx)
        ∙ ap (greedy f (suc a)) e))
      (IsGreedy-append f ids done (suc a) h)
