-- ===== src/Prelude/Results.antt =====
-- `Result`, and the `?` operator as a bind.
use mathlib.Core.Path.{◌≡◌, refl}
use mathlib.Core.Logic.{◌⊎◌, inl, inr}
use mathlib.Core.Bool.{Bool, true, false}
use mathlib.Core.Option.{Option, none, some}
use mathlib.Core.List.{List, [], ◌∷◌, ◌++◌}
use native.Mathlib.Omega.{arith}

pub data Result {ℓ κ} (E : Type ℓ) (A : Type κ) : Type (ℓ ⊔ κ) where
  ok : A → Result E A
  err : E → Result E A

infixl 5 ◌>>=◌ ◌>>◌
abbrev pub ◌>>=◌ {ℓ κ μ} :
    {E : Type ℓ} {A : Type κ} {B : Type μ} → Result E A → (A → Result E B) → Result E B
ok a >>= f = f a
err e >>= f = err e

abbrev pub ◌>>◌ {ℓ κ} : {E : Type ℓ} {B : Type κ} → Result E (Unit {0}) → Result E B → Result E B
m >> k = m >>= λ _. k

-- `if !test { return Err(e) }`.
abbrev pub ensure {ℓ} : {E : Type ℓ} → Bool → E → Result E (Unit {0})
ensure true e = ok tt
ensure false e = err e

-- `ok_or_else`.
abbrev pub ok_or {ℓ κ} : {E : Type ℓ} {A : Type κ} → Option A → E → Result E A
ok_or none e = err e
ok_or (some a) e = ok a

-- A `for` loop whose body may leave by `?`.
module _ {ℓ κ μ} {E : Type ℓ} {S : Type κ} {X : Type μ} where
  unfoldable pub fold_result : (S → X → Result E S) → S → List X → Result E S
  fold_result f s [] = ok s
  fold_result f s (x ∷ xs) = elim (f s x) [ ok t ↦ fold_result f t xs | err e ↦ err e ]

pub Result-cases {ℓ κ} :
    {E : Type ℓ} {A : Type κ} (r : Result E A) → ((a : A) × (r ≡ ok a)) ⊎ ((e : E) × (r ≡ err e))
Result-cases (ok a) = inl (a, refl)
Result-cases (err e) = inr (e, refl)

module _ {ℓ κ μ} {E : Type ℓ} {S : Type κ} {X : Type μ} (f : S → X → Result E S) where
  pub fold_result-cons :
      (s t : S) (x : X) (xs : List X) → f s x ≡ ok t → fold_result f s (x ∷ xs) ≡ fold_result f t xs
  unfolding fold_result
  fold_result-cons s t x xs e = rw (e, fold_result)

  -- A loop that succeeds has a first round that does.
  pub fold_result-first :
      (s t : S) (x : X) (xs : List X)
      → fold_result f s (x ∷ xs) ≡ ok t
      → (u : S) × (f s x ≡ ok u) × (fold_result f u xs ≡ ok t)
  unfolding fold_result
  fold_result-first s t x xs h = elim (Result-cases (f s x)) [
    | inl (u, e) ↦ (u, e, rw (e, fold_result) at h)
    | inr (x', e) ↦ cc (rw (e, fold_result) at h)
  ]

  pub fold_result-snoc :
      (s t : S) (xs : List X) (x : X)
      → fold_result f s xs ≡ ok t
      → fold_result f s (xs ++ x ∷ []) ≡ f t x
  unfolding fold_result
  fold_result-snoc s t [] x h = ground (arith, h)
  fold_result-snoc s t (y ∷ ys) x h = elim (Result-cases (f s y)) [
    | inl (u, e) ↦ rw (e, fold_result) (fold_result-snoc u t ys x (rw (e, fold_result) at h))
    | inr (x', e) ↦ cc (rw (e, fold_result) at h)
  ]
