-- ===== src/Attention/Latest.antt =====
-- The last elements of a list, as many as a bound allows.
use zhongshu.Prelude.{
  ℕ, List, [], ◌∷◌, ◌++◌, if◌then◌else◌, leb, length, length-append, Bool-cases, ◌≡◌, ◌≤◌, refl,
  arith, inl, inr,
}

module _ {ℓ} {A : Type ℓ} where
  unfoldable pub latest : ℕ → List A → List A
  latest n [] = []
  latest n (x ∷ xs) = let rest = latest n xs in if leb (length (x ∷ xs)) n then x ∷ xs else rest

  pub length-latest_le : (n : ℕ) (xs : List A) → length (latest n xs) ≤ n
  unfolding latest
  length-latest_le n [] = omega arith
  length-latest_le n (x ∷ xs) = ground (arith, length-latest_le n xs)

  pub latest_short : (n : ℕ) (xs : List A) → length xs ≤ n → latest n xs ≡ xs
  unfolding latest
  latest_short n [] h = refl
  latest_short n (x ∷ xs) h = ground (arith, h)

  pub latest-append : (n : ℕ) (xs ys : List A) → latest n (latest n xs ++ ys) ≡ latest n (xs ++ ys)
  unfolding latest
  latest-append n [] ys = refl
  latest-append n (x ∷ xs) ys = elim (Bool-cases (leb (length (x ∷ xs)) n)) [
    | inl e ↦ rw (latest, e) refl
    | inr e ↦ ground (arith, e, latest-append n xs ys, length-append (x ∷ xs) ys)
  ]
