-- ===== src/Prelude/Lists.antt =====
-- Lists over native numbers, and the tests `any` and `all` of the source's iterators.
use Prim.Native.Nat.{ℕ, suc, ◌+◌}
use mathlib.Core.Path.{◌≡◌, refl, sym, ap, subst}
use mathlib.Core.Bool.{Bool, true, false, ◌&&◌, ◌||◌}
use mathlib.Core.Option.{Option, none, some}
use mathlib.Core.List.{List, [], ◌∷◌, ◌++◌, map}
use native.Mathlib.Omega.{arith}
use zhongshu.Prelude.Tests.{if◌then◌else◌, Bool-cases}
use mathlib.Core.Logic.{inl, inr}

module _ {ℓ} {A : Type ℓ} where
  abbrev pub length : List A → ℕ
  length [] = 0
  length (x ∷ xs) = suc (length xs)

  pub length-append : (xs ys : List A) → length (xs ++ ys) ≡ length xs + length ys
  length-append [] ys = omega arith
  length-append (x ∷ xs) ys = omega (arith, length-append xs ys)

  -- `iter().any(p)` and `iter().all(p)`.
  unfoldable pub any : (A → Bool) → List A → Bool
  any p [] = false
  any p (x ∷ xs) = p x || any p xs

  unfoldable pub all : (A → Bool) → List A → Bool
  all p [] = true
  all p (x ∷ xs) = p x && all p xs

  -- `iter().filter(p)`.
  unfoldable pub keep : (A → Bool) → List A → List A
  keep p [] = []
  keep p (x ∷ xs) = let rest = keep p xs in if p x then x ∷ rest else rest

  -- `iter().find(p)`.
  unfoldable pub find : (A → Bool) → List A → Option A
  find p [] = none
  find p (x ∷ xs) = if p x then some x else find p xs

-- A predicate of every element, and of some element, by recursion.
module _ {ℓ κ} {A : Type ℓ} (P : A → Type κ) where
  abbrev pub All : List A → Type κ
  All [] = Unit
  All (x ∷ xs) = P x × All xs

-- Membership, as a family that can be matched.
pub data In {ℓ} {A : Type ℓ} (a : A) : List A → Type ℓ where
  here : {x : A} {xs : List A} → a ≡ x → In a (x ∷ xs)
  there : {x : A} {xs : List A} → In a xs → In a (x ∷ xs)

module _ {ℓ} {A : Type ℓ} where
  pub all-keep :
      (p q : A → Bool) (xs : List A)
      → all p (keep q xs) ≡ true
      → All (λ x. q x ≡ true → p x ≡ true) xs
  unfolding all keep
  all-keep p q [] h = tt
  all-keep p q (x ∷ xs) h = (ground arith, all-keep p q xs (ground arith))

  pub all-keep_of :
      (p q : A → Bool) (xs : List A)
      → All (λ x. q x ≡ true → p x ≡ true) xs
      → all p (keep q xs) ≡ true
  unfolding all keep
  all-keep_of p q [] h = refl
  all-keep_of p q (x ∷ xs) h = ground (arith, h.0, all-keep_of p q xs h.1)

  -- Of the results of a `filter` and a `map`, one that passes a test comes from a kept element.
  pub any-map-keep {κ} :
      {B : Type κ} (f : A → B) (p : B → Bool) (q : A → Bool) (xs : List A)
      → any p (map f (keep q xs)) ≡ true
      → (x : A) × In x xs × (p (f x) ≡ true) × (q x ≡ true)
  unfolding any keep
  any-map-keep f p q [] h = cc
  any-map-keep f p q (x ∷ xs) h = elim (Bool-cases (q x && p (f x))) [
    | inl e ↦ (x, here refl, ground arith, ground arith)
    | inr e ↦ let (y, i, e, r) = any-map-keep f p q xs (ground arith) in (y, there i, e, r)
  ]

  pub any-keep :
      (p q : A → Bool) (xs : List A)
      → any p (keep q xs) ≡ true
      → (x : A) × In x xs × (p x ≡ true) × (q x ≡ true)
  unfolding any keep
  any-keep p q [] h = cc
  any-keep p q (x ∷ xs) h = elim (Bool-cases (q x && p x)) [
    | inl e ↦ (x, here refl, ground arith, ground arith)
    | inr e ↦ let (y, i, e, r) = any-keep p q xs (ground arith) in (y, there i, e, r)
  ]

  pub any-keep_of :
      (p q : A → Bool) {x : A} (xs : List A)
      → In x xs
      → p x ≡ true
      → q x ≡ true
      → any p (keep q xs) ≡ true
  unfolding any keep
  any-keep_of p q [] i e r = elim i [ ]
  any-keep_of p q (y ∷ ys) (here s) e r = ground (arith, ap p s, ap q s)
  any-keep_of p q (y ∷ ys) (there i) e r = ground (arith, any-keep_of p q ys i e r)

  pub All-In {κ} : (P : A → Type κ) {x : A} (xs : List A) → All P xs → In x xs → P x
  All-In P [] h i = elim i [ ]
  All-In P (y ∷ ys) h (here e) = subst P (sym e) h.0
  All-In P (y ∷ ys) h (there i) = All-In P ys h.1 i

  pub All-map {κ μ} :
      {P : A → Type κ} {Q : A → Type μ} (f : (x : A) → P x → Q x) (xs : List A)
      → All P xs
      → All Q xs
  All-map f [] h = tt
  All-map f (x ∷ xs) h = (f x h.0, All-map f xs h.1)

  pub All-append {κ} : (P : A → Type κ) (xs ys : List A) → All P xs → All P ys → All P (xs ++ ys)
  All-append P [] ys h k = k
  All-append P (x ∷ xs) ys h k = (h.0, All-append P xs ys h.1 k)

  pub any-map-keep_of {κ} :
      {B : Type κ} (f : A → B) (p : B → Bool) (q : A → Bool) {x : A} (xs : List A)
      → In x xs
      → p (f x) ≡ true
      → q x ≡ true
      → any p (map f (keep q xs)) ≡ true
  unfolding any keep
  any-map-keep_of f p q [] i e r = elim i [ ]
  any-map-keep_of f p q (y ∷ ys) (here s) e r = ground (arith, ap (λ z. p (f z)) s, ap q s)
  any-map-keep_of f p q (y ∷ ys) (there i) e r = ground (arith, any-map-keep_of f p q ys i e r)

  pub All-zip {κ μ} :
      (P : A → Type κ) (Q : A → Type μ) (xs : List A)
      → All P xs
      → All Q xs
      → All (λ x. P x × Q x) xs
  All-zip P Q [] h k = tt
  All-zip P Q (x ∷ xs) h k = ((h.0, k.0), All-zip P Q xs h.1 k.1)

  pub find-some : (p : A → Bool) (xs : List A) {x : A} → find p xs ≡ some x → In x xs × (p x ≡ true)
  unfolding find
  find-some p [] h = cc
  find-some p (y ∷ ys) {x} h = elim (Bool-cases (p y)) [
    | inl e ↦ (here (ground arith), ground (arith, ap p))
    | inr e ↦ let (i, q) = find-some p ys {x = x} (ground arith) in (there i, q)
  ]

  pub find-none : (p : A → Bool) (xs : List A) → find p xs ≡ none → All (λ x. p x ≡ false) xs
  unfolding find
  find-none p [] h = tt
  find-none p (y ∷ ys) h = (ground arith, find-none p ys (ground arith))
