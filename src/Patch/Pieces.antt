-- ===== src/Patch/Pieces.antt =====
-- What a replacement does: the text is cut at the matches, and put together with the new text.
use zhongshu.Prelude.{
  ℕ, zero, suc, ◌≤◌, true, false, List, [], ◌∷◌, ◌++◌, length, if◌then◌else◌, ◌≡◌, refl, sym, ap,
  ◌∙◌, arith, inl, inr, Bool-cases,
}
use zhongshu.Prelude.Codes.{Codes, starts_with, is_nothing, join}
use zhongshu.Patch.Replace.{drop, rest_length, count_matches, replace_text, replace_first}

-- A character in front of the first piece.
unfoldable pub onto_first : ℕ → List Codes → List Codes
onto_first c [] = (c ∷ []) ∷ []
onto_first c (piece ∷ pieces) = (c ∷ piece) ∷ pieces

-- The pieces between the matches.
unfoldable pub pieces_of : Codes → ℕ → Codes → List Codes
pieces_of p skip [] = [] ∷ []
pieces_of p (suc skip) (c ∷ s) = pieces_of p skip s
pieces_of p zero (c ∷ s) =
    let after = pieces_of p (rest_length p) s in
    let other = pieces_of p zero s in
    if starts_with (c ∷ s) p then ([] ∷ after) else onto_first c other

pieces_of-nonempty : (p : Codes) (skip : ℕ) (s : Codes) → 1 ≤ length (pieces_of p skip s)
unfolding pieces_of onto_first
pieces_of-nonempty p skip [] = omega arith
pieces_of-nonempty p (suc skip) (c ∷ s) = pieces_of-nonempty p skip s
pieces_of-nonempty p zero (c ∷ s) = ground (arith, pieces_of-nonempty p zero s)

join-nil :
    (p : Codes) (pieces : List Codes)
    → 1 ≤ length pieces
    → join p ([] ∷ pieces) ≡ p ++ join p pieces
unfolding join
join-nil p [] h = absurd (omega (arith, h))
join-nil p (piece ∷ pieces) h = refl

join-onto_first :
    (p : Codes) (c : ℕ) (pieces : List Codes)
    → 1 ≤ length pieces
    → join p (onto_first c pieces) ≡ c ∷ join p pieces
unfolding join onto_first
join-onto_first p c [] h = absurd (omega (arith, h))
join-onto_first p c (piece ∷ []) h = refl
join-onto_first p c (piece ∷ other ∷ pieces) h = refl

length-onto_first :
    (c : ℕ) (pieces : List Codes) → 1 ≤ length pieces → length (onto_first c pieces) ≡ length pieces
unfolding onto_first
length-onto_first c [] h = absurd (omega (arith, h))
length-onto_first c (piece ∷ pieces) h = refl

-- A text that starts with another is that and the rest.
pub starts_with-drop : (p s : Codes) → starts_with s p ≡ true → s ≡ p ++ drop (length p) s
unfolding starts_with drop
starts_with-drop [] s h = refl
starts_with-drop (d ∷ p) [] h = cc
starts_with-drop (d ∷ p) (c ∷ s) h = ground (arith, h, starts_with-drop p s)

pub drop-nil : (n : ℕ) → drop n [] ≡ []
unfolding drop
drop-nil zero = refl
drop-nil (suc n) = refl

module _ (p : Codes) (full : is_nothing p ≡ false) where
  pub drop_match : (c : ℕ) (s : Codes) → drop (rest_length p) s ≡ drop (length p) (c ∷ s)
  unfolding drop rest_length is_nothing
  drop_match c s =
      elim p as (λ q. is_nothing q ≡ false → drop (rest_length q) s ≡ drop (length q) (c ∷ s)) [
        | [] ↦ λ h. absurd (ground (arith, h))
        | d ∷ q ↦ λ h. refl
      ]
        full

  pub join-pieces_of : (skip : ℕ) (s : Codes) → join p (pieces_of p skip s) ≡ drop skip s
  unfolding pieces_of drop join
  join-pieces_of skip [] = sym (drop-nil skip)
  join-pieces_of (suc skip) (c ∷ s) = join-pieces_of skip s
  join-pieces_of zero (c ∷ s) = elim (Bool-cases (starts_with (c ∷ s) p)) [
    | inl e ↦ rw e (
        join-nil p (pieces_of p (rest_length p) s) (pieces_of-nonempty p (rest_length p) s)
        ∙ ap (λ t. p ++ t) (join-pieces_of (rest_length p) s ∙ drop_match c s)
        ∙ sym (starts_with-drop p (c ∷ s) e))
    | inr e ↦ rw e (
        join-onto_first p c (pieces_of p zero s) (pieces_of-nonempty p zero s)
        ∙ ap (λ t. c ∷ t) (join-pieces_of zero s))
  ]

pub replace_text-pieces_of :
    (p r : Codes) (skip : ℕ) (s : Codes) → replace_text p r skip s ≡ join r (pieces_of p skip s)
unfolding replace_text pieces_of join
replace_text-pieces_of p r skip [] = refl
replace_text-pieces_of p r (suc skip) (c ∷ s) = replace_text-pieces_of p r skip s
replace_text-pieces_of p r zero (c ∷ s) = elim (Bool-cases (starts_with (c ∷ s) p)) [
  | inl e ↦ rw e (
      ap (λ t. r ++ t) (replace_text-pieces_of p r (rest_length p) s)
      ∙ sym (join-nil r (pieces_of p (rest_length p) s) (pieces_of-nonempty p (rest_length p) s)))
  | inr e ↦ rw e (
      ap (λ t. c ∷ t) (replace_text-pieces_of p r zero s)
      ∙ sym (join-onto_first r c (pieces_of p zero s) (pieces_of-nonempty p zero s)))
]

pub length-pieces_of :
    (p : Codes) (skip : ℕ) (s : Codes) → length (pieces_of p skip s) ≡ suc (count_matches p skip s)
unfolding pieces_of count_matches
length-pieces_of p skip [] = refl
length-pieces_of p (suc skip) (c ∷ s) = length-pieces_of p skip s
length-pieces_of p zero (c ∷ s) = elim (Bool-cases (starts_with (c ∷ s) p)) [
  | inl e ↦ rw e (ap suc (length-pieces_of p (rest_length p) s))
  | inr e ↦ rw e (
      length-onto_first c (pieces_of p zero s) (pieces_of-nonempty p zero s)
      ∙ length-pieces_of p zero s)
]

-- Nothing is replaced where nothing matches.
replace_nothing :
    (p r : Codes) (skip : ℕ) (s : Codes)
    → count_matches p skip s ≡ 0
    → replace_text p r skip s ≡ drop skip s
unfolding count_matches replace_text drop
replace_nothing p r skip [] h = sym (drop-nil skip)
replace_nothing p r (suc skip) (c ∷ s) h = replace_nothing p r skip s h
replace_nothing p r zero (c ∷ s) h = elim (Bool-cases (starts_with (c ∷ s) p)) [
  | inl e ↦ absurd (ground (arith, h, e))
  | inr e ↦ rw e (ap (λ t. c ∷ t) (replace_nothing p r zero s (ground (arith, h, e))))
]

-- Where there is one match, the first is all.
pub replace_first_lem :
    (p r s : Codes)
    → is_nothing p ≡ false
    → count_matches p 0 s ≡ 1
    → replace_first p r s ≡ replace_text p r 0 s
unfolding count_matches replace_text replace_first
replace_first_lem p r [] full h = refl
replace_first_lem p r (c ∷ s) full h = elim (Bool-cases (starts_with (c ∷ s) p)) [
  | inl e ↦ rw e (
      ap (λ t. r ++ t)
        (sym (drop_match p full c s)
          ∙ sym (replace_nothing p r (rest_length p) s (ground (arith, h, e)))))
  | inr e ↦ rw e (ap (λ t. c ∷ t) (replace_first_lem p r s full (ground (arith, h, e))))
]
