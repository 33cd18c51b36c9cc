-- ===== src/Patch/Cuts.antt =====
-- The pieces between the matches of a text in another.
use zhongshu.Prelude.{
  ℕ, zero, suc, ◌≤◌, true, false, List, [], ◌∷◌, ◌++◌, length, ◌≡◌, refl, sym, ap, subst, ◌∙◌,
  arith, inl, inr, Bool-cases,
}
use zhongshu.Prelude.Codes.{Codes, starts_with, is_nothing}
use zhongshu.Patch.Replace.{drop, rest_length}
use zhongshu.Patch.Pieces.{onto_first, pieces_of, starts_with-drop, drop-nil, drop_match}

-- The text `p` stands somewhere in `s`.
abbrev pub Contains : Codes → Codes → Type 0
Contains p s = (before : Codes) × (after : Codes) × (s ≡ before ++ (p ++ after))

-- In `piece ++ (p ++ rest)` no match of `p` begins before the end of the piece.
abbrev pub IsFirst : Codes → Codes → Codes → Type 0
IsFirst p piece rest =
    (before after : Codes)
    → piece ++ (p ++ rest) ≡ before ++ (p ++ after)
    → length piece ≤ length before

-- The pieces of a text between the matches of `p`: one piece up to the first match, then the pieces of
-- what follows the match, and in the end a piece without a match.
pub data Cuts (p : Codes) : Codes → List Codes → Type 0 where
  uncut : (s : Codes) → ¬ Contains p s → Cuts p s (s ∷ [])
  cut :
      (piece rest : Codes) (pieces : List Codes)
      → IsFirst p piece rest
      → Cuts p rest pieces
      → Cuts p (piece ++ (p ++ rest)) (piece ∷ pieces)

starts_with-append : (p after : Codes) → starts_with (p ++ after) p ≡ true
unfolding starts_with
starts_with-append [] after = refl
starts_with-append (c ∷ p) after = ground (arith, starts_with-append p after)

onto_first-Cuts :
    (p : Codes) (c : ℕ) (s : Codes) (pieces : List Codes)
    → starts_with (c ∷ s) p ≡ false
    → Cuts p s pieces
    → Cuts p (c ∷ s) (onto_first c pieces)
unfolding onto_first
onto_first-Cuts p c s pieces other (uncut t free) = uncut (c ∷ t) (no_match t free other)
  where
    no_match : (t : Codes) → ¬ Contains p t → starts_with (c ∷ t) p ≡ false → ¬ Contains p (c ∷ t)
    no_match t free not_here ([], after, e) =
        absurd (ground (arith, ap (λ u. starts_with u p) e, starts_with-append p after, not_here))
    no_match t free not_here (b ∷ before, after, e) = free (before, after, ground (arith, e))
onto_first-Cuts p c s pieces other (cut piece rest later first cuts) =
    cut (c ∷ piece) rest later (still_first other first) cuts
  where
    still_first :
        starts_with (c ∷ (piece ++ (p ++ rest))) p ≡ false
        → IsFirst p piece rest
        → IsFirst p (c ∷ piece) rest
    still_first not_here is_first [] after e =
        absurd (ground (arith, ap (λ u. starts_with u p) e, starts_with-append p after, not_here))
    still_first not_here is_first (b ∷ before) after e =
        let k = is_first before after (ground (arith, e)) in omega (arith, k)

no_match_in_nil : (p : Codes) → is_nothing p ≡ false → ¬ Contains p []
unfolding is_nothing
no_match_in_nil [] full found = absurd (ground (arith, full))
no_match_in_nil (d ∷ p) full ([], after, e) = absurd (ground (arith, e))
no_match_in_nil (d ∷ p) full (b ∷ before, after, e) = absurd (ground (arith, e))

module _ (p : Codes) (full : is_nothing p ≡ false) where
  pieces_of-Cuts : (skip : ℕ) (s : Codes) → Cuts p (drop skip s) (pieces_of p skip s)
  unfolding pieces_of drop
  pieces_of-Cuts skip [] =
      subst (λ t. Cuts p t ([] ∷ [])) (sym (drop-nil skip)) (uncut [] (no_match_in_nil p full))
  pieces_of-Cuts (suc skip) (c ∷ s) = pieces_of-Cuts skip s
  pieces_of-Cuts zero (c ∷ s) = elim (Bool-cases (starts_with (c ∷ s) p)) [
    | inl e ↦
        let rest : Codes = drop (rest_length p) s in
        let text : p ++ rest ≡ c ∷ s =
          ap (λ t. p ++ t) (drop_match p full c s) ∙ sym (starts_with-drop p (c ∷ s) e) in
        rw e (
          subst (λ t. Cuts p t ([] ∷ pieces_of p (rest_length p) s)) text
            (cut [] rest (pieces_of p (rest_length p) s) (λ before after h. omega arith)
              (pieces_of-Cuts (rest_length p) s)))
    | inr e ↦ rw e (onto_first-Cuts p c s (pieces_of p zero s) e (pieces_of-Cuts zero s))
  ]

  pub pieces_of-Cuts_all : (s : Codes) → Cuts p s (pieces_of p zero s)
  unfolding drop
  pieces_of-Cuts_all s = pieces_of-Cuts zero s
