-- ===== src/Patch/Endings.antt =====
-- What `write_text_preserving` makes of the ends of lines.
use zhongshu.Prelude.{ℕ, true, [], ◌∷◌, ◌≡◌, refl, sym, ap, arith, inl, inr, Bool-cases}
use zhongshu.Prelude.Codes.{Codes, starts_with}
use zhongshu.Patch.Types.{LineEnding, lf, crlf, mixed, no_ending}
use zhongshu.Patch.Replace.{replace_text, rest_length}
use zhongshu.Patch.Encoding.{with_endings}

-- Each end of a line, which is a line feed with or without a carriage return before it, is the pair of
-- both in the second text; the other characters are as they were.
pub data HasPairs : Codes → Codes → Type 0 where
  at_end : HasPairs [] []
  pair : {s t : Codes} → HasPairs s t → HasPairs (13 ∷ 10 ∷ s) (13 ∷ 10 ∷ t)
  bare : {s t : Codes} → HasPairs s t → HasPairs (10 ∷ s) (13 ∷ 10 ∷ t)
  other :
      {s t : Codes} (c : ℕ)
      → ¬ (c ≡ 10)
      → ¬ ((rest : Codes) × (c ∷ s ≡ 13 ∷ 10 ∷ rest))
      → HasPairs s t
      → HasPairs (c ∷ s) (c ∷ t)

-- Ends of lines are changed for a file that has pairs only.
abbrev pub HasEndings : LineEnding → Codes → Codes → Type 0
HasEndings crlf s t = HasPairs s t
HasEndings lf s t = t ≡ s
HasEndings mixed s t = t ≡ s
HasEndings no_ending s t = t ≡ s

starts_pair :
    (c : ℕ) (s : Codes)
    → starts_with (c ∷ s) (13 ∷ 10 ∷ []) ≡ true
    → (rest : Codes) × (c ∷ s ≡ 13 ∷ 10 ∷ rest)
unfolding starts_with
starts_pair c [] h = absurd (ground (arith, h))
starts_pair c (d ∷ s) h = (s, ground (arith, h))

with_pairs : (s t : Codes) → HasPairs s t → with_endings crlf s ≡ t
unfolding with_endings replace_text rest_length starts_with
with_pairs s t at_end = refl
with_pairs s t (pair {s = u} {t = v} h) = ap (λ w. 13 ∷ 10 ∷ w) (with_pairs u v h)
with_pairs s t (bare {s = u} {t = v} h) = ap (λ w. 13 ∷ 10 ∷ w) (with_pairs u v h)
with_pairs s t (other {s = u} {t = v} c not_feed not_pair h) =
    elim (Bool-cases (starts_with (c ∷ u) (13 ∷ 10 ∷ []))) [
      | inl e ↦ absurd (not_pair (starts_pair c u e))
      | inr e ↦ ground (arith, e, not_feed, with_pairs u v h)
    ]

-- The text that is written is the one that the relation names.
pub with_endings-HasEndings :
    (ending : LineEnding) (s t : Codes) → HasEndings ending s t → with_endings ending s ≡ t
unfolding with_endings
with_endings-HasEndings crlf s t h = with_pairs s t h
with_endings-HasEndings lf s t h = sym h
with_endings-HasEndings mixed s t h = sym h
with_endings-HasEndings no_ending s t h = sym h
