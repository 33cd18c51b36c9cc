-- ===== src/Message/Follows.antt =====
-- Control tokens in what the filter lets through, against the input that it comes from.
use zhongshu.Prelude.{
  ℕ, Bool, true, false, ◌||◌, List, [], ◌∷◌, ◌++◌, eqb, any, All, ◌≡◌, refl, ap, ◌⊎◌, inl, inr,
  arith, Bool-cases,
}
use zhongshu.Prelude.Codes.{Codes, starts_with, is_nothing}
use zhongshu.Message.Filter.{control_prefixes, is_break, line_break, lowercase, is_control}

-- What is used of `char::to_lowercase`: breaks stay as they are, and no other character than `<` has
-- a lower case that begins with `<`, or one that is empty.
pub record IsLower (lower : ℕ → Codes) : Type 0 where
  pub keeps_break : (c : ℕ) → is_break c ≡ true → lower c ≡ c ∷ []
  pub keeps_bracket : lower b'<' ≡ b'<' ∷ []
  pub no_bracket :
      (c : ℕ)
      → eqb c b'<' ≡ false
      → (d : ℕ) × (ds : Codes) × (lower c ≡ d ∷ ds) × (eqb d b'<' ≡ false)

-- Output against the input that it comes from: the same up to a break, or up to its end.
pub data Follows : Codes → Codes → Type 0 where
  ends : {r : Codes} → Follows [] r
  breaks : {w : ℕ} {o r : Codes} → is_break w ≡ true → Follows (w ∷ o) r
  same : {c : ℕ} {o r : Codes} → Follows o r → Follows (c ∷ o) (c ∷ r)

HasNoBreak : Codes → Type 0
HasNoBreak p = All (λ c. is_break c ≡ false) p

starts_with-append :
    (x y z p : Codes)
    → ((q : Codes) → HasNoBreak q → starts_with y q ≡ true → starts_with z q ≡ true)
    → HasNoBreak p
    → starts_with (x ++ y) p ≡ true
    → starts_with (x ++ z) p ≡ true
unfolding starts_with HasNoBreak
starts_with-append [] y z p f nb h = f p nb h
starts_with-append (c ∷ x) y z [] f nb h = refl
starts_with-append (c ∷ x) y z (d ∷ p) f nb h = ground (arith, h, starts_with-append x y z p f nb.1)

-- Nothing, or a break first.
unfoldable pub StartsBroken : Codes → Type 0
StartsBroken [] = Unit
StartsBroken (w ∷ o) = is_break w ≡ true

-- Nothing stands at the head of the input but a break.
Follows-StartsBroken : {o r : Codes} → Follows o r → StartsBroken r → StartsBroken o
unfolding StartsBroken
Follows-StartsBroken ends h = tt
Follows-StartsBroken (breaks b) h = b
Follows-StartsBroken (same f) h = h

prefixes-HaveNoBreak : All HasNoBreak control_prefixes
unfolding control_prefixes HasNoBreak is_break
prefixes-HaveNoBreak = ground arith

break_mismatch :
    (w d : ℕ) (y p : Codes)
    → is_break w ≡ true
    → is_break d ≡ false
    → starts_with (w ∷ y) (d ∷ p) ≡ false
unfolding is_break starts_with
break_mismatch w d y p b n = ground (arith, b, n)

pub is_nothing-snoc : (s : Codes) (c : ℕ) → is_nothing (s ++ c ∷ []) ≡ false
unfolding is_nothing
is_nothing-snoc [] c = refl
is_nothing-snoc (d ∷ s) c = refl

-- A text that starts with a break, or has ended, follows any input.
pub broken_follows : (o r : Codes) → StartsBroken o → Follows o r
unfolding StartsBroken
broken_follows [] r h = ends
broken_follows (w ∷ o) r h = breaks h

pub is_nothing-append : (s t : Codes) → is_nothing s ≡ false → is_nothing (s ++ t) ≡ false
unfolding is_nothing
is_nothing-append [] t h = cc
is_nothing-append (c ∷ s) t h = refl

pub line_break-StartsBroken :
    (output rest more : Codes)
    → is_nothing output ≡ false
    → Follows more rest
    → StartsBroken (line_break output rest ++ more)
unfolding line_break StartsBroken
line_break-StartsBroken output [] more full f = Follows-StartsBroken f tt
line_break-StartsBroken output (c ∷ rest) more full f = elim (Bool-cases (is_break c)) [
  | inl e ↦ rw (full, e) (Follows-StartsBroken f e)
  | inr e ↦ rw (full, e) (unfold is_break in refl)
]

module _ (lower : ℕ → Codes) where
  -- A control token begins somewhere in the text.
  unfoldable pub has_control : Codes → Bool
  has_control [] = false
  has_control (c ∷ s) = is_control lower (c ∷ s) || has_control s

module _ (lower : ℕ → Codes) (is_lower : IsLower lower) where
  Follows-starts_with :
      {o r : Codes}
      → Follows o r
      → (p : Codes) → HasNoBreak p
      → starts_with (lowercase lower o) p ≡ true
      → starts_with (lowercase lower r) p ≡ true
  unfolding lowercase starts_with HasNoBreak
  Follows-starts_with ends [] nb h = refl
  Follows-starts_with ends (d ∷ p) nb h = cc
  Follows-starts_with (breaks b) [] nb h = refl
  Follows-starts_with (breaks {w} {o} b) (d ∷ p) nb h = cc (
    h,
    ap (λ x. starts_with (x ++ lowercase lower o) (d ∷ p)) (is_lower.keeps_break w b),
    break_mismatch w d (lowercase lower o) p b nb.0,
  )
  Follows-starts_with (same {c} {o} {r} f) p nb h =
      starts_with-append (lower c) (lowercase lower o) (lowercase lower r) p (Follows-starts_with f)
        nb h

  any-prefix :
      {o r : Codes} (ps : List Codes)
      → Follows o r
      → All HasNoBreak ps
      → any (λ p. starts_with (lowercase lower o) p) ps ≡ true
      → any (λ p. starts_with (lowercase lower r) p) ps ≡ true
  unfolding any
  any-prefix {o} {r} [] f nb h = h
  any-prefix {o} {r} (p ∷ ps) f nb h = elim (Bool-cases (starts_with (lowercase lower o) p)) [
    | inl e ↦ ground (arith, Follows-starts_with f p nb.0 e)
    | inr e ↦ ground (arith, e, h, any-prefix {o = o} {r = r} ps f nb.1)
  ]

  Follows-is_control :
      {o r : Codes} → Follows o r → is_control lower o ≡ true → is_control lower r ≡ true
  unfolding is_control
  Follows-is_control f h = any-prefix control_prefixes f prefixes-HaveNoBreak h

  pub no_control : (c : ℕ) (s : Codes) → eqb c b'<' ≡ false → is_control lower (c ∷ s) ≡ false
  unfolding is_control lowercase control_prefixes starts_with any
  no_control c s h = let (d, ds, e, f) = is_lower.no_bracket c h in rw e (ground (arith, f))

  pub has_control-copied :
      (c : ℕ) (more rest : Codes)
      → Follows more rest
      → has_control lower more ≡ false
      → (eqb c b'<' ≡ false) ⊎ (is_control lower (c ∷ rest) ≡ false)
      → has_control lower (c ∷ more) ≡ false
  unfolding has_control
  has_control-copied c more rest f clean (inl other) =
      ground (arith, clean, no_control c more other)
  has_control-copied c more rest f clean (inr ordinary) =
      ground (arith, clean, ordinary, Follows-is_control (same {c = c} f))

  pub line_break-clean :
      (output rest more : Codes)
      → has_control lower more ≡ false
      → has_control lower (line_break output rest ++ more) ≡ false
  unfolding line_break has_control
  line_break-clean output [] more h = h
  line_break-clean output (c ∷ rest) more h = ground (arith, h, no_control 10 more)
