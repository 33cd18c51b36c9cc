-- ===== src/Shell/Verdict.antt =====
-- What the verdict on a command says of each of its segments.
use zhongshu.Prelude.{
  ℕ, ◌≤◌, Bool, true, false, ◌||◌, List, [], ◌∷◌, if◌then◌else◌, ◌≡◌, ◌⊎◌, inl, inr, refl, arith,
  All, In, here, there, Bool-cases, leb, any, ◌∙◌, sym, subst,
}
use zhongshu.Prelude.Codes.{Codes, trim}
use zhongshu.Shell.Types.{
  ShellSegment, ShellSemantics, ShellCommandClass, noop, read, search, list, build, verification,
  network, mutation, destructive, unknown, blocked, combine,
}
use zhongshu.Shell.Split.{split_segments}
use zhongshu.Shell.Classify.{classify_segment, detect_block_reason, requires_segment_approval}
use zhongshu.Shell.Analyze.{
  Findings, look_at, look_at_all, analyze, nothing_found, conclude, or_else, is_set,
}

-- How bad a class is, by the rank that `combine` goes by; the derived order of the source is another.
abbrev pub severity : ShellCommandClass → ℕ
severity noop = 0
severity read = 1
severity list = 2
severity search = 3
severity build = 4
severity verification = 5
severity unknown = 6
severity network = 7
severity mutation = 8
severity destructive = 9
severity blocked = 10

combine_max :
    (a b : ShellCommandClass) → combine a b ≡ (if leb (severity a) (severity b) then b else a)
unfolding combine
combine_max a b = ground arith

combine_one : (a b : ShellCommandClass) → (combine a b ≡ a) ⊎ (combine a b ≡ b)
combine_one a b = elim (Bool-cases (leb (severity a) (severity b))) [
  | inl e ↦ inr (ground (arith, combine_max a b, e))
  | inr e ↦ inl (ground (arith, combine_max a b, e))
]

module _ (lowercase : Codes → Codes) where
  abbrev pub class_of_segment : ShellSegment → ShellCommandClass
  class_of_segment s = classify_segment lowercase s

  abbrev pub needs_approval : ShellSegment → Bool
  needs_approval s = requires_segment_approval lowercase s (class_of_segment s)

  abbrev pub is_blocked : ShellSegment → Bool
  is_blocked s = is_set (detect_block_reason lowercase s.text)

  look_at_all-approval :
      (f : Findings) (segments : List ShellSegment)
      → (look_at_all lowercase f segments).requires_approval
        ≡ (f.requires_approval || any needs_approval segments)
  unfolding look_at_all any look_at
  look_at_all-approval f [] = ground arith
  look_at_all-approval f (s ∷ segments) =
      look_at_all-approval (look_at lowercase s f) segments ∙ ground arith

  look_at_all-block :
      (f : Findings) (segments : List ShellSegment)
      → is_set (look_at_all lowercase f segments).block_reason
        ≡ (is_set f.block_reason || any is_blocked segments)
  unfolding look_at_all any look_at or_else is_set
  look_at_all-block f [] = ground arith
  look_at_all-block f (s ∷ segments) =
      look_at_all-block (look_at lowercase s f) segments ∙ ground arith

  -- No class of a segment is worse than the class of the command.
  abbrev pub Bounds : ShellCommandClass → List ShellSegment → Type 0
  Bounds c segments = All (λ s. severity (class_of_segment s) ≤ severity c) segments

  look_at_all-class :
      (f : Findings) (segments : List ShellSegment)
      → (severity f.command_class ≤ severity (look_at_all lowercase f segments).command_class)
        × Bounds (look_at_all lowercase f segments).command_class segments
        × (((look_at_all lowercase f segments).command_class ≡ f.command_class)
            ⊎ ((s : ShellSegment) × In s segments
                × (class_of_segment s ≡ (look_at_all lowercase f segments).command_class)))
  unfolding look_at_all look_at
  look_at_all-class f [] = (omega arith, tt, inl refl)
  look_at_all-class f (s ∷ segments) =
      let (low, each, worst) = look_at_all-class (look_at lowercase s f) segments in
      let m = combine_max f.command_class (class_of_segment s) in
      (
        ground (arith, low, m),
        (ground (arith, low, m), each),
        elim worst [
          | inl e ↦ elim (combine_one f.command_class (class_of_segment s)) [
            | inl p ↦ inl (e ∙ p)
            | inr p ↦ inr (s, here refl, sym (e ∙ p))
          ]
          | inr (t, i, e) ↦ inr (t, there i, e)
        ],
      )

  any_or :
      (p q : ShellSegment → Bool) (segments : List ShellSegment)
      → (any p segments || any q segments) ≡ any (λ s. p s || q s) segments
  unfolding any
  any_or p q [] = refl
  any_or p q (s ∷ segments) = ground (arith, any_or p q segments)

  abbrev judge : Codes → Codes → List ShellSegment → ShellSemantics
  judge raw normalized segments =
      conclude lowercase raw normalized segments
        (look_at_all lowercase (nothing_found lowercase normalized) segments)

  conclude_approval :
      (raw normalized : Codes) (segments : List ShellSegment)
      → (judge raw normalized segments).requires_approval
        ≡ any (λ s. needs_approval s || is_blocked s) segments
  unfolding conclude nothing_found is_set
  conclude_approval raw normalized segments = ground (
    arith,
    look_at_all-approval (nothing_found lowercase normalized) segments,
    look_at_all-block (nothing_found lowercase normalized) segments,
    any_or needs_approval is_blocked segments,
  )

  -- The class of a segment, or that of no segments.
  abbrev pub Named : ShellCommandClass → List ShellSegment → Type 0
  Named c segments = (c ≡ noop) ⊎ ((s : ShellSegment) × In s segments × (class_of_segment s ≡ c))

  abbrev pub Classed : ShellCommandClass → List ShellSegment → Type 0
  Classed c segments =
      ((any is_blocked segments ≡ true) × (c ≡ blocked))
      ⊎ ((any is_blocked segments ≡ false) × Bounds c segments × Named c segments)

  conclude_class :
      (raw normalized : Codes) (segments : List ShellSegment)
      → Classed (judge raw normalized segments).command_class segments
  unfolding conclude nothing_found is_set
  conclude_class raw normalized segments =
      let b = look_at_all-block (nothing_found lowercase normalized) segments in
      let (low, each, worst) = look_at_all-class (nothing_found lowercase normalized) segments in
      elim (Bool-cases (any is_blocked segments)) [
        | inl e ↦ inl (e, ground (arith, b, e))
        | inr e ↦
            let same_class : (look_at_all lowercase (nothing_found lowercase normalized)
                  segments).command_class
                ≡ (judge raw normalized segments).command_class =
              ground (arith, b, e) in
            inr (
              e,
              subst (λ c. Bounds c segments) same_class each,
              subst (λ c. Named c segments) same_class worst,
            )
      ]

  -- A command needs an approval exactly when one of its segments does, by its class, its operators
  -- or an expansion, or is one that is blocked.
  pub analyze_requires_approval :
      (command : Codes)
      → (analyze lowercase command).requires_approval
        ≡ any (λ s. needs_approval s || is_blocked s) (split_segments (trim command))
  unfolding analyze
  analyze_requires_approval command =
      conclude_approval command (trim command) (split_segments (trim command))

  -- A command is blocked because a segment of it is; if none is, then its class is the worst of the
  -- classes of its segments: none of them is worse, and one of them has it, unless the class is
  -- `noop`.
  pub analyze_class :
      (command : Codes)
      → Classed (analyze lowercase command).command_class (split_segments (trim command))
  unfolding analyze
  analyze_class command = conclude_class command (trim command) (split_segments (trim command))
