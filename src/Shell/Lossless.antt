-- ===== src/Shell/Lossless.antt =====
-- `split_segments` against a description of where a command has to be cut.
use zhongshu.Prelude.{
  ℕ, zero, suc, ◌-◌, Bool, true, false, ◌||◌, List, [], ◌∷◌, ◌++◌, Option, none, some, eqb,
  if◌then◌else◌, ◌≡◌, refl, sym, ap, subst, ◌∙◌, ◌⊎◌, inl, inr, arith, append-nil, append_assoc,
  Bool-cases, Option-cases,
}
use zhongshu.Prelude.Codes.{Codes, trim}
use zhongshu.Shell.Types.{ShellSegment, ShellOperator, op_and, op_or, pipe, sequence, background}
use zhongshu.Shell.Split.{
  Splitter, no_segments, segment_of, push_segment, next_is, operator_at, keep_char, scan,
  split_loop, split_segments,
}
use zhongshu.Shell.Cut.{
  Quoting, unquoted, advance, is_bare, quoting_after, has_no_operator, symbol, is_whole, Cut, whole,
  cut,
}

skip_chars : ℕ → Codes → Codes
skip_chars zero s = s
skip_chars (suc n) [] = []
skip_chars (suc n) (c ∷ s) = skip_chars n s

-- What the variables of the loop say of the text since the last operator.
record Scanned (s : Splitter) : Type 0 where
  clean : has_no_operator unquoted s.current ≡ true
  quoting : quoting_after unquoted s.current ≡ (s.quote, s.escaped)

quoting_after-snoc :
    (q : Quoting) (s : Codes) (c : ℕ)
    → quoting_after q (s ++ c ∷ []) ≡ advance c (quoting_after q s)
unfolding quoting_after
quoting_after-snoc q [] c = refl
quoting_after-snoc q (d ∷ s) c = quoting_after-snoc (advance d q) s c

has_no_operator-snoc :
    (q : Quoting) (s : Codes) (c : ℕ)
    → has_no_operator q s ≡ true
    → is_bare c (quoting_after q s) ≡ false
    → has_no_operator q (s ++ c ∷ []) ≡ true
unfolding has_no_operator quoting_after
has_no_operator-snoc q [] c h b = ground (arith, b)
has_no_operator-snoc q (d ∷ s) c h b = ground (arith, h, has_no_operator-snoc (advance d q) s c, b)

abbrev Operator : ℕ → Codes → ShellOperator × ℕ → Type 0
Operator c rest (op, width) =
    (operator_at c rest ≡ some (op, width))
    × (c ∷ rest ≡ symbol op ++ skip_chars (width - 1) rest)
    × (is_whole op (skip_chars (width - 1) rest) ≡ true)

twice : (c : ℕ) (rest : Codes) → next_is c rest ≡ true → c ∷ rest ≡ c ∷ c ∷ skip_chars 1 rest
unfolding next_is skip_chars
twice c [] h = absurd (ground (arith, h))
twice c (d ∷ rest) h = ground (arith, h)

operator_at_cases :
    (c : ℕ) (rest : Codes)
    → ((operator_at c rest ≡ none) × (is_bare c unquoted ≡ false))
      ⊎ ((w : ShellOperator × ℕ) × Operator c rest w)
unfolding operator_at is_bare skip_chars
operator_at_cases c rest = elim (Bool-cases (eqb c b'&')) [
  | inl e ↦ elim (Bool-cases (next_is b'&' rest)) [
    | inl n ↦ inr ((op_and, 2), (ground (arith, e, n), ground (arith, e, twice b'&' rest n), refl))
    | inr n ↦ inr ((background, 1), (ground (arith, e, n), ground (arith, e), ground (arith, n)))
  ]
  | inr e ↦ elim (Bool-cases (eqb c b'|')) [
    | inl f ↦ elim (Bool-cases (next_is b'|' rest)) [
      | inl n ↦
          inr ((op_or, 2), (ground (arith, e, f, n), ground (arith, f, twice b'|' rest n), refl))
      | inr n ↦ inr ((pipe, 1), (ground (arith, e, f, n), ground (arith, f), ground (arith, n)))
    ]
    | inr f ↦ elim (Bool-cases (eqb c b';')) [
      | inl g ↦ inr ((sequence, 1), (ground (arith, e, f, g), ground (arith, g), refl))
      | inr g ↦ inl (ground (arith, e, f, g), ground (arith, e, f, g))
    ]
  ]
]

-- A turn that goes on with the same segment.
record Kept (c : ℕ) (s t : Splitter) : Type 0 where
  segments : t.segments ≡ s.segments
  operator_before : t.operator_before ≡ s.operator_before
  current : t.current ≡ s.current ++ c ∷ []
  scanned : Scanned t

Scanned-keep :
    (c : ℕ) (s : Splitter) (quote : Option ℕ) (escaped : Bool)
    → Scanned s
    → is_bare c (s.quote, s.escaped) ≡ false
    → advance c (s.quote, s.escaped) ≡ (quote, escaped)
    → Kept c s (record (keep_char c s) { quote = quote; escaped = escaped })
unfolding keep_char
Scanned-keep c s quote escaped h b a = record {
  segments = refl;
  operator_before = refl;
  current = refl;
  scanned = record {
    clean = has_no_operator-snoc unquoted s.current c h.clean (ap (is_bare c) h.quoting ∙ b);
    quoting = quoting_after-snoc unquoted s.current c ∙ ap (advance c) h.quoting ∙ a;
  };
}

abbrev Scans : ℕ → Codes → Splitter → Type 0
Scans c rest s =
    ((t : Splitter) × (scan c rest s ≡ (t, 1)) × Kept c s t)
    ⊎ ((s.quote ≡ none)
        × (s.escaped ≡ false)
        × (w : ShellOperator × ℕ) × Operator c rest w
        × (scan c rest s
            ≡ (record (push_segment (some w.0) s) { operator_before = some w.0 }, w.1)))

scan_cases : (c : ℕ) (rest : Codes) (s : Splitter) → Scanned s → Scans c rest s
unfolding scan advance is_bare
scan_cases c rest s h = elim (Bool-cases s.escaped) [
  | inl e ↦ inl (
    record (keep_char c s) { escaped = false },
    ground (arith, e),
    Scanned-keep c s s.quote false h (ground (arith, e)) (ground (arith, e)),
  )
  | inr e ↦ elim (Bool-cases (eqb c b'\\')) [
    | inl f ↦ inl (
      record (keep_char c s) { escaped = true },
      ground (arith, e, f),
      Scanned-keep c s s.quote true h (ground (arith, e, f)) (ground (arith, e, f)),
    )
    | inr f ↦ elim (Option-cases s.quote) [
      | inr (q, g) ↦ inl (
        record (keep_char c s) { quote = if eqb c q then none else some q; escaped = s.escaped },
        ground (arith, e, f, g),
        Scanned-keep c s (if eqb c q then none else some q) s.escaped h (ground (arith, e, g))
            (ground (arith, e, f, g)),
      )
      | inl g ↦ elim (Bool-cases (eqb c b'\'' || eqb c b'"')) [
        | inl k ↦ inl (
          record (keep_char c s) { quote = some c; escaped = s.escaped },
          ground (arith, e, f, g, k),
          Scanned-keep c s (some c) s.escaped h (ground (arith, e, f, g, k))
              (ground (arith, e, f, g, k)),
        )
        | inr k ↦ elim (operator_at_cases c rest) [
          | inl (no_op, b) ↦ inl (
            keep_char c s,
            ground (arith, e, f, g, k, no_op),
            Scanned-keep c s s.quote s.escaped h (ground (arith, e, g, b))
                (ground (arith, e, f, g, k)),
          )
          | inr (w, (o, rest_is, longest)) ↦
              inr (g, e, w, (o, rest_is, longest), ground (arith, e, f, g, k, o))
        ]
      ]
    ]
  ]
]

-- The state behind an operator.
abbrev behind : ShellOperator → Splitter → Splitter
behind op s = record (push_segment (some op) s) { operator_before = some op }

Scanned-behind :
    (op : ShellOperator) (s : Splitter) → s.quote ≡ none → s.escaped ≡ false → Scanned (behind op s)
unfolding push_segment has_no_operator quoting_after
Scanned-behind op s g e = record { clean = refl; quoting = ground (arith, g, e) }

finished : Splitter → List ShellSegment
finished s = (push_segment none s).segments

-- What the loop and the push after it do from a state on.
abbrev Cuts : Splitter → Codes → Splitter → Type 0
Cuts s rest end =
    (segments : List ShellSegment) × (finished end ≡ s.segments ++ segments)
    × Cut s.operator_before (s.current ++ rest) segments

Cuts-Kept :
    {c : ℕ} {s t : Splitter} (rest : Codes) (end : Splitter)
    → Kept c s t
    → Cuts t rest end
    → Cuts s (c ∷ rest) end
Cuts-Kept {c} {s} {t} rest end k (segments, e, x) = (
  segments,
  e ∙ ap (λ l. l ++ segments) k.segments,
  subst (λ before. Cut before (s.current ++ c ∷ rest) segments) k.operator_before
      (subst (λ text. Cut t.operator_before text segments)
        (ap (λ l. l ++ rest) k.current ∙ append_assoc s.current (c ∷ []) rest) x),
)

Cuts-behind :
    (op : ShellOperator) (s : Splitter) (rest : Codes) (end : Splitter)
    → Scanned s
    → s.quote ≡ none
    → s.escaped ≡ false
    → is_whole op rest ≡ true
    → Cuts (behind op s) rest end
    → Cuts s (symbol op ++ rest) end
unfolding push_segment
Cuts-behind op s rest end h g e longest (segments, p, x) = (
  segment_of (trim s.current) s.operator_before (some op) ++ segments,
  p ∙ append_assoc s.segments (segment_of (trim s.current) s.operator_before (some op)) segments,
  cut s.operator_before s.current op h.clean (h.quoting ∙ ground (arith, g, e)) longest x,
)

Cuts-end : (s : Splitter) → Scanned s → Cuts s [] s
unfolding finished push_segment
Cuts-end s h = (
  segment_of (trim s.current) s.operator_before none,
  refl,
  subst (λ text. Cut s.operator_before text (segment_of (trim s.current) s.operator_before none))
      (sym (append-nil s.current)) (whole s.operator_before s.current h.clean),
)

split_loop-Cuts :
    (skip : ℕ) (s : Splitter) (rest : Codes)
    → Scanned s
    → Cuts s (skip_chars skip rest) (split_loop skip s rest)
unfolding split_loop skip_chars
split_loop-Cuts zero s [] h = Cuts-end s h
split_loop-Cuts (suc skip) s [] h = Cuts-end s h
split_loop-Cuts (suc skip) s (c ∷ rest) h = split_loop-Cuts skip s rest h
split_loop-Cuts zero s (c ∷ rest) h = elim (scan_cases c rest s h) [
  | inl (t, e, k) ↦
      subst (λ r. Cuts s (c ∷ rest) (split_loop (r.1 - 1) r.0 rest)) (sym e)
        (Cuts-Kept rest (split_loop 0 t rest) k (split_loop-Cuts 0 t rest k.scanned))
  | inr (g, e, w, (o, rest_is, longest), step) ↦
      subst (λ r. Cuts s (c ∷ rest) (split_loop (r.1 - 1) r.0 rest)) (sym step)
        (subst (λ text. Cuts s text (split_loop (w.1 - 1) (behind w.0 s) rest)) (sym rest_is)
          (Cuts-behind w.0 s (skip_chars (w.1 - 1) rest) (split_loop (w.1 - 1) (behind w.0 s) rest)
            h g e longest
            (split_loop-Cuts (w.1 - 1) (behind w.0 s) rest (Scanned-behind w.0 s g e))))
]

-- `split_segments` cuts a command where it has to be cut, and loses nothing of it: the command is
-- made up of texts that hold no operator but in quotes or behind a backslash, and of the longest
-- operators between them, which stand outside of quotes, and the segments are those texts, trimmed,
-- in their order, each with the operators at its sides, without those that are blank.
pub split_segments-Cut : (command : Codes) → Cut none command (split_segments command)
unfolding split_segments finished has_no_operator quoting_after skip_chars
split_segments-Cut command =
    let (segments, e, x) =
      split_loop-Cuts 0 no_segments command (record { clean = refl; quoting = refl }) in
    subst (Cut none command) (sym e) x
