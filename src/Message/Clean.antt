-- ===== src/Message/Clean.antt =====
-- What is stripped in one pass holds no control token.
use zhongshu.Prelude.{
  ℕ, false, [], ◌∷◌, ◌++◌, eqb, ◌≡◌, refl, sym, ap, subst, ◌∙◌, ◌⊎◌, inl, inr, arith, Bool-cases,
  append-nil, append_assoc,
}
use zhongshu.Prelude.Codes.{Codes, is_nothing}
use zhongshu.Message.Filter.{
  Mode, copying, in_tag, goes, leaves, line_break, is_control, is_prefix, turn, filter_loop,
  strip_control_tokens,
}
use zhongshu.Message.Follows.{
  IsLower, Follows, ends, same, has_control, StartsBroken, broken_follows, is_nothing-snoc,
  is_nothing-append, line_break-StartsBroken, has_control-copied, line_break-clean,
}

module _ (lower : ℕ → Codes) (is_lower : IsLower lower) where
  -- What is added to an output that is not empty.
  Traces : Mode → Codes → Codes → Type 0
  Traces copying rest more = Follows more rest
  Traces (in_tag tag) rest more = StartsBroken more

  record Adds (mode : Mode) (output rest out : Codes) : Type 0 where
    more : Codes
    out_is : out ≡ output ++ more
    clean : has_control lower more ≡ false
    traces : is_nothing output ≡ false → Traces mode rest more

  Adds-nothing : (mode : Mode) (output rest : Codes) → Adds mode output rest output
  unfolding has_control Traces StartsBroken
  Adds-nothing mode output rest = record {
    more = [];
    out_is = sym (append-nil output);
    clean = refl;
    traces = λ full. elim mode as (λ m. Traces m rest []) [ copying ↦ ends | in_tag tag ↦ tt ];
  }

  Adds-char :
      (c : ℕ) (output rest out : Codes)
      → (eqb c b'<' ≡ false) ⊎ (is_control lower (c ∷ rest) ≡ false)
      → Adds copying (output ++ c ∷ []) rest out
      → Adds copying output (c ∷ rest) out
  unfolding Traces
  Adds-char c output rest out ordinary a =
      let f : Follows a.more rest = a.traces (is_nothing-snoc output c) in
      record {
        more = c ∷ a.more;
        out_is = a.out_is ∙ append_assoc output (c ∷ []) a.more;
        clean = has_control-copied lower is_lower c a.more rest f a.clean ordinary;
        traces = λ full. same f;
      }

  Adds-tag :
      (tag : Codes) (c : ℕ) (output rest out : Codes)
      → Adds (in_tag tag) output rest out
      → Adds copying output (c ∷ rest) out
  unfolding Traces
  Adds-tag tag c output rest out a = record {
    more = a.more;
    out_is = a.out_is;
    clean = a.clean;
    traces = λ full. broken_follows a.more (c ∷ rest) (a.traces full);
  }

  Adds-close :
      (tag output rest out : Codes) (c : ℕ)
      → Adds copying (output ++ line_break output rest) rest out
      → Adds (in_tag tag) output (c ∷ rest) out
  unfolding Traces
  Adds-close tag output rest out c a = record {
    more = line_break output rest ++ a.more;
    out_is = a.out_is ∙ append_assoc output (line_break output rest) a.more;
    clean = line_break-clean lower is_lower output rest a.more a.clean;
    traces = λ full.
        line_break-StartsBroken output rest a.more full
          (a.traces (is_nothing-append output (line_break output rest) full));
  }

  Adds-more :
      (tag output rest out : Codes) (c : ℕ)
      → Adds (in_tag (tag ++ c ∷ [])) output rest out
      → Adds (in_tag tag) output (c ∷ rest) out
  unfolding Traces
  Adds-more tag output rest out c a = record {
    more = a.more;
    out_is = a.out_is;
    clean = a.clean;
    traces = a.traces;
  }

  goes_on :
      (mode next : Mode) (c : ℕ) (rest output more : Codes)
      → turn lower mode c rest output ≡ goes next more
      → Adds mode output (c ∷ rest) (filter_loop lower next more rest).0
      → Adds mode output (c ∷ rest) (filter_loop lower mode output (c ∷ rest)).0
  unfolding filter_loop
  goes_on mode next c rest output more e a =
      subst
        (λ t.
          Adds mode output (c ∷ rest)
            (elim t as (λ x. Codes × Codes) [
              | goes n o ↦ filter_loop lower n o rest
              | leaves pending ↦ (output, pending)
            ]).0)
        (sym e) a

  leaves_off :
      (mode : Mode) (c : ℕ) (rest output pending : Codes)
      → turn lower mode c rest output ≡ leaves pending
      → Adds mode output (c ∷ rest) (filter_loop lower mode output (c ∷ rest)).0
  unfolding filter_loop
  leaves_off mode c rest output pending e =
      subst
        (λ t.
          Adds mode output (c ∷ rest)
            (elim t as (λ x. Codes × Codes) [
              | goes n o ↦ filter_loop lower n o rest
              | leaves p ↦ (output, p)
            ]).0)
        (sym e) (Adds-nothing mode output (c ∷ rest))

  filter_loop-Adds :
      (mode : Mode) (output rest : Codes)
      → Adds mode output rest (filter_loop lower mode output rest).0
  unfolding turn
  filter_loop-Adds mode output [] = unfold filter_loop in Adds-nothing mode output []
  filter_loop-Adds (in_tag tag) output (c ∷ rest) = elim (Bool-cases (eqb c b'>')) [
    | inl e ↦
        goes_on (in_tag tag) copying c rest output (output ++ line_break output rest)
          (ground (arith, e))
          (Adds-close tag output rest _ c
            (filter_loop-Adds copying (output ++ line_break output rest) rest))
    | inr e ↦
        goes_on (in_tag tag) (in_tag (tag ++ c ∷ [])) c rest output output (ground (arith, e))
          (Adds-more tag output rest _ c (filter_loop-Adds (in_tag (tag ++ c ∷ [])) output rest))
  ]
  filter_loop-Adds copying output (c ∷ rest) = elim (Bool-cases (eqb c b'<')) [
    | inr e ↦
        goes_on copying copying c rest output (output ++ c ∷ []) (ground (arith, e))
          (Adds-char c output rest _ (inl e) (filter_loop-Adds copying (output ++ c ∷ []) rest))
    | inl e ↦ elim (Bool-cases (is_control lower (c ∷ rest))) [
      | inl f ↦
          goes_on copying (in_tag (c ∷ [])) c rest output output (rw (e, f) refl)
            (Adds-tag (c ∷ []) c output rest _ (filter_loop-Adds (in_tag (c ∷ [])) output rest))
      | inr f ↦ elim (Bool-cases (is_prefix lower (c ∷ rest))) [
        | inl g ↦ leaves_off copying c rest output (c ∷ rest) (rw (e, f, g) refl)
        | inr g ↦ elim (Bool-cases (is_nothing rest)) [
          | inl k ↦ leaves_off copying c rest output (c ∷ []) (rw (e, f, g, k) refl)
          | inr k ↦
              goes_on copying copying c rest output (output ++ c ∷ []) (rw (e, f, g, k) refl) (
                Adds-char c output rest _ (inr f)
                  (filter_loop-Adds copying (output ++ c ∷ []) rest))
        ]
      ]
    ]
  ]

  -- If lowering keeps the breaks and gives no other character a lower case that begins with `<`, then
  -- no control token, in any case, begins anywhere in the text that `strip_control_tokens` gives.
  pub strip_control_tokens-clean :
      (input : Codes) → has_control lower (strip_control_tokens lower input) ≡ false
  unfolding strip_control_tokens
  strip_control_tokens-clean input =
      let a = filter_loop-Adds copying [] input in ap (has_control lower) a.out_is ∙ a.clean
