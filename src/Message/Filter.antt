-- ===== src/Message/Filter.antt =====
-- `ControlTokenFilter` of streaming.rs: the protocol's tags are taken out of the stream.
-- `char::to_lowercase` is the parameter `lower`; a text is lowered character by character.
use zhongshu.Prelude.{ℕ, Bool, not, ◌||◌, List, [], ◌∷◌, ◌++◌, if◌then◌else◌, eqb, any}
use zhongshu.Prelude.Codes.{Codes, codes, starts_with, is_nothing}

unfoldable pub control_prefixes : List Codes
control_prefixes =
    codes "<final_answer"
    ∷ codes "</final_answer"
    ∷ codes "<final-answer"
    ∷ codes "</final-answer"
    ∷ codes "<observation"
    ∷ codes "</observation"
    ∷ codes "<lcm_context"
    ∷ codes "</lcm_context"
    ∷ codes "<tool_result"
    ∷ codes "</tool_result"
    ∷ codes "<system>"
    ∷ codes "</system>"
    ∷ codes "<compressed_summary"
    ∷ codes "</compressed_summary"
    ∷ []

-- The two loops of `feed`: copying, or inside a tag that is collected.
pub data Mode : Type 0 where
  copying : Mode
  in_tag : Codes → Mode

-- What a turn of the outer loop does: it goes on, or it leaves with a pending text.
pub data Turn : Type 0 where
  goes : Mode → Codes → Turn
  leaves : Codes → Turn

-- A `\n`, ` ` or `\t`.
unfoldable pub is_break : ℕ → Bool
is_break c = eqb c 10 || eqb c b' ' || eqb c 9

-- The line break after a tag, unless nothing is out yet, the input ends here, or there is a break.
unfoldable pub line_break : Codes → Codes → Codes
unfolding is_break
line_break output [] = []
line_break output (c ∷ rest) = if is_nothing output || is_break c then [] else 10 ∷ []

module _ (lower : ℕ → Codes) where
  unfoldable pub lowercase : Codes → Codes
  lowercase [] = []
  lowercase (c ∷ s) = lower c ++ lowercase s

  unfoldable pub is_control : Codes → Bool
  unfolding lowercase control_prefixes starts_with
  is_control rest = any (λ p. starts_with (lowercase rest) p) control_prefixes

  unfoldable pub is_prefix : Codes → Bool
  unfolding lowercase control_prefixes starts_with
  is_prefix rest = any (λ p. starts_with p (lowercase rest)) control_prefixes

  unfoldable pub copy_turn : ℕ → Codes → Codes → Turn
  unfolding is_control is_prefix is_nothing
  copy_turn c rest output =
      if not (eqb c b'<')
      then goes copying (output ++ c ∷ [])
      else if is_control (c ∷ rest)
      then goes (in_tag (c ∷ [])) output
      else if is_prefix (c ∷ rest)
      then leaves (c ∷ rest)
      else if is_nothing rest
      then leaves (c ∷ [])
      else goes copying (output ++ c ∷ [])

  unfoldable pub tag_turn : ℕ → Codes → Codes → Codes → Turn
  unfolding line_break
  tag_turn c rest tag output =
      if eqb c b'>'
      then goes copying (output ++ line_break output rest)
      else goes (in_tag (tag ++ c ∷ [])) output

  unfoldable pub turn : Mode → ℕ → Codes → Codes → Turn
  unfolding copy_turn tag_turn
  turn copying c rest output = copy_turn c rest output
  turn (in_tag tag) c rest output = tag_turn c rest tag output

  -- What is left pending where the input ends.
  unfoldable pub unfinished : Mode → Codes
  unfinished copying = []
  unfinished (in_tag tag) = tag

  -- The output and the pending text.
  unfoldable pub filter_loop : Mode → Codes → Codes → Codes × Codes
  unfolding turn unfinished
  filter_loop mode output [] = (output, unfinished mode)
  filter_loop mode output (c ∷ rest) = elim (turn mode c rest output) [
    | goes next more ↦ filter_loop next more rest
    | leaves pending ↦ (output, pending)
  ]

  -- `feed`, from the pending text to the output and the pending text.
  unfoldable pub feed : Codes → Codes → Codes × Codes
  unfolding filter_loop
  feed pending delta = filter_loop copying [] (pending ++ delta)

  unfoldable pub strip_control_tokens : Codes → Codes
  unfolding feed
  strip_control_tokens input = (feed [] input).0
