-- ===== src/Shell/Cut.antt =====
-- Where a shell command has to be cut: a description of `split_segments` (shell_semantics.rs) that
-- does not go through its loop.
use zhongshu.Prelude.{
  ℕ, Bool, true, false, not, ◌&&◌, ◌||◌, List, [], ◌∷◌, ◌++◌, Option, none, some, eqb,
  if◌then◌else◌, ◌≡◌,
}
use zhongshu.Prelude.Codes.{Codes, trim}
use zhongshu.Shell.Types.{ShellSegment, ShellOperator, op_and, op_or, pipe, sequence, background}
use zhongshu.Shell.Split.{segment_of, next_is}

-- Inside which quotes a character stands, and whether a backslash stands before it.
abbrev pub Quoting : Type 0
Quoting = Option ℕ × Bool

abbrev pub unquoted : Quoting
unquoted = (none, false)

unfoldable pub advance : ℕ → Quoting → Quoting
advance c (q, true) = (q, false)
advance c (some p, false) =
    if eqb c b'\\' then (some p, true) else if eqb c p then (none, false) else (some p, false)
advance c (none, false) =
    if eqb c b'\\'
    then (none, true)
    else if eqb c b'\'' || eqb c b'"'
    then (some c, false)
    else (none, false)

unfoldable pub is_bare : ℕ → Quoting → Bool
is_bare c (none, false) = eqb c b'&' || eqb c b'|' || eqb c b';'
is_bare c (some p, e) = false
is_bare c (none, true) = false

unfoldable pub quoting_after : Quoting → Codes → Quoting
unfolding advance
quoting_after q [] = q
quoting_after q (c ∷ s) = quoting_after (advance c q) s

-- No operator but in quotes or behind a backslash.
unfoldable pub has_no_operator : Quoting → Codes → Bool
unfolding advance is_bare
has_no_operator q [] = true
has_no_operator q (c ∷ s) = not (is_bare c q) && has_no_operator (advance c q) s

abbrev pub symbol : ShellOperator → Codes
symbol op_and = b'&' ∷ b'&' ∷ []
symbol op_or = b'|' ∷ b'|' ∷ []
symbol pipe = b'|' ∷ []
symbol sequence = b';' ∷ []
symbol background = b'&' ∷ []

-- The operator is not the first half of a longer one.
abbrev pub is_whole : ShellOperator → Codes → Bool
is_whole background rest = not (next_is b'&' rest)
is_whole pipe rest = not (next_is b'|' rest)
is_whole op rest = true

-- A text, which stands behind an operator or not, and the segments to cut it into.
pub data Cut : Option ShellOperator → Codes → List ShellSegment → Type 0 where
  whole :
      (before : Option ShellOperator) (raw : Codes)
      → has_no_operator unquoted raw ≡ true
      → Cut before raw (segment_of (trim raw) before none)
  cut :
      (before : Option ShellOperator) (raw : Codes) (op : ShellOperator) {rest : Codes}
      {segments : List ShellSegment}
      → has_no_operator unquoted raw ≡ true
      → quoting_after unquoted raw ≡ unquoted
      → is_whole op rest ≡ true
      → Cut (some op) rest segments
      → Cut before (raw ++ (symbol op ++ rest)) (segment_of (trim raw) before (some op) ++ segments)
