-- ===== src/Shell/Split.antt =====
-- `split_segments`: where a command is cut.
use zhongshu.Prelude.{
  ℕ, ◌-◌, zero, suc, Bool, true, false, ◌||◌, List, [], ◌∷◌, ◌++◌, Option, none, some, eqb,
  if◌then◌else◌,
}
use zhongshu.Prelude.Codes.{Codes, trim, is_nothing}
use zhongshu.Shell.Tokens.{tokenize}
use zhongshu.Shell.Types.{ShellSegment, ShellOperator, op_and, op_or, pipe, sequence, background}

pub record Splitter : Type 0 where
  pub segments : List ShellSegment
  pub current : Codes
  pub quote : Option ℕ
  pub escaped : Bool
  pub operator_before : Option ShellOperator

unfoldable pub first : List Codes → Option Codes
first [] = none
first (t ∷ ts) = some t

unfoldable pub skip_one : List Codes → List Codes
skip_one [] = []
skip_one (t ∷ ts) = ts

-- What `push_segment` appends for a text that is trimmed already.
unfoldable pub segment_of : Codes → Option ShellOperator → Option ShellOperator → List ShellSegment
unfolding is_nothing tokenize first skip_one
segment_of text before after =
    if is_nothing text
    then []
    else (record {
      text = text;
      program = first (tokenize text);
      args = skip_one (tokenize text);
      operator_before = before;
      operator_after = after;
    })
      ∷ []

unfoldable pub push_segment : Option ShellOperator → Splitter → Splitter
unfolding trim segment_of
push_segment after s = record s {
  segments = s.segments ++ segment_of (trim s.current) s.operator_before after;
  current = [];
}

unfoldable pub next_is : ℕ → Codes → Bool
next_is c [] = false
next_is c (d ∷ rest) = eqb d c

-- The operator that begins at a character, and its width.
unfoldable pub operator_at : ℕ → Codes → Option (ShellOperator × ℕ)
unfolding next_is
operator_at c rest =
    if eqb c b'&'
    then (if next_is b'&' rest then some (op_and, 2) else some (background, 1))
    else if eqb c b'|'
    then (if next_is b'|' rest then some (op_or, 2) else some (pipe, 1))
    else if eqb c b';'
    then some (sequence, 1)
    else none

unfoldable pub keep_char : ℕ → Splitter → Splitter
keep_char c s = record s { current = s.current ++ c ∷ [] }

unfoldable pub scan_bare : Option (ShellOperator × ℕ) → ℕ → Splitter → Splitter × ℕ
unfolding push_segment keep_char
scan_bare none c s = (keep_char c s, 1)
scan_bare (some (op, width)) c s =
    (record (push_segment (some op) s) { operator_before = some op }, width)

unfoldable pub scan_quoted : Option ℕ → ℕ → Codes → Splitter → Splitter × ℕ
unfolding keep_char scan_bare operator_at
scan_quoted (some q) c rest s =
    (record (keep_char c s) { quote = if eqb c q then none else some q }, 1)
scan_quoted none c rest s =
    if eqb c b'\'' || eqb c b'"'
    then (record (keep_char c s) { quote = some c }, 1)
    else scan_bare (operator_at c rest) c s

-- One turn of the loop: the state after it, and how far `i` goes on.
unfoldable pub scan : ℕ → Codes → Splitter → Splitter × ℕ
unfolding keep_char scan_quoted
scan c rest s =
    if s.escaped
    then (record (keep_char c s) { escaped = false }, 1)
    else if eqb c b'\\'
    then (record (keep_char c s) { escaped = true }, 1)
    else scan_quoted s.quote c rest s

-- The loop; the number counts the characters that the last turn has passed over.
unfoldable pub split_loop : ℕ → Splitter → Codes → Splitter
unfolding scan
split_loop skip s [] = s
split_loop zero s (c ∷ rest) = split_loop ((scan c rest s).1 - 1) (scan c rest s).0 rest
split_loop (suc skip) s (c ∷ rest) = split_loop skip s rest

abbrev pub no_segments : Splitter
no_segments = record {
  segments = [];
  current = [];
  quote = none;
  escaped = false;
  operator_before = none;
}

unfoldable pub split_segments : Codes → List ShellSegment
unfolding split_loop push_segment
split_segments command = (push_segment none (split_loop 0 no_segments command)).segments
