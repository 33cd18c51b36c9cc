-- ===== src/Shell/Tokens.antt =====
-- `tokenize`: the words of a segment, its quotes and escapes resolved.
use zhongshu.Prelude.{
  ℕ, Bool, true, false, ◌||◌, List, [], ◌∷◌, ◌++◌, Option, none, some, eqb, if◌then◌else◌,
}
use zhongshu.Prelude.Text.{is_whitespace}
use zhongshu.Prelude.Codes.{Codes, is_nothing}

pub record Tokenizer : Type 0 where
  pub tokens : List Codes
  pub current : Codes
  pub quote : Option ℕ
  pub escaped : Bool

unfoldable pub flush_token : Tokenizer → Tokenizer
unfolding is_nothing
flush_token t =
    if is_nothing t.current
    then t
    else record t { tokens = t.tokens ++ t.current ∷ []; current = [] }

unfoldable pub push_char : ℕ → Tokenizer → Tokenizer
push_char c t = record t { current = t.current ++ c ∷ [] }

-- One turn of the loop, from the test of `quote` on.
unfoldable pub token_quoted : Option ℕ → ℕ → Tokenizer → Tokenizer
unfolding push_char flush_token is_whitespace
token_quoted (some q) c t = if eqb c q then record t { quote = none } else push_char c t
token_quoted none c t =
    if eqb c b'\'' || eqb c b'"'
    then record t { quote = some c }
    else if is_whitespace c
    then flush_token t
    else push_char c t

unfoldable pub token_char : ℕ → Tokenizer → Tokenizer
unfolding push_char token_quoted
token_char c t =
    if t.escaped
    then record (push_char c t) { escaped = false }
    else if eqb c b'\\'
    then record t { escaped = true }
    else token_quoted t.quote c t

unfoldable pub token_loop : Tokenizer → Codes → Tokenizer
unfolding token_char
token_loop t [] = t
token_loop t (c ∷ s) = token_loop (token_char c t) s

unfoldable pub tokenize : Codes → List Codes
unfolding token_loop flush_token
tokenize text =
    (flush_token (
      token_loop (record { tokens = []; current = []; quote = none; escaped = false }) text)).tokens
