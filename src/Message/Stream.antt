-- ===== src/Message/Stream.antt =====
-- `StreamingMessage` of streaming.rs. `parser::parse`, from a text to its blocks, is the parameter
-- `parse`: what parser.rs makes of the events of the Markdown library is in Parser.
use zhongshu.Prelude.{ℕ, suc, List, [], ◌∷◌, ◌++◌, if◌then◌else◌, leb, length, holds}
use zhongshu.Prelude.Codes.{Codes, trim, is_nothing}
use zhongshu.Message.Block.{MessageBlock, MessageBlock-discrete}
use zhongshu.Message.Filter.{feed}

pub data MessageState : Type 0 where
  streaming complete interrupted failed : MessageState

pub record StreamingMessage : Type 0 where
  pub pending : Codes
  pub buffer : Codes
  pub blocks : List MessageBlock
  pub state : MessageState

abbrev pub new_message : StreamingMessage
new_message = record { pending = []; buffer = []; blocks = []; state = streaming }

-- The first index at which two lists of blocks differ.
unfoldable pub find_divergence : List MessageBlock → List MessageBlock → ℕ
find_divergence [] new = 0
find_divergence (b ∷ old) [] = 0
find_divergence (b ∷ old) (c ∷ new) =
    let rest = find_divergence old new in if holds (MessageBlock-discrete b c) then suc rest else 0

unfoldable pub min : ℕ → ℕ → ℕ
min a b = if leb a b then a else b

module _ (lower : ℕ → Codes) (parse : Codes → List MessageBlock) where
  unfoldable pub sync : StreamingMessage → ℕ × StreamingMessage
  unfolding find_divergence is_nothing min
  sync m = if is_nothing m.buffer then (0, m) else (
    min (find_divergence m.blocks (parse m.buffer)) (length (parse m.buffer)),
    record m { blocks = parse m.buffer },
  )

  -- What `append` does with the text that the filter lets through.
  unfoldable pub append_cleaned : Codes → StreamingMessage → ℕ × StreamingMessage
  unfolding sync trim is_nothing
  append_cleaned cleaned m =
      if is_nothing (trim cleaned)
      then (length m.blocks, m)
      else sync (record m { buffer = m.buffer ++ cleaned })

  unfoldable pub append : Codes → StreamingMessage → ℕ × StreamingMessage
  unfolding append_cleaned feed
  append delta m =
      append_cleaned (feed lower m.pending delta).0
        (record m { pending = (feed lower m.pending delta).1 })

  unfoldable pub finish : StreamingMessage → StreamingMessage
  unfolding sync
  finish m = (sync (record m { pending = []; state = complete })).1

  unfoldable pub interrupt : StreamingMessage → StreamingMessage
  interrupt m = record m { state = interrupted }

  unfoldable pub fail : StreamingMessage → StreamingMessage
  fail m = record m { state = failed }

  unfoldable pub set_content : Codes → StreamingMessage → StreamingMessage
  set_content text m = record m { buffer = text; state = complete; blocks = parse text }
