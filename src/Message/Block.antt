-- ===== src/Message/Block.antt =====
-- The blocks of a message: block.rs.
use zhongshu.Prelude.{ℕ, Bool, List, Option}
use zhongshu.Prelude.Codes.{Codes}
use native.Mathlib.Decide.{ℕ_discrete}

pub data MessageBlock : Type 0 where
  paragraph : Codes → MessageBlock
  code_block : Option Codes → Codes → MessageBlock
  heading : ℕ → Codes → MessageBlock
  list_block : Bool → List Codes → MessageBlock
  table : List Codes → List (List Codes) → MessageBlock
  blockquote : Codes → MessageBlock
  thematic_break : MessageBlock

pub MessageBlock-discrete : Discrete MessageBlock
MessageBlock-discrete = hlevel (ℕ_discrete)
