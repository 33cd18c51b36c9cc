-- ===== src/Message/Examples.antt =====
-- Small messages, on which the theorems about messages are put to use.
use zhongshu.Prelude.{
  ℕ, ◌+◌, false, ◌&&◌, List, [], ◌∷◌, ◌++◌, if◌then◌else◌, leb, any, ◌≡◌, refl, arith, All,
}
use zhongshu.Prelude.Codes.{Codes, codes}
use zhongshu.Message.Block.{MessageBlock, paragraph, list_block, table, thematic_break}
use zhongshu.Message.Filter.{strip_control_tokens, feed, is_break}
use zhongshu.Message.Follows.{IsLower, has_control}
use zhongshu.Message.Clean.{strip_control_tokens-clean}
use zhongshu.Message.Stream.{append, new_message}
use zhongshu.Message.Divergence.{Appends, append_changes}
use zhongshu.Message.Parser.{parse_events}
use zhongshu.Message.Items.{HasOneItem, parse_events-HasOneItem}
use zhongshu.Message.Print.{
  read_block, joined_items, run_together, document_events, read_blocks,
  parse_events-document_events,
}

-- The lower case of ASCII.
abbrev ascii_lower : ℕ → Codes
ascii_lower c = (if leb 65 c && leb c 90 then c + 32 else c) ∷ []

ascii_lower-IsLower : IsLower ascii_lower
unfolding is_break
ascii_lower-IsLower = record {
  keeps_break = λ c h. ground (arith, h);
  keeps_bracket = refl;
  no_bracket = λ c h. ((if leb 65 c && leb c 90 then c + 32 else c), [], refl, ground (arith, h));
}

strip_control_tokens-clean_example :
    has_control ascii_lower
      (strip_control_tokens ascii_lower (codes "a<Final_Answer>b<c</system>d"))
    ≡ false
strip_control_tokens-clean_example =
    strip_control_tokens-clean ascii_lower ascii_lower-IsLower
      (codes "a<Final_Answer>b<c</system>d")

strip_control_tokens_test :
    strip_control_tokens ascii_lower (codes "a<Final_Answer>b<c</system> d")
    ≡ codes "a" ++ 10 ∷ codes "b<c d"
unfolding strip_control_tokens any
strip_control_tokens_test = refl

-- A reading that makes one paragraph of a text.
abbrev one_paragraph : Codes → List MessageBlock
one_paragraph t = paragraph t ∷ []

append_changes_example :
    Appends ascii_lower one_paragraph
      (feed ascii_lower [] (codes "hi")).0
      new_message
      (append ascii_lower one_paragraph (codes "hi") new_message)
append_changes_example = append_changes ascii_lower one_paragraph (codes "hi") new_message

-- White space in a chunk of its own is lost.
append_test :
    (append ascii_lower one_paragraph
      (codes "b")
      (append ascii_lower one_paragraph
        (codes " ")
        (append ascii_lower one_paragraph (codes "a") new_message).1).1).1.buffer
    ≡ codes "ab"
unfolding append
append_test = refl

-- A tag that a chunk's end cuts is put together around a tag that is taken out.
cut_tag_test :
    (append ascii_lower one_paragraph
      (codes "al_answer>")
      (append ascii_lower one_paragraph (codes "<fin<final_answer>") new_message).1).1.buffer
    ≡ codes "<final_answer>"
unfolding append any
cut_tag_test = refl

abbrev two_items : List MessageBlock
two_items =
    list_block false (codes "a" ∷ codes "b" ∷ [])
    ∷ thematic_break
    ∷ table (codes "h" ∷ []) ((codes "x" ∷ codes "y" ∷ []) ∷ [])
    ∷ []

parse_events-HasOneItem_example : All HasOneItem (parse_events (document_events two_items))
parse_events-HasOneItem_example = parse_events-HasOneItem (document_events two_items)

parse_events-document_events_example :
    parse_events (document_events two_items) ≡ read_blocks two_items
parse_events-document_events_example = parse_events-document_events two_items

read_blocks_test :
    read_blocks two_items
    ≡ list_block false (codes "ab" ∷ [])
      ∷ table (codes "h" ∷ []) ((codes "x" ∷ codes "y" ∷ []) ∷ [])
      ∷ []
unfolding read_blocks read_block joined_items run_together
read_blocks_test = refl
