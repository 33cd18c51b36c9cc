-- ===== src/Message/Parser.antt =====
-- `parse` of parser.rs: the blocks that the events of the Markdown library make. The library's parser
-- is not modelled: its events are the input.
use zhongshu.Prelude.{ℕ, Bool, true, false, List, [], ◌∷◌, ◌++◌, Option, none, some, if◌then◌else◌}
use zhongshu.Prelude.Codes.{Codes, is_nothing}
use zhongshu.Message.Block.{
  MessageBlock, paragraph, code_block, heading, list_block, table, blockquote,
}

-- The tags that are told apart; a fenced code block has its language, which may be empty.
pub data Tag : Type 0 where
  paragraph_tag indented_code item_tag quote_tag table_tag table_head table_cell table_row
        other_tag :
      Tag
  fenced_code : Codes → Tag
  heading_tag : ℕ → Tag
  list_tag : Bool → Tag

pub data TagEnd : Type 0 where
  paragraph_end code_end heading_end list_end item_end quote_end table_end table_head_end
        table_cell_end table_row_end other_end :
      TagEnd

pub data Event : Type 0 where
  start : Tag → Event
  end : TagEnd → Event
  text html code : Codes → Event
  soft_break hard_break other_event : Event

-- The variables of the loop.
pub record Builder : Type 0 where
  pub blocks : List MessageBlock
  pub paragraph_text : Codes
  pub code_language : Option Codes
  pub code_content : Codes
  pub heading_text : Codes
  pub heading_level : ℕ
  pub list_items : List Codes
  pub list_ordered : Bool
  pub quote_text : Codes
  pub in_paragraph : Bool
  pub in_code : Bool
  pub in_heading : Bool
  pub in_list : Bool
  pub in_item : Bool
  pub in_quote : Bool
  pub in_table : Bool
  pub table_headers : List Codes
  pub table_rows : List (List Codes)
  pub current_row : List Codes
  pub current_cell : Codes

abbrev pub empty_builder : Builder
empty_builder = record {
  blocks = [];
  paragraph_text = [];
  code_language = none;
  code_content = [];
  heading_text = [];
  heading_level = 0;
  list_items = [];
  list_ordered = false;
  quote_text = [];
  in_paragraph = false;
  in_code = false;
  in_heading = false;
  in_list = false;
  in_item = false;
  in_quote = false;
  in_table = false;
  table_headers = [];
  table_rows = [];
  current_row = [];
  current_cell = [];
}

abbrev pub push_block : MessageBlock → Builder → Builder
push_block block b = record b { blocks = b.blocks ++ block ∷ [] }

unfoldable pub flush_paragraph : Builder → Builder
unfolding is_nothing
flush_paragraph b =
    if is_nothing b.paragraph_text
    then b
    else push_block (paragraph b.paragraph_text) (record b { paragraph_text = [] })

unfoldable pub start_tag : Tag → Builder → Builder
unfolding is_nothing
start_tag paragraph_tag b = record b { in_paragraph = true }
start_tag (fenced_code lang) b = record b {
  in_code = true;
  code_language = if is_nothing lang then none else some lang;
  code_content = [];
}
start_tag indented_code b = record b { in_code = true; code_language = none; code_content = [] }
start_tag (heading_tag level) b = record b {
  in_heading = true;
  heading_text = [];
  heading_level = level;
}
start_tag (list_tag ordered) b = record b {
  in_list = true;
  list_items = [];
  list_ordered = ordered;
}
start_tag item_tag b = record b { in_item = true }
start_tag quote_tag b = record b { in_quote = true; quote_text = [] }
start_tag table_tag b = record b { in_table = true; table_headers = []; table_rows = [] }
start_tag table_head b = record b { current_row = [] }
start_tag table_cell b = record b { current_cell = [] }
start_tag table_row b = record b { current_row = [] }
start_tag other_tag b = b

unfoldable pub end_tag : TagEnd → Builder → Builder
unfolding flush_paragraph
end_tag paragraph_end b =
    if b.in_paragraph then record (flush_paragraph b) { in_paragraph = false } else b
end_tag code_end b =
    if b.in_code
    then push_block (code_block b.code_language b.code_content)
        (record b { code_language = none; code_content = []; in_code = false })
    else b
end_tag heading_end b =
    if b.in_heading
    then push_block (heading b.heading_level b.heading_text)
        (record b { heading_text = []; in_heading = false })
    else b
end_tag list_end b =
    if b.in_list
    then push_block (list_block b.list_ordered b.list_items)
        (record b { list_items = []; in_list = false; in_item = false })
    else b
end_tag item_end b = record b { in_item = false }
end_tag quote_end b =
    if b.in_quote
    then push_block (blockquote b.quote_text) (record b { quote_text = []; in_quote = false })
    else b
end_tag table_end b =
    if b.in_table
    then push_block (table b.table_headers b.table_rows)
        (record b { table_headers = []; table_rows = []; in_table = false })
    else b
end_tag table_head_end b = record b { table_headers = b.current_row; current_row = [] }
end_tag table_cell_end b = record b {
  current_row = b.current_row ++ b.current_cell ∷ [];
  current_cell = [];
}
end_tag table_row_end b =
    if b.in_table
    then record b { table_rows = b.table_rows ++ b.current_row ∷ []; current_row = [] }
    else b
end_tag other_end b = b

-- `last_mut` and a push: nothing happens to an empty list.
unfoldable pub push_last : Codes → List Codes → List Codes
push_last t [] = []
push_last t (item ∷ []) = (item ++ t) ∷ []
push_last t (item ∷ other ∷ items) = item ∷ push_last t (other ∷ items)

unfoldable pub is_none : List Codes → Bool
is_none [] = true
is_none (item ∷ items) = false

unfoldable pub push_item_text : Codes → List Codes → List Codes
unfolding is_none push_last
push_item_text t items = if is_none items then t ∷ [] else push_last t items

unfoldable pub push_text : Codes → Builder → Builder
unfolding push_item_text
push_text t b =
    if b.in_code
    then record b { code_content = b.code_content ++ t }
    else if b.in_heading
    then record b { heading_text = b.heading_text ++ t }
    else if b.in_item
    then record b { list_items = push_item_text t b.list_items }
    else if b.in_quote
    then record b { quote_text = b.quote_text ++ t }
    else if b.in_table
    then record b { current_cell = b.current_cell ++ t }
    else record b { paragraph_text = b.paragraph_text ++ t; in_paragraph = true }

unfoldable pub push_soft_break : Builder → Builder
unfolding push_last
push_soft_break b =
    if b.in_code
    then record b { code_content = b.code_content ++ 10 ∷ [] }
    else if b.in_paragraph
    then record b { paragraph_text = b.paragraph_text ++ b' ' ∷ [] }
    else if b.in_heading
    then record b { heading_text = b.heading_text ++ b' ' ∷ [] }
    else if b.in_item
    then record b { list_items = push_last (b' ' ∷ []) b.list_items }
    else if b.in_quote
    then record b { quote_text = b.quote_text ++ b' ' ∷ [] }
    else b

unfoldable pub push_hard_break : Builder → Builder
unfolding push_last
push_hard_break b =
    if b.in_code
    then record b { code_content = b.code_content ++ 10 ∷ [] }
    else if b.in_paragraph
    then record b { paragraph_text = b.paragraph_text ++ 10 ∷ [] }
    else if b.in_item
    then record b { list_items = push_last (10 ∷ []) b.list_items }
    else b

unfoldable pub push_html : Codes → Builder → Builder
push_html t b =
    if b.in_code
    then record b { code_content = b.code_content ++ t }
    else if b.in_paragraph
    then record b { paragraph_text = b.paragraph_text ++ t }
    else record b { paragraph_text = b.paragraph_text ++ t; in_paragraph = true }

unfoldable pub push_code : Codes → Builder → Builder
unfolding push_last
push_code t b =
    if b.in_paragraph
    then record b { paragraph_text = b.paragraph_text ++ (b'`' ∷ []) ++ t ++ (b'`' ∷ []) }
    else if b.in_heading
    then record b { heading_text = b.heading_text ++ t }
    else if b.in_item
    then record b { list_items = push_last t b.list_items }
    else b

unfoldable pub handle_event : Event → Builder → Builder
unfolding start_tag end_tag push_text push_soft_break push_hard_break push_html push_code
handle_event (start tag) b = start_tag tag b
handle_event (end tag) b = end_tag tag b
handle_event (text t) b = push_text t b
handle_event (html t) b = push_html t b
handle_event (code t) b = push_code t b
handle_event soft_break b = push_soft_break b
handle_event hard_break b = push_hard_break b
handle_event other_event b = b

unfoldable pub handle_events : List Event → Builder → Builder
unfolding handle_event
handle_events [] b = b
handle_events (e ∷ events) b = handle_events events (handle_event e b)

unfoldable pub parse_events : List Event → List MessageBlock
unfolding handle_events flush_paragraph
parse_events events =
    let b = handle_events events empty_builder in
    (if b.in_paragraph then flush_paragraph b else b).blocks
