-- ===== src/Message/Print.antt =====
-- The events of a document made of blocks, and that `parse` reads the blocks back from them.
use zhongshu.Prelude.{
  ℕ, Bool, true, false, List, [], ◌∷◌, ◌++◌, Option, none, some, ◌≡◌, refl, sym, ap, subst, subst₂,
  if◌then◌else◌, ◌∙◌, append_assoc, append-nil,
}
use zhongshu.Prelude.Codes.{Codes, is_nothing}
use zhongshu.Message.Block.{
  MessageBlock, paragraph, code_block, heading, list_block, table, blockquote, thematic_break,
}
use zhongshu.Message.Parser.{
  Tag, TagEnd, Event, Builder, empty_builder, flush_paragraph, start_tag, end_tag, push_last,
  is_none, push_item_text, push_text, handle_event, handle_events, parse_events,
}

unfoldable pub item_events : List Codes → List Event
item_events [] = []
item_events (t ∷ items) =
    Event.start Tag.item_tag ∷ Event.text t ∷ Event.end TagEnd.item_end ∷ item_events items

unfoldable pub cell_events : List Codes → List Event
cell_events [] = []
cell_events (t ∷ cells) =
    Event.start Tag.table_cell ∷ Event.text t ∷ Event.end TagEnd.table_cell_end ∷ cell_events cells

unfoldable pub row_events : List (List Codes) → List Event
row_events [] = []
row_events (row ∷ rows) =
    Event.start Tag.table_row
    ∷ (cell_events row ++ (Event.end TagEnd.table_row_end ∷ row_events rows))

unfoldable pub language_name : Option Codes → Codes
language_name none = []
language_name (some lang) = lang

-- The events of a block, as a tight list, a fenced code block, and a quoted paragraph have them.
unfoldable pub block_events : MessageBlock → List Event
block_events (paragraph t) =
    Event.start Tag.paragraph_tag ∷ Event.text t ∷ Event.end TagEnd.paragraph_end ∷ []
block_events (code_block lang content) =
    Event.start (Tag.fenced_code (language_name lang))
    ∷ Event.text content
    ∷ Event.end TagEnd.code_end
    ∷ []
block_events (heading level t) =
    Event.start (Tag.heading_tag level) ∷ Event.text t ∷ Event.end TagEnd.heading_end ∷ []
block_events (list_block ordered items) =
    Event.start (Tag.list_tag ordered) ∷ item_events items ++ Event.end TagEnd.list_end ∷ []
block_events (table headers rows) =
    Event.start Tag.table_tag
    ∷ Event.start Tag.table_head
    ∷ (cell_events headers
        ++ (Event.end TagEnd.table_head_end ∷ (row_events rows ++ Event.end TagEnd.table_end ∷ [])))
block_events (blockquote t) =
    Event.start Tag.quote_tag
    ∷ Event.start Tag.paragraph_tag
    ∷ Event.text t
    ∷ Event.end TagEnd.paragraph_end
    ∷ Event.end TagEnd.quote_end
    ∷ []
block_events thematic_break = Event.other_event ∷ []

unfoldable pub document_events : List MessageBlock → List Event
document_events [] = []
document_events (block ∷ blocks) = block_events block ++ document_events blocks

unfoldable pub run_together : List Codes → Codes
run_together [] = []
run_together (t ∷ texts) = t ++ run_together texts

unfoldable pub joined_items : List Codes → List Codes
joined_items [] = []
joined_items (t ∷ items) = (t ++ run_together items) ∷ []

unfoldable pub named_language : Option Codes → Option Codes
named_language none = none
named_language (some []) = none
named_language (some (c ∷ lang)) = some (c ∷ lang)

-- What becomes of a block: an empty paragraph and a thematic break are lost, the items of a list are
-- run together, and an empty language is none.
unfoldable pub read_block : MessageBlock → List MessageBlock
read_block (paragraph []) = []
read_block (paragraph (c ∷ t)) = paragraph (c ∷ t) ∷ []
read_block (code_block lang content) = code_block (named_language lang) content ∷ []
read_block (heading level t) = heading level t ∷ []
read_block (list_block ordered items) = list_block ordered (joined_items items) ∷ []
read_block (table headers rows) = table headers rows ∷ []
read_block (blockquote t) = blockquote t ∷ []
read_block thematic_break = []

unfoldable pub read_blocks : List MessageBlock → List MessageBlock
read_blocks [] = []
read_blocks (block ∷ blocks) = read_block block ++ read_blocks blocks

-- Between two blocks.
abbrev idle : List MessageBlock → ℕ → Bool → Builder
idle blocks level ordered = record empty_builder {
  blocks = blocks;
  heading_level = level;
  list_ordered = ordered;
}

handle_events-++ :
    (before after : List Event) (b : Builder)
    → handle_events (before ++ after) b ≡ handle_events after (handle_events before b)
unfolding handle_events
handle_events-++ [] after b = refl
handle_events-++ (e ∷ before) after b = handle_events-++ before after (handle_event e b)

-- In a list, with the items so far.
abbrev listing : List Codes → Builder → Builder
listing items b = record b { in_list = true; list_items = items }

items_read :
    (items : List Codes) (t : Codes) (blocks : List MessageBlock) (level : ℕ) (ordered : Bool)
    → handle_events (item_events items) (listing (t ∷ []) (idle blocks level ordered))
      ≡ listing ((t ++ run_together items) ∷ []) (idle blocks level ordered)
unfolding item_events run_together handle_events handle_event start_tag end_tag push_text
    push_item_text push_last is_none
items_read [] t blocks level ordered = rw (append-nil t) refl
items_read (u ∷ items) t blocks level ordered =
    items_read items (t ++ u) blocks level ordered ∙ rw (append_assoc t u (run_together items)) refl

-- In a table, with the header, the rows and the row so far.
abbrev tabling : List Codes → List (List Codes) → List Codes → Builder → Builder
tabling headers rows row b = record b {
  in_table = true;
  table_headers = headers;
  table_rows = rows;
  current_row = row;
}

cells_read :
    (cells row headers : List Codes) (rows : List (List Codes)) (blocks : List MessageBlock)
    (level : ℕ) (ordered : Bool)
    → handle_events (cell_events cells) (tabling headers rows row (idle blocks level ordered))
      ≡ tabling headers rows (row ++ cells) (idle blocks level ordered)
unfolding cell_events handle_events handle_event start_tag end_tag push_text
cells_read [] row headers rows blocks level ordered = rw (append-nil row) refl
cells_read (t ∷ cells) row headers rows blocks level ordered =
    cells_read cells (row ++ t ∷ []) headers rows blocks level ordered
    ∙ rw (append_assoc row (t ∷ []) cells) refl

rows_read :
    (more : List (List Codes)) (headers : List Codes) (rows : List (List Codes))
    (blocks : List MessageBlock) (level : ℕ) (ordered : Bool)
    → handle_events (row_events more) (tabling headers rows [] (idle blocks level ordered))
      ≡ tabling headers (rows ++ more) [] (idle blocks level ordered)
unfolding row_events handle_events handle_event start_tag end_tag
rows_read [] headers rows blocks level ordered = rw (append-nil rows) refl
rows_read (row ∷ more) headers rows blocks level ordered =
    handle_events-++ (cell_events row) (Event.end TagEnd.table_row_end ∷ row_events more)
      (tabling headers rows [] (idle blocks level ordered))
    ∙ ap (handle_events (Event.end TagEnd.table_row_end ∷ row_events more))
        (cells_read row [] headers rows blocks level ordered)
    ∙ rows_read more headers (rows ++ row ∷ []) blocks level ordered
    ∙ rw (append_assoc rows (row ∷ []) more) refl

-- Between two blocks, with the level of the last heading and the order of the last list.
record IsIdle (blocks : List MessageBlock) (b : Builder) : Type 0 where
  level : ℕ
  ordered : Bool
  same : b ≡ idle blocks level ordered

table_read :
    (headers : List Codes) (rows : List (List Codes)) (blocks : List MessageBlock) (level : ℕ)
    (ordered : Bool)
    → handle_events (block_events (table headers rows)) (idle blocks level ordered)
      ≡ idle (blocks ++ table headers rows ∷ []) level ordered
unfolding block_events handle_events handle_event start_tag end_tag
table_read headers rows blocks level ordered =
    let last : List Event = row_events rows ++ Event.end TagEnd.table_end ∷ [] in
    let body : List Event = Event.end TagEnd.table_head_end ∷ last in
    handle_events-++ (cell_events headers) body (tabling [] [] [] (idle blocks level ordered))
    ∙ ap (handle_events body) (cells_read headers [] [] [] blocks level ordered)
    ∙ handle_events-++ (row_events rows) (Event.end TagEnd.table_end ∷ [])
        (tabling headers [] [] (idle blocks level ordered))
    ∙ ap (handle_events (Event.end TagEnd.table_end ∷ []))
        (rows_read rows headers [] blocks level ordered)

block_read :
    (block : MessageBlock) (blocks : List MessageBlock) (level : ℕ) (ordered : Bool)
    → IsIdle
        (blocks ++ read_block block)
        (handle_events (block_events block) (idle blocks level ordered))
unfolding block_events read_block named_language language_name handle_events handle_event start_tag
    end_tag push_text flush_paragraph joined_items push_item_text is_none push_last is_nothing
    item_events
block_read (paragraph []) blocks level ordered = record {
  level = level;
  ordered = ordered;
  same = rw (append-nil blocks) refl;
}
block_read (paragraph (c ∷ t)) blocks level ordered = record {
  level = level;
  ordered = ordered;
  same = refl;
}
block_read (code_block none content) blocks level ordered = record {
  level = level;
  ordered = ordered;
  same = refl;
}
block_read (code_block (some []) content) blocks level ordered = record {
  level = level;
  ordered = ordered;
  same = refl;
}
block_read (code_block (some (c ∷ lang)) content) blocks level ordered = record {
  level = level;
  ordered = ordered;
  same = refl;
}
block_read (heading high t) blocks level ordered = record {
  level = high;
  ordered = ordered;
  same = refl;
}
block_read (list_block numbered []) blocks level ordered = record {
  level = level;
  ordered = numbered;
  same = refl;
}
block_read (list_block numbered (t ∷ items)) blocks level ordered = record {
  level = level;
  ordered = numbered;
  same =
      handle_events-++ (item_events items) (Event.end TagEnd.list_end ∷ [])
        (listing (t ∷ []) (idle blocks level numbered))
      ∙ ap (handle_events (Event.end TagEnd.list_end ∷ []))
          (items_read items t blocks level numbered);
}
block_read (table headers rows) blocks level ordered = record {
  level = level;
  ordered = ordered;
  same = table_read headers rows blocks level ordered;
}
block_read (blockquote t) blocks level ordered = record {
  level = level;
  ordered = ordered;
  same = refl;
}
block_read thematic_break blocks level ordered = record {
  level = level;
  ordered = ordered;
  same = rw (append-nil blocks) refl;
}

document_read :
    (document blocks : List MessageBlock) (b : Builder)
    → IsIdle blocks b
    → IsIdle (blocks ++ read_blocks document) (handle_events (document_events document) b)
unfolding document_events read_blocks handle_events
document_read [] blocks b h = subst (λ l. IsIdle l b) (sym (append-nil blocks)) h
document_read (block ∷ document) blocks b h =
    let next =
      subst (λ c. IsIdle (blocks ++ read_block block) (handle_events (block_events block) c))
        (sym h.same) (block_read block blocks h.level h.ordered) in
    let rest =
      document_read document (blocks ++ read_block block) (handle_events (block_events block) b)
        next in
    subst₂ (λ l c. IsIdle l c) (append_assoc blocks (read_block block) (read_blocks document))
      (sym (handle_events-++ (block_events block) (document_events document) b)) rest

idle_blocks :
    (blocks : List MessageBlock) (b : Builder)
    → IsIdle blocks b
    → (if b.in_paragraph then flush_paragraph b else b).blocks ≡ blocks
idle_blocks blocks b h = rw (h.same) refl

-- The events of a document are read as its blocks, in their order and with their texts, headers and
-- rows: but an empty paragraph and a thematic break are lost, the items of a list are run together,
-- and an empty language of a code block is none.
pub parse_events-document_events :
    (document : List MessageBlock) → parse_events (document_events document) ≡ read_blocks document
unfolding parse_events
parse_events-document_events document =
    idle_blocks (read_blocks document) (handle_events (document_events document) empty_builder)
      (document_read document [] empty_builder (record { level = 0; ordered = false; same = refl }))
