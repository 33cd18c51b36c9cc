-- ===== src/Message/Items.antt =====
-- What becomes of the items of a list, and of the text of a code block.
use zhongshu.Prelude.{
  ◌≤◌, Bool, true, false, List, [], ◌∷◌, ◌++◌, none, if◌then◌else◌, length, ◌≡◌, refl, sym, subst,
  inl, inr, Bool-cases, arith, All, All-append,
}
use zhongshu.Prelude.Codes.{Codes, is_nothing}
use zhongshu.Message.Block.{
  MessageBlock, paragraph, code_block, heading, list_block, table, blockquote,
}
use zhongshu.Message.Parser.{
  Tag, TagEnd, Event, Builder, empty_builder, flush_paragraph, push_block, start_tag, end_tag,
  push_last, is_none, push_item_text, push_text, push_soft_break, push_hard_break, push_html,
  push_code, handle_event, handle_events, parse_events,
}

-- A list of the message has one item at most.
abbrev pub HasOneItem : MessageBlock → Type 0
HasOneItem (list_block ordered items) = length items ≤ 1
HasOneItem _ = Unit

record IsBuilt (b : Builder) : Type 0 where
  blocks : All HasOneItem b.blocks
  items : length b.list_items ≤ 1

push_last-length : (t : Codes) (items : List Codes) → length (push_last t items) ≡ length items
unfolding push_last
push_last-length t [] = refl
push_last-length t (item ∷ []) = refl
push_last-length t (item ∷ other ∷ items) = omega (arith, push_last-length t (other ∷ items))

push_item_text-length :
    (t : Codes) (items : List Codes) → length items ≤ 1 → length (push_item_text t items) ≤ 1
unfolding push_item_text is_none
push_item_text-length t [] h = omega arith
push_item_text-length t (item ∷ items) h = omega (arith, push_last-length t (item ∷ items))

push_block-HasOneItem :
    (block : MessageBlock) (blocks : List MessageBlock)
    → All HasOneItem blocks
    → HasOneItem block
    → All HasOneItem (blocks ++ block ∷ [])
push_block-HasOneItem block blocks h one = All-append HasOneItem blocks (block ∷ []) h (one, tt)

start_tag-IsBuilt : (tag : Tag) (b : Builder) → IsBuilt b → IsBuilt (start_tag tag b)
unfolding start_tag
start_tag-IsBuilt (Tag.list_tag ordered) b h = record { blocks = h.blocks; items = omega arith }
start_tag-IsBuilt tag b h = record { blocks = h.blocks; items = h.items }

-- A block is closed if it is open.
push_if-IsBuilt :
    (opened : Bool) (block : MessageBlock) (b next : Builder)
    → IsBuilt b
    → HasOneItem block
    → next.blocks ≡ b.blocks
    → length next.list_items ≤ 1
    → IsBuilt (if opened then push_block block next else b)
push_if-IsBuilt false block b next h one same items = h
push_if-IsBuilt true block b next h one same items = record {
  blocks =
      subst (λ l. All HasOneItem (l ++ block ∷ [])) (sym same)
        (push_block-HasOneItem block b.blocks h.blocks one);
  items = items;
}

-- What a test chooses is built if both choices are.
if-IsBuilt : (t : Bool) (b c : Builder) → IsBuilt b → IsBuilt c → IsBuilt (if t then b else c)
if-IsBuilt true b c hb hc = hb
if-IsBuilt false b c hb hc = hc

-- A change of the other fields.
other-IsBuilt :
    (b c : Builder) → IsBuilt b → c.blocks ≡ b.blocks → c.list_items ≡ b.list_items → IsBuilt c
other-IsBuilt b c h blocks items = record {
  blocks = subst (λ l. All HasOneItem l) (sym blocks) h.blocks;
  items = subst (λ l. length l ≤ 1) (sym items) h.items;
}

flush_paragraph-IsBuilt : (b : Builder) → IsBuilt b → IsBuilt (flush_paragraph b)
unfolding flush_paragraph
flush_paragraph-IsBuilt b h = elim (Bool-cases (is_nothing b.paragraph_text)) [
  | inl e ↦ rw e h
  | inr e ↦ rw e (record {
    blocks = push_block-HasOneItem (paragraph b.paragraph_text) b.blocks h.blocks tt;
    items = h.items;
  })
]

end_tag-IsBuilt : (tag : TagEnd) (b : Builder) → IsBuilt b → IsBuilt (end_tag tag b)
unfolding end_tag flush_paragraph
end_tag-IsBuilt TagEnd.paragraph_end b h =
    if-IsBuilt b.in_paragraph _ b
      (other-IsBuilt (flush_paragraph b) _ (flush_paragraph-IsBuilt b h) refl refl) h
end_tag-IsBuilt TagEnd.code_end b h =
    push_if-IsBuilt b.in_code (code_block b.code_language b.code_content) b
      (record b { code_language = none; code_content = []; in_code = false }) h tt refl h.items
end_tag-IsBuilt TagEnd.heading_end b h =
    push_if-IsBuilt b.in_heading (heading b.heading_level b.heading_text) b
      (record b { heading_text = []; in_heading = false }) h tt refl h.items
end_tag-IsBuilt TagEnd.list_end b h =
    push_if-IsBuilt b.in_list (list_block b.list_ordered b.list_items) b
      (record b { list_items = []; in_list = false; in_item = false }) h h.items refl (omega arith)
end_tag-IsBuilt TagEnd.quote_end b h =
    push_if-IsBuilt b.in_quote (blockquote b.quote_text) b
      (record b { quote_text = []; in_quote = false }) h tt refl h.items
end_tag-IsBuilt TagEnd.table_end b h =
    push_if-IsBuilt b.in_table (table b.table_headers b.table_rows) b
      (record b { table_headers = []; table_rows = []; in_table = false }) h tt refl h.items
end_tag-IsBuilt TagEnd.table_row_end b h =
    if-IsBuilt b.in_table _ b (other-IsBuilt b _ h refl refl) h
end_tag-IsBuilt tag b h = record { blocks = h.blocks; items = h.items }

items-IsBuilt :
    (b : Builder) (items : List Codes)
    → IsBuilt b
    → length items ≤ 1
    → IsBuilt (record b { list_items = items })
items-IsBuilt b items h few = record { blocks = h.blocks; items = few }

last-IsBuilt :
    (t : Codes) (b : Builder)
    → IsBuilt b
    → IsBuilt (record b { list_items = push_last t b.list_items })
last-IsBuilt t b h =
    items-IsBuilt b (push_last t b.list_items) h
      (omega (arith, push_last-length t b.list_items, h.items))

push_text-IsBuilt : (t : Codes) (b : Builder) → IsBuilt b → IsBuilt (push_text t b)
unfolding push_text
push_text-IsBuilt t b h = if-IsBuilt b.in_code _ _ (other-IsBuilt b _ h refl refl) (
    if-IsBuilt b.in_heading _ _ (other-IsBuilt b _ h refl refl) (
      if-IsBuilt b.in_item _ _
        (items-IsBuilt b (push_item_text t b.list_items) h
          (push_item_text-length t b.list_items h.items))
        (if-IsBuilt b.in_quote _ _ (other-IsBuilt b _ h refl refl) (
          if-IsBuilt b.in_table _ _ (other-IsBuilt b _ h refl refl)
            (other-IsBuilt b _ h refl refl)))))

push_soft_break-IsBuilt : (b : Builder) → IsBuilt b → IsBuilt (push_soft_break b)
unfolding push_soft_break
push_soft_break-IsBuilt b h = if-IsBuilt b.in_code _ _ (other-IsBuilt b _ h refl refl) (
    if-IsBuilt b.in_paragraph _ _ (other-IsBuilt b _ h refl refl) (
      if-IsBuilt b.in_heading _ _ (other-IsBuilt b _ h refl refl) (
        if-IsBuilt b.in_item _ _ (last-IsBuilt (b' ' ∷ []) b h)
          (if-IsBuilt b.in_quote _ _ (other-IsBuilt b _ h refl refl) h))))

push_hard_break-IsBuilt : (b : Builder) → IsBuilt b → IsBuilt (push_hard_break b)
unfolding push_hard_break
push_hard_break-IsBuilt b h = if-IsBuilt b.in_code _ _ (other-IsBuilt b _ h refl refl) (
    if-IsBuilt b.in_paragraph _ _ (other-IsBuilt b _ h refl refl)
      (if-IsBuilt b.in_item _ _ (last-IsBuilt (10 ∷ []) b h) h))

push_html-IsBuilt : (t : Codes) (b : Builder) → IsBuilt b → IsBuilt (push_html t b)
unfolding push_html
push_html-IsBuilt t b h =
    if-IsBuilt b.in_code _ _ (other-IsBuilt b _ h refl refl) (
      if-IsBuilt b.in_paragraph _ _ (other-IsBuilt b _ h refl refl) (other-IsBuilt b _ h refl refl))

push_code-IsBuilt : (t : Codes) (b : Builder) → IsBuilt b → IsBuilt (push_code t b)
unfolding push_code
push_code-IsBuilt t b h = if-IsBuilt b.in_paragraph _ _ (other-IsBuilt b _ h refl refl) (
    if-IsBuilt b.in_heading _ _ (other-IsBuilt b _ h refl refl)
      (if-IsBuilt b.in_item _ _ (last-IsBuilt t b h) h))

handle_event-IsBuilt : (e : Event) (b : Builder) → IsBuilt b → IsBuilt (handle_event e b)
unfolding handle_event
handle_event-IsBuilt (Event.start tag) b h = start_tag-IsBuilt tag b h
handle_event-IsBuilt (Event.end tag) b h = end_tag-IsBuilt tag b h
handle_event-IsBuilt (Event.text t) b h = push_text-IsBuilt t b h
handle_event-IsBuilt (Event.html t) b h = push_html-IsBuilt t b h
handle_event-IsBuilt (Event.code t) b h = push_code-IsBuilt t b h
handle_event-IsBuilt Event.soft_break b h = push_soft_break-IsBuilt b h
handle_event-IsBuilt Event.hard_break b h = push_hard_break-IsBuilt b h
handle_event-IsBuilt Event.other_event b h = h

handle_events-IsBuilt :
    (events : List Event) (b : Builder) → IsBuilt b → IsBuilt (handle_events events b)
unfolding handle_events
handle_events-IsBuilt [] b h = h
handle_events-IsBuilt (e ∷ events) b h =
    handle_events-IsBuilt events (handle_event e b) (handle_event-IsBuilt e b h)

-- Whatever the events of the Markdown library are, each list among the blocks has one item at most:
-- the texts of its items are run together.
pub parse_events-HasOneItem : (events : List Event) → All HasOneItem (parse_events events)
unfolding parse_events
parse_events-HasOneItem events =
    let b = handle_events events empty_builder in
    let h =
      handle_events-IsBuilt events empty_builder (record { blocks = tt; items = omega arith }) in
    (if-IsBuilt b.in_paragraph _ _ (flush_paragraph-IsBuilt b h) h).blocks
