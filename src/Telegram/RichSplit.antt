-- ===== src/Telegram/RichSplit.antt =====
-- internal/platform/telegram/rich_split.go: splitting a message into messages within the limits of
-- the protocol. It starts from the blocks that `ParseRichBlocks` returns.
pub mod Chunks
pub mod Parts
pub mod Fits
pub mod Rejoin
use sakura_nexus.Base.{
  ℕ, zero, suc, ◌+◌, ◌-◌, Bool, true, false, not, ◌&&◌, ◌||◌, List, [], ◌∷◌, ◌++◌, map,
  if◌then◌else◌, ◌==◌, ltb, leb, length, take, filter,
}
use sakura_nexus.Base.Text.{Text, text, is_empty, join, trim_prefix}
use sakura_nexus.Telegram.RichBlock.{
  RichBlock, RichBlockKind, heading, paragraph, list_item, table, code, quote, formula, footnote,
  media, split_lines, trim_space, is_pipe_divider,
}

abbrev pub max_rich_chars : ℕ
max_rich_chars = 32768

abbrev pub max_rich_blocks : ℕ
max_rich_blocks = 500

abbrev pub max_rich_depth : ℕ
max_rich_depth = 16

abbrev pub max_rich_media : ℕ
max_rich_media = 50

abbrev pub max_rich_cols : ℕ
max_rich_cols = 20

-- `unsendable` is the error, `panicked` a slice that is out of bounds.
pub data Outcome (A : Type 0) : Type 0 where
  parts : A → Outcome A
  unsendable panicked : Outcome A

abbrev pub newline : Text
newline = 10 ∷ []

abbrev pub has_lines : List Text → Bool
has_lines [] = false
has_lines (line ∷ lines) = true

-- `emit` of the three loops: an empty chunk is no part.
unfoldable pub emit_chunk : List (List Text) → List Text → List (List Text)
emit_chunk chunks [] = chunks
emit_chunk chunks (line ∷ lines) = chunks ++ (line ∷ lines) ∷ []

-- The loop over the lines that the three splitters share: `budget` characters to a chunk, and
-- `is_full n` stops a chunk of `n` lines.
unfoldable pub chunk_lines :
    ℕ → (ℕ → Bool) → List Text → List (List Text) → List Text → ℕ → Outcome (List (List Text))
unfolding emit_chunk
chunk_lines budget is_full [] chunks chunk size = parts (emit_chunk chunks chunk)
chunk_lines budget is_full (line ∷ lines) chunks chunk size =
    let n = length line in
    let add = if has_lines chunk then n + 1 else n in
    let cut = has_lines chunk && (ltb budget (size + add) || is_full (length chunk)) in
    let rest =
      chunk_lines budget is_full lines (if cut then emit_chunk chunks chunk else chunks)
        (if cut then line ∷ [] else chunk ++ line ∷ []) (if cut then n else size + add) in
    if ltb budget n then unsendable else rest

abbrev pub never_full : ℕ → Bool
never_full n = false

abbrev pub as_blocks :
    (List Text → RichBlock) → Outcome (List (List Text)) → Outcome (List RichBlock)
as_blocks wrap (parts chunks) = parts (map wrap chunks)
as_blocks wrap unsendable = unsendable
as_blocks wrap panicked = panicked

-- All but the last line.
abbrev pub but_last : List Text → List Text
but_last [] = []
but_last (line ∷ []) = []
but_last (line ∷ next ∷ lines) = line ∷ but_last (next ∷ lines)

abbrev pub last_line : List Text → Text
last_line [] = []
last_line (line ∷ []) = line
last_line (line ∷ next ∷ lines) = last_line (next ∷ lines)

unfoldable pub wrap_fence : RichBlockKind → Text → Text → List Text → RichBlock
wrap_fence kind open_full close_full chunk = record {
  kind = kind;
  content = open_full ++ (newline ++ (join newline chunk ++ (newline ++ close_full)));
  depth = 1;
  count = 1;
  media_count = 0;
  cols = 0;
}

-- The fence mark is cut after three characters; the source cuts after three bytes.
unfoldable pub split_fenced_lines : RichBlockKind → List Text → Outcome (List RichBlock)
unfolding chunk_lines wrap_fence
split_fenced_lines kind [] = panicked
split_fenced_lines kind (opener ∷ []) = panicked
split_fenced_lines kind (opener ∷ line ∷ lines) =
    let mark = take 3 opener in
    let open_full = mark ++ trim_space (trim_prefix opener mark) in
    let budget = max_rich_chars - length open_full - length mark - 2 in
    if budget == 0
    then unsendable
    else as_blocks (wrap_fence kind open_full mark)
        (chunk_lines budget never_full (but_last (line ∷ lines)) [] [] 0)

unfoldable pub split_fenced_block : RichBlock → Outcome (List RichBlock)
unfolding split_fenced_lines
split_fenced_block b = split_fenced_lines b.kind (split_lines b.content)

unfoldable pub wrap_lines : RichBlock → List Text → RichBlock
wrap_lines b chunk = record {
  kind = b.kind;
  content = join newline chunk;
  depth = b.depth;
  count = 1;
  media_count = 0;
  cols = 0;
}

unfoldable pub split_line_block : RichBlock → Outcome (List RichBlock)
unfolding chunk_lines wrap_lines
split_line_block b =
    as_blocks (wrap_lines b) (chunk_lines max_rich_chars never_full (split_lines b.content) [] [] 0)

-- The rows that are kept: a blank one is skipped.
unfoldable pub data_rows : List Text → List Text
data_rows rows = filter (λ row. not (is_empty (trim_space row))) rows

unfoldable pub wrap_pipe : ℕ → Text → Text → List Text → RichBlock
wrap_pipe cols header divider chunk = record {
  kind = table;
  content = header ++ (newline ++ (divider ++ (newline ++ join newline chunk)));
  depth = 1;
  count = 1 + length chunk;
  media_count = 0;
  cols = cols;
}

unfoldable pub wrap_html : ℕ → Text → Text → List Text → RichBlock
wrap_html cols opener close chunk = record {
  kind = table;
  content = opener ++ (newline ++ (join newline chunk ++ (newline ++ close)));
  depth = 1;
  count = length chunk;
  media_count = 0;
  cols = cols;
}

unfoldable pub split_rows :
    ℕ → Text → Text → (List Text → RichBlock) → List Text → Outcome (List RichBlock)
unfolding chunk_lines data_rows
split_rows rows_per_chunk before after wrap rows =
    let budget = max_rich_chars - (length before + length after + 2) in
    if budget == 0
    then unsendable
    else as_blocks wrap
        (chunk_lines budget (λ n. ltb rows_per_chunk (n + 1)) (data_rows rows) [] [] 0)

-- The HTML case: the first and the last line wrap the rows.
unfoldable pub split_html_lines : ℕ → Text → Text → List Text → Outcome (List RichBlock)
unfolding split_rows wrap_html
split_html_lines cols line second [] = unsendable
split_html_lines cols line second (third ∷ more) =
    let close = last_line (third ∷ more) in
    split_rows max_rich_blocks line close (wrap_html cols line close)
      (second ∷ but_last (third ∷ more))

unfoldable pub split_table_lines : ℕ → List Text → Outcome (List RichBlock)
unfolding split_rows wrap_pipe split_html_lines
split_table_lines cols [] = unsendable
split_table_lines cols (line ∷ []) = unsendable
split_table_lines cols (line ∷ second ∷ lines) =
    if is_pipe_divider second
    then split_rows (max_rich_blocks - 1) line second (wrap_pipe cols line second) lines
    else split_html_lines cols line second lines

unfoldable pub split_table_block : RichBlock → Outcome (List RichBlock)
unfolding split_table_lines
split_table_block b = split_table_lines b.cols (split_lines b.content)

-- The `switch` of `splitOversizedBlock`.
unfoldable pub split_by_kind : RichBlockKind → RichBlock → Outcome (List RichBlock)
split_by_kind code b = split_fenced_block b
split_by_kind formula b = split_fenced_block b
split_by_kind table b = split_table_block b
split_by_kind paragraph b = split_line_block b
split_by_kind quote b = split_line_block b
split_by_kind list_item b = split_line_block b
split_by_kind footnote b = split_line_block b
split_by_kind heading b = unsendable
split_by_kind media b = unsendable

unfoldable pub split_oversized_block : RichBlock → Outcome (List RichBlock)
unfolding split_by_kind split_fenced_block split_table_block split_line_block
split_oversized_block b = split_by_kind b.kind b

-- The queue of the blocks that fit, in order.
unfoldable pub build_queue : List RichBlock → List RichBlock → Outcome (List RichBlock)
unfolding split_oversized_block
build_queue queue [] = parts queue
build_queue queue (b ∷ blocks) =
    if leb (length b.content) max_rich_chars
    then build_queue (queue ++ b ∷ []) blocks
    else elim (split_oversized_block b) [
      | parts bs ↦ build_queue (queue ++ bs) blocks
      | unsendable ↦ unsendable
      | panicked ↦ panicked
    ]

pub record RichMsgAcc : Type 0 where
  pub texts : List Text
  pub blocks : ℕ
  pub media_count : ℕ
  pub chars : ℕ

unfoldable pub empty_acc : RichMsgAcc
empty_acc = record { texts = []; blocks = 0; media_count = 0; chars = 0 }

unfoldable pub acc_fits : RichMsgAcc → RichBlock → Bool
acc_fits a b =
    if has_lines a.texts
    then leb (a.chars + 2 + length b.content) max_rich_chars
      && (leb (a.blocks + b.count) max_rich_blocks
          && leb (a.media_count + b.media_count) max_rich_media)
    else true

unfoldable pub acc_add : RichMsgAcc → RichBlock → RichMsgAcc
acc_add a b = record {
  texts = a.texts ++ b.content ∷ [];
  blocks = a.blocks + b.count;
  media_count = a.media_count + b.media_count;
  chars = a.chars + ((if has_lines a.texts then 2 else 0) + length b.content);
}

-- `emit`
unfoldable pub acc_emit : RichMsgAcc → Text
acc_emit a = join (10 ∷ 10 ∷ []) a.texts

-- `flush`: a message that is empty is left out.
unfoldable pub flush_acc : List Text → RichMsgAcc → List Text
unfolding acc_emit
flush_acc msgs a = if is_empty (acc_emit a) then msgs else msgs ++ acc_emit a ∷ []

unfoldable pub assemble : List Text → RichMsgAcc → List RichBlock → List Text
unfolding acc_fits acc_add flush_acc empty_acc
assemble msgs a [] = flush_acc msgs a
assemble msgs a (b ∷ queue) =
    assemble (if acc_fits a b then msgs else flush_acc msgs a)
      (acc_add (if acc_fits a b then a else empty_acc) b) queue

-- Past repair by splitting: nesting, columns, attachments.
unfoldable pub is_broken : RichBlock → Bool
is_broken b =
    ltb max_rich_depth b.depth || (ltb max_rich_cols b.cols || ltb max_rich_media b.media_count)

unfoldable pub any_broken : List RichBlock → Bool
unfolding is_broken
any_broken [] = false
any_broken (b ∷ blocks) = if is_broken b then true else any_broken blocks

-- `RichMessages`, from the blocks on.
unfoldable pub rich_messages : List RichBlock → Outcome (List Text)
unfolding any_broken build_queue assemble empty_acc
rich_messages [] = unsendable
rich_messages (b ∷ blocks) =
    if any_broken (b ∷ blocks) then unsendable else elim (build_queue [] (b ∷ blocks)) [
      | parts queue ↦ parts (assemble [] empty_acc queue)
      | unsendable ↦ unsendable
      | panicked ↦ panicked
    ]
