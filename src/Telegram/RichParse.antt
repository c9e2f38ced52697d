-- ===== src/Telegram/RichParse.antt =====
-- internal/platform/telegram/rich_blocks.go, `ParseRichBlocks`: the blocks of a text, line by line. A
-- block keeps its lines apart until the end, where they are joined.
pub mod Lossless
use sakura_nexus.Base.{
  ℕ, zero, suc, ◌+◌, ◌-◌, Bool, true, false, not, ◌&&◌, ◌||◌, Option, none, some, List, [], ◌∷◌,
  ◌++◌, map, if◌then◌else◌, ◌==◌, length, take, max,
}
use sakura_nexus.Base.Text.{Text, text, is_empty, join, has_prefix, contains_text, text_eq}
use sakura_nexus.Telegram.RichBlock.{
  RichBlock, RichBlockKind, heading, paragraph, list_item, table, code, quote, formula, footnote,
  media, split_lines, trim_space, is_pipe_divider,
}
use sakura_nexus.Telegram.RichLine.{
  to_lower, ends_formula, is_rich_heading, is_rich_list_item, list_item_depth, quote_depth,
  count_pipe_cells, is_pipe_row, is_footnote_def, is_media_md, count_media, count_rows,
  html_table_cols, is_math_fence,
}
use sakura_nexus.Telegram.RichSplit.{Outcome, parts, unsendable, panicked, newline, rich_messages}

-- A block before its lines are joined.
pub record Lines : Type 0 where
  pub kind : RichBlockKind
  pub lines : List Text
  pub depth : ℕ
  pub count : ℕ
  pub media_count : ℕ
  pub cols : ℕ

abbrev pub plain_lines : RichBlockKind → List Text → Lines
plain_lines kind ls = record {
  kind = kind;
  lines = ls;
  depth = 1;
  count = 1;
  media_count = 0;
  cols = 0;
}

-- The lines up to the first that ends the block, this one included, and the others.
unfoldable pub take_until : (Text → Bool) → List Text → List Text × List Text
take_until p [] = ([], [])
take_until p (l ∷ ls) =
    let (body, rest) = take_until p ls in if p l then (l ∷ [], ls) else (l ∷ body, rest)

-- The lines that continue the block, and the others.
unfoldable pub take_while : (Text → Bool) → List Text → List Text × List Text
take_while p [] = ([], [])
take_while p (l ∷ ls) =
    let (body, rest) = take_while p ls in if p l then (l ∷ body, rest) else ([], l ∷ ls)

-- The same for a list item, where the test can be out of range.
unfoldable pub take_item : List Text → Option (List Text × List Text)
take_item [] = some ([], [])
take_item (l ∷ ls) =
    let rest = take_item ls in
    if is_empty (trim_space l) then some ([], l ∷ ls) else elim (is_rich_list_item l) [
      | none ↦ none
      | some true ↦ some ([], l ∷ ls)
      | some false ↦
          if has_prefix l (text " ")
          then elim rest [ none ↦ none | some (body, after) ↦ some (l ∷ body, after) ]
          else some ([], l ∷ ls)
    ]

unfoldable pub closes_formula : Text → Bool
closes_formula l = ends_formula (trim_space l)

unfoldable pub closes_table : Text → Bool
closes_table l = contains_text (to_lower l) (text "</table>")

-- What begins at a line that is not blank: a block and the lines after it, a line of a paragraph, or a
-- panic.
pub data Found : Type 0 where
  block : Lines → List Text → Found
  text_line panic : Found

unfoldable pub html_table : List Text → List Text → Found
unfolding html_table_cols count_rows
html_table body rest =
    block
      (record {
        kind = table;
        lines = body;
        depth = 1;
        count = count_rows (join newline body);
        media_count = 0;
        cols = html_table_cols (join newline body);
      })
      rest

-- The cases of the `switch` from the quotes on.
unfoldable pub find_tail : Text → List Text → Found
unfolding take_while take_item
find_tail l ls =
    let quoted =
      take_while (λ x. has_prefix (trim_space x) (text ">") && quote_depth x == quote_depth l) ls in
    let foot = take_while (λ x. has_prefix x (text " ")) ls in
    if has_prefix l (text ">")
    then block
        (record {
          kind = quote;
          lines = l ∷ quoted.0;
          depth = quote_depth l;
          count = 1;
          media_count = 0;
          cols = 0;
        })
        quoted.1
    else elim (is_rich_list_item l) [
      | none ↦ panic
      | some true ↦ elim (take_item ls) [
        | none ↦ panic
        | some (body, after) ↦
            block
              (record {
                kind = list_item;
                lines = l ∷ body;
                depth = list_item_depth l;
                count = 1;
                media_count = 0;
                cols = 0;
              })
              after
      ]
      | some false ↦
          if is_footnote_def l then block (plain_lines footnote (l ∷ foot.0)) foot.1 else text_line
    ]

-- The cases of the tables and the media.
unfoldable pub find_middle : Text → List Text → Found
unfolding take_until html_table find_tail
find_middle l ls =
    let tagged = take_until closes_table ls in
    if has_prefix (to_lower l) (text "<table")
    then (if closes_table l then html_table (l ∷ []) ls else html_table (l ∷ tagged.0) tagged.1)
    else if is_media_md l
    then block (record (plain_lines media (l ∷ [])) { media_count = 1 }) ls
    else if not (count_media l == 0)
    then block (record (plain_lines media (l ∷ [])) { media_count = max (count_media l) 1 }) ls
    else find_tail l ls

-- A table with pipes needs the line after its head.
unfoldable pub find_pipe : Text → List Text → Found
unfolding take_while find_middle
find_pipe l [] = find_middle l []
find_pipe l (d ∷ ls) =
    let rows = take_while is_pipe_row ls in
    if is_pipe_row l && is_pipe_divider d
    then block
        (record {
          kind = table;
          lines = l ∷ d ∷ rows.0;
          depth = 1;
          count = length (l ∷ d ∷ rows.0) - 1;
          media_count = 0;
          cols = count_pipe_cells l;
        })
        rows.1
    else find_middle l (d ∷ ls)

unfoldable pub find_block : Text → List Text → Found
unfolding take_until find_pipe
find_block l ls =
    let fenced = take_until (λ x. has_prefix x (take 3 l)) ls in
    let formulas = take_until closes_formula ls in
    if has_prefix l (text "#") && is_rich_heading l
    then block (plain_lines heading (l ∷ [])) ls
    else if has_prefix l (text "```") || has_prefix l (text "~~~")
    then block (plain_lines (if is_math_fence l then formula else code) (l ∷ fenced.0)) fenced.1
    else if has_prefix l (text "$$")
    then (if not (closes_formula l) || text_eq (trim_space l) (text "$$")
        then block (plain_lines formula (l ∷ formulas.0)) formulas.1
        else block (plain_lines formula (l ∷ [])) ls)
    else find_pipe l ls

unfoldable pub flush_para : List Lines → List Text → List Lines
flush_para blocks [] = blocks
flush_para blocks (l ∷ para) = blocks ++ plain_lines paragraph (l ∷ para) ∷ []

pub data Parsed : Type 0 where
  parsed : List Lines → Parsed
  crashed unfinished : Parsed

-- The loop over the lines. Every round takes a line at least, so a unit of fuel for each is enough.
unfoldable pub parse_lines : ℕ → List Text → List Text → List Lines → Parsed
unfolding find_block flush_para trim_space
parse_lines fuel [] para blocks = parsed (flush_para blocks para)
parse_lines zero (l ∷ ls) para blocks = unfinished
parse_lines (suc fuel) (l ∷ ls) para blocks =
    if is_empty (trim_space l)
    then parse_lines fuel ls [] (flush_para blocks para)
    else elim (find_block l ls) [
      | text_line ↦ parse_lines fuel ls (para ++ l ∷ []) blocks
      | block b rest ↦ parse_lines fuel rest [] (flush_para blocks para ++ b ∷ [])
      | panic ↦ crashed
    ]

abbrev pub joined : Lines → RichBlock
joined b = record {
  kind = b.kind;
  content = join newline b.lines;
  depth = b.depth;
  count = b.count;
  media_count = b.media_count;
  cols = b.cols;
}

-- `none` is a panic.
unfoldable pub parse_rich_blocks : Text → Option (List RichBlock)
unfolding parse_lines
parse_rich_blocks s =
    if is_empty (trim_space s)
    then some []
    else elim (parse_lines (length (split_lines s)) (split_lines s) [] []) [
      | parsed bs ↦ some (map joined bs)
      | crashed ↦ none
      | unfinished ↦ none
    ]

-- `RichMessages`: from the normalized text to its messages.
unfoldable pub rich_text_messages : Text → Outcome (List Text)
unfolding parse_rich_blocks rich_messages
rich_text_messages s = elim (parse_rich_blocks s) [ none ↦ panicked | some bs ↦ rich_messages bs ]
