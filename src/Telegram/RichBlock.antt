-- ===== src/Telegram/RichBlock.antt =====
-- internal/platform/telegram/rich_blocks.go: a block of a rich message, and the tests on lines that
-- the splitting makes.
use sakura_nexus.Base.{ℕ, Bool, true, false, ◌&&◌, ◌||◌, List, [], ◌∷◌, if◌then◌else◌, ◌==◌, leb}
use sakura_nexus.Base.Text.{Text}

pub data RichBlockKind : Type 0 where
  heading paragraph list_item table code quote formula footnote media : RichBlockKind

pub record RichBlock : Type 0 where
  pub kind : RichBlockKind
  pub content : Text
  pub depth : ℕ
  pub count : ℕ
  pub media_count : ℕ
  pub cols : ℕ

-- strings.Split(s, "\n")
unfoldable pub split_lines : Text → List Text
split_lines [] = [] ∷ []
split_lines (c ∷ s) =
    let rest = split_lines s in
    if c == 10
    then [] ∷ rest
    else elim rest [ [] ↦ (c ∷ []) ∷ [] | line ∷ lines ↦ (c ∷ line) ∷ lines ]

-- unicode.IsSpace
unfoldable pub is_space : ℕ → Bool
is_space c =
    (leb 9 c && leb c 13)
    || (c == 32
        || (c == 133
            || (c == 160
                || (c == 5760
                    || ((leb 8192 c && leb c 8202)
                        || (c == 8232
                            || (c == 8233 || (c == 8239 || (c == 8287 || c == 12288)))))))))

unfoldable pub drop_space : Text → Text
unfolding is_space
drop_space [] = []
drop_space (c ∷ s) = let rest = drop_space s in if is_space c then rest else c ∷ s

reverse_onto : Text → Text → Text
reverse_onto [] acc = acc
reverse_onto (c ∷ s) acc = reverse_onto s (c ∷ acc)

-- strings.TrimSpace
unfoldable pub trim_space : Text → Text
unfolding drop_space reverse_onto
trim_space s = reverse_onto (drop_space (reverse_onto (drop_space s) [])) []

-- Where in a cell of a divider line the automaton for `^\|(\s*:?-{2,}:?\s*\|)+$` is.
pub data Cell : Type 0 where
  first closed lead colon dash dashes end_colon trail dead : Cell

-- `\s`
unfoldable pub is_ascii_space : ℕ → Bool
is_ascii_space c = c == 9 || (c == 10 || (c == 12 || (c == 13 || c == 32)))

-- `|` is 124, `:` is 58, `-` is 45.
unfoldable pub at_start : ℕ → Cell
unfolding is_ascii_space
at_start c =
    if is_ascii_space c then lead else if c == 58 then colon else if c == 45 then dash else dead

unfoldable pub at_end : ℕ → Cell
unfolding is_ascii_space
at_end c = if is_ascii_space c then trail else if c == 124 then closed else dead

unfoldable pub next_cell : Cell → ℕ → Cell
unfolding at_start at_end
next_cell first c = at_start c
next_cell closed c = at_start c
next_cell lead c = at_start c
next_cell colon c = if c == 45 then dash else dead
next_cell dash c = if c == 45 then dashes else dead
next_cell dashes c = if c == 45 then dashes else if c == 58 then end_colon else at_end c
next_cell end_colon c = at_end c
next_cell trail c = at_end c
next_cell dead c = dead

unfoldable pub run_cells : Cell → Text → Bool
unfolding next_cell
run_cells closed [] = true
run_cells s [] = false
run_cells s (c ∷ rest) = run_cells (next_cell s c) rest

-- rePipeDivider.MatchString
unfoldable pub is_pipe_divider : Text → Bool
unfolding run_cells
is_pipe_divider [] = false
is_pipe_divider (c ∷ s) = if c == 124 then run_cells first s else false
