-- ===== src/Telegram/RichLine.antt =====
-- internal/platform/telegram/rich_blocks.go: what a line of a rich message begins. A regular expression
-- of the source is a function that says whether it matches.
use sakura_nexus.Base.{
  ℕ, ◌+◌, ◌-◌, ◌/◌, Bool, true, false, ◌&&◌, ◌||◌, Option, none, some, List, [], ◌∷◌, if◌then◌else◌,
  ◌==◌, ltb, leb, length, drop, max,
}
use sakura_nexus.Base.Text.{Text, text, is_empty, has_prefix}
use sakura_nexus.Telegram.RichBlock.{is_ascii_space, split_lines}

-- strings.ToLower, as far as the tests on tags can tell: no other letter becomes one of theirs.
unfoldable pub to_lower : Text → Text
to_lower [] = []
to_lower (c ∷ s) = (if leb 65 c && leb c 90 then c + 32 else c) ∷ to_lower s

-- The characters `c` at the beginning: how many, and what follows them.
unfoldable pub leading : ℕ → Text → ℕ × Text
leading c [] = (0, [])
leading c (x ∷ s) = let (n, rest) = leading c s in if x == c then (n + 1, rest) else (0, x ∷ s)

unfoldable pub is_digit : ℕ → Bool
is_digit c = leb 48 c && leb c 57

unfoldable pub drop_digits : Text → Text
unfolding is_digit
drop_digits [] = []
drop_digits (c ∷ s) = let rest = drop_digits s in if is_digit c then rest else c ∷ s

unfoldable pub ends_with : ℕ → Text → Bool
ends_with c [] = false
ends_with c (x ∷ []) = x == c
ends_with c (x ∷ y ∷ s) = ends_with c (y ∷ s)

-- strings.HasSuffix(s, "$$")
unfoldable pub ends_formula : Text → Bool
ends_formula [] = false
ends_formula (x ∷ []) = false
ends_formula (x ∷ y ∷ []) = x == 36 && y == 36
ends_formula (x ∷ y ∷ z ∷ s) = ends_formula (y ∷ z ∷ s)

-- `i >= 1 && i <= 6` and a space or the end after the number signs
unfoldable pub is_rich_heading : Text → Bool
unfolding leading
is_rich_heading line =
    let (n, rest) = leading 35 line in
    leb 1 n && (leb n 6 && (is_empty rest || has_prefix rest (text " ")))

-- The test after the digits of an ordered item: `none` is an index that is out of range.
unfoldable pub after_digits : Text → Option Bool
after_digits [] = some false
after_digits (c ∷ []) = if c == 46 || c == 41 then none else some false
after_digits (c ∷ d ∷ s) = some ((c == 46 || c == 41) && d == 32)

unfoldable pub is_numbered_item : Text → Option Bool
unfolding is_digit drop_digits after_digits
is_numbered_item [] = some false
is_numbered_item (c ∷ s) =
    if ltb 2 (length (c ∷ s)) && is_digit c then after_digits (drop_digits s) else some false

unfoldable pub is_rich_list_item : Text → Option Bool
unfolding leading is_numbered_item
is_rich_list_item line =
    let (n, t) = leading 32 line in
    if has_prefix t (text "- ") || (has_prefix t (text "* ") || has_prefix t (text "+ "))
    then some true
    else is_numbered_item t

unfoldable pub list_item_depth : Text → ℕ
unfolding leading
list_item_depth line = (leading 32 line).0 / 2 + 1

unfoldable pub quote_depth : Text → ℕ
unfolding leading
quote_depth line = max (leading 62 line).0 1

unfoldable pub count_char : ℕ → Text → ℕ
count_char c [] = 0
count_char c (x ∷ s) = let n = count_char c s in if x == c then n + 1 else n

unfoldable pub count_pipe_cells : Text → ℕ
unfolding count_char
count_pipe_cells row = count_char 124 row - 1

-- rePipeRow
unfoldable pub is_pipe_row : Text → Bool
unfolding ends_with
is_pipe_row [] = false
is_pipe_row (c ∷ s) = c == 124 && ends_with 124 s

-- Up to the first `c`: how many characters, and what follows it.
unfoldable pub up_to : ℕ → Text → Option (ℕ × Text)
up_to c [] = none
up_to c (x ∷ s) =
    let later = up_to c s in
    if x == c then some (0, s) else elim later [ none ↦ none | some (n, rest) ↦ some (n + 1, rest) ]

-- reFootnoteDef
unfoldable pub is_footnote_def : Text → Bool
unfolding up_to
is_footnote_def s = elim (up_to 93 (drop 2 s)) [
  | none ↦ false
  | some (n, rest) ↦ has_prefix s (text "[^") && (leb 1 n && has_prefix rest (text ":"))
]

-- reMediaMD
unfoldable pub is_media_md : Text → Bool
unfolding up_to
is_media_md s = elim (up_to 93 (drop 2 s)) [
  | none ↦ false
  | some (n, rest) ↦ elim (up_to 41 (drop 1 rest)) [
    | none ↦ false
    | some (k, tail) ↦ has_prefix s (text "![") && (has_prefix rest (text "(") && leb 1 k)
  ]
]

-- A tag at the beginning, with a character after it that ends its name.
unfoldable pub is_tag : Text → Bool → Text → Bool
unfolding is_ascii_space
is_tag [] slash [] = false
is_tag [] slash (c ∷ s) = is_ascii_space c || (c == 62 || (slash && c == 47))
is_tag (t ∷ ts) slash [] = false
is_tag (t ∷ ts) slash (c ∷ s) = if t == c then is_tag ts slash s else false

-- How many times the test holds of what begins at a character of the text.
unfoldable pub count_at : (Text → Bool) → Text → ℕ
count_at p [] = 0
count_at p (c ∷ s) = let n = count_at p s in if p (c ∷ s) then n + 1 else n

-- reMediaCount, on a text in lower case
unfoldable pub is_media_tag : Text → Bool
unfolding is_tag
is_media_tag s =
    is_tag (text "<img") true s || (is_tag (text "<video") true s || is_tag (text "<audio") true s)

unfoldable pub count_media : Text → ℕ
unfolding to_lower count_at is_media_tag
count_media line = count_at is_media_tag (to_lower line)

-- reHTMLRow
unfoldable pub count_rows : Text → ℕ
unfolding to_lower count_at is_tag
count_rows s = count_at (is_tag (text "<tr") false) (to_lower s)

-- reHTMLCell
unfoldable pub is_cell_end : Text → Bool
is_cell_end s = has_prefix s (text "</th>") || has_prefix s (text "</td>")

unfoldable pub widest : List Text → ℕ → ℕ
unfolding to_lower count_at is_cell_end
widest [] cols = cols
widest (row ∷ rows) cols =
    let n = count_at is_cell_end (to_lower row) in widest rows (if ltb cols n then n else cols)

unfoldable pub html_table_cols : Text → ℕ
unfolding widest split_lines
html_table_cols table = widest (split_lines table) 0

unfoldable pub all_space : Text → Bool
unfolding is_ascii_space
all_space [] = true
all_space (c ∷ s) = is_ascii_space c && all_space s

-- reMathFence, with `c` for the character of the fence
unfoldable pub is_math_run : ℕ → Text → Bool
unfolding leading all_space
is_math_run c line =
    let (n, rest) = leading c line in
    leb 3 n && (has_prefix rest (text "math") && all_space (drop 4 rest))

unfoldable pub is_math_fence : Text → Bool
unfolding is_math_run
is_math_fence line = is_math_run 96 line || is_math_run 126 line
