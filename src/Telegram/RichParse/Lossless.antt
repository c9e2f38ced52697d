-- ===== src/Telegram/RichParse/Lossless.antt =====
-- internal/platform/telegram/rich_blocks.go: the blocks of a text hold its lines.
use sakura_nexus.Base.{
  ℕ, zero, suc, ◌+◌, ◌≤◌, ◌≡◌, ◌⊎◌, inl, inr, refl, sym, ap, ◌∙◌, subst, Some, Bool, true, false,
  not, Option, none, some, List, [], ◌∷◌, ◌++◌, append_assoc, append-nil, filter, length,
  length-append, arith, Bool-cases, Option-cases, ◌==◌, ◌&&◌, ◌||◌,
}
use sakura_nexus.Base.Text.{Text, is_empty, text, text_eq, has_prefix}
use sakura_nexus.Telegram.RichBlock.{trim_space, is_pipe_divider, paragraph}
use sakura_nexus.Telegram.RichLine.{
  is_rich_list_item, is_footnote_def, to_lower, is_media_md, count_media, is_pipe_row,
  is_rich_heading,
}
use sakura_nexus.Telegram.RichParse.{
  Lines, plain_lines, take_until, take_while, take_item, Found, block, text_line, panic, html_table,
  find_tail, closes_table, closes_formula, find_middle, find_pipe, find_block, flush_para, Parsed,
  parsed, crashed, unfinished, parse_lines,
}

take_until-append :
    (p : Text → Bool) (ls : List Text) → (take_until p ls).0 ++ (take_until p ls).1 ≡ ls
unfolding take_until
take_until-append p [] = refl
take_until-append p (l ∷ ls) = ground (arith, take_until-append p ls)

take_while-append :
    (p : Text → Bool) (ls : List Text) → (take_while p ls).0 ++ (take_while p ls).1 ≡ ls
unfolding take_while
take_while-append p [] = refl
take_while-append p (l ∷ ls) = ground (arith, take_while-append p ls)

-- Some line looks like an ordered item but ends after its dot, where the test runs out of range.
abbrev pub HasBadItem : List Text → Type 0
HasBadItem ls = Some (λ l. is_rich_list_item l ≡ none) ls

-- The lines of a block begin with the line at which it was found, and the rest follows them.
abbrev pub Takes : Text → List Text → Found → Type 0
Takes l ls (block b rest) = (body : List Text) × (b.lines ≡ l ∷ body) × (body ++ rest ≡ ls)
Takes l ls text_line = Unit
Takes l ls panic = HasBadItem (l ∷ ls)

abbrev IsTaken : List Text → Option (List Text × List Text) → Type 0
IsTaken ls none = HasBadItem ls
IsTaken ls (some (body, rest)) = body ++ rest ≡ ls

item-cases :
    (l : Text)
    → (is_rich_list_item l ≡ none)
      ⊎ (is_rich_list_item l ≡ some true)
      ⊎ (is_rich_list_item l ≡ some false)
item-cases l = elim (Option-cases (is_rich_list_item l)) [
  | inl bad ↦ inl bad
  | inr (b, known) ↦ elim (Bool-cases b) [
    | inl e ↦ inr (inl (known ∙ ap some e))
    | inr e ↦ inr (inr (known ∙ ap some e))
  ]
]

take_item-IsTaken : (ls : List Text) → IsTaken ls (take_item ls)
unfolding take_item
take_item-IsTaken [] = refl
take_item-IsTaken (l ∷ ls) = elim (Bool-cases (is_empty (trim_space l))) [
  | inl blank ↦ rw (blank, take_item) refl
  | inr filled ↦ elim (item-cases l) [
    | inl bad ↦ rw (filled, take_item, bad) (inl bad)
    | inr (inl item) ↦ rw (filled, take_item, item) refl
    | inr (inr other) ↦ elim (Bool-cases (has_prefix l (text " "))) [
      | inr outer ↦ rw (filled, take_item, other, outer) refl
      | inl inner ↦ elim (Option-cases (take_item ls)) [
        | inl bad ↦
            rw (filled, take_item, other, inner, bad)
              (inr (subst (IsTaken ls) bad (take_item-IsTaken ls)))
        | inr (taken, good) ↦
            rw (filled, take_item, other, inner, good)
              (ap (λ t. l ∷ t) (subst (IsTaken ls) good (take_item-IsTaken ls)))
      ]
    ]
  ]
]

html_table-Takes :
    (l : Text) (ls body rest : List Text)
    → body ++ rest ≡ ls
    → Takes l ls (html_table (l ∷ body) rest)
unfolding html_table
html_table-Takes l ls body rest h = (body, refl, h)

find_tail-Takes : (l : Text) (ls : List Text) → Takes l ls (find_tail l ls)
unfolding find_tail
find_tail-Takes l ls = elim (Bool-cases (has_prefix l (text ">"))) [
  | inl quoted ↦ rw (quoted, find_tail) (_, refl, take_while-append _ ls)
  | inr other ↦ elim (item-cases l) [
    | inl bad ↦ rw (other, find_tail, bad) (inl bad)
    | inr (inr no_item) ↦ elim (Bool-cases (is_footnote_def l)) [
      | inl noted ↦ rw (other, find_tail, no_item, noted) (_, refl, take_while-append _ ls)
      | inr bare ↦ rw (other, find_tail, no_item, bare) tt
    ]
    | inr (inl item) ↦ elim (Option-cases (take_item ls)) [
      | inl bad ↦
          rw (other, find_tail, item, bad) (inr (subst (IsTaken ls) bad (take_item-IsTaken ls)))
      | inr (taken, good) ↦
          rw (other, find_tail, item, good)
            (taken.0, refl, subst (IsTaken ls) good (take_item-IsTaken ls))
    ]
  ]
]

find_middle-Takes : (l : Text) (ls : List Text) → Takes l ls (find_middle l ls)
unfolding find_middle
find_middle-Takes l ls = elim (Bool-cases (has_prefix (to_lower l) (text "<table"))) [
  | inl tagged ↦ elim (Bool-cases (closes_table l)) [
    | inl closed ↦ rw (tagged, find_middle, closed) (html_table-Takes l ls [] ls refl)
    | inr runs ↦
        rw (tagged, find_middle, runs)
          (html_table-Takes l ls _ _ (take_until-append closes_table ls))
  ]
  | inr other ↦ elim (Bool-cases (is_media_md l)) [
    | inl shown ↦ rw (other, find_middle, shown) ([], refl, refl)
    | inr plain ↦ elim (Bool-cases (not (count_media l == 0))) [
      | inl some_media ↦ rw (other, find_middle, plain, some_media) ([], refl, refl)
      | inr no_media ↦ rw (other, find_middle, plain, no_media) (find_tail-Takes l ls)
    ]
  ]
]

find_pipe-Takes : (l : Text) (ls : List Text) → Takes l ls (find_pipe l ls)
unfolding find_pipe
find_pipe-Takes l [] = find_middle-Takes l []
find_pipe-Takes l (d ∷ ls) = elim (Bool-cases (is_pipe_row l && is_pipe_divider d)) [
  | inl piped ↦ rw (piped, find_pipe) (_, refl, ap (λ t. d ∷ t) (take_while-append is_pipe_row ls))
  | inr other ↦ rw (other, find_pipe) (find_middle-Takes l (d ∷ ls))
]

find_block-Takes : (l : Text) (ls : List Text) → Takes l ls (find_block l ls)
unfolding find_block
find_block-Takes l ls = elim (Bool-cases (has_prefix l (text "#") && is_rich_heading l)) [
  | inl titled ↦ rw (titled, find_block) ([], refl, refl)
  | inr untitled ↦ elim (Bool-cases (has_prefix l (text "```") || has_prefix l (text "~~~"))) [
    | inl fenced ↦ rw (untitled, find_block, fenced) (_, refl, take_until-append _ ls)
    | inr unfenced ↦ elim (Bool-cases (has_prefix l (text "$$"))) [
      | inr other ↦ rw (untitled, find_block, unfenced, other) (find_pipe-Takes l ls)
      | inl dollars ↦
          elim (Bool-cases (not (closes_formula l) || text_eq (trim_space l) (text "$$"))) [
            | inl runs ↦
                rw (untitled, find_block, unfenced, dollars, runs)
                  (_, refl, take_until-append closes_formula ls)
            | inr whole ↦ rw (untitled, find_block, unfenced, dollars, whole) ([], refl, refl)
          ]
    ]
  ]
]

abbrev pub is_blank : Text → Bool
is_blank l = is_empty (trim_space l)

abbrev pub nonblank : List Text → List Text
nonblank ls = filter (λ l. not (is_blank l)) ls

unfoldable pub lines_of : List Lines → List Text
lines_of [] = []
lines_of (b ∷ bs) = b.lines ++ lines_of bs

-- What a parser makes of some lines: blocks with the same lines but for blank ones, or a crash at a bad
-- item; it always ends.
abbrev pub IsParsed : List Text → Parsed → Type 0
IsParsed ls (parsed bs) = nonblank (lines_of bs) ≡ nonblank ls
IsParsed ls crashed = HasBadItem ls
IsParsed ls unfinished = ⊥

lines_of-append : (bs cs : List Lines) → lines_of (bs ++ cs) ≡ lines_of bs ++ lines_of cs
unfolding lines_of
lines_of-append [] cs = refl
lines_of-append (b ∷ bs) cs =
    ap (λ t. b.lines ++ t) (lines_of-append bs cs)
    ∙ sym (append_assoc b.lines (lines_of bs) (lines_of cs))

flush_para-lines :
    (blocks : List Lines) (para : List Text)
    → lines_of (flush_para blocks para) ≡ lines_of blocks ++ para
unfolding flush_para lines_of
flush_para-lines blocks [] = sym (append-nil (lines_of blocks))
flush_para-lines blocks (l ∷ para) =
    lines_of-append blocks (plain_lines paragraph (l ∷ para) ∷ [])
    ∙ ap (λ t. lines_of blocks ++ t) (append-nil (l ∷ para))

HasBadItem-append : (xs ys : List Text) → HasBadItem ys → HasBadItem (xs ++ ys)
HasBadItem-append [] ys h = h
HasBadItem-append (x ∷ xs) ys h = inr (HasBadItem-append xs ys h)

nonblank-skip :
    (xs : List Text) (l : Text) (ls : List Text)
    → is_blank l ≡ true
    → nonblank (xs ++ ls) ≡ nonblank (xs ++ l ∷ ls)
nonblank-skip [] l ls h = rw h refl
nonblank-skip (x ∷ xs) l ls h = ground (arith, nonblank-skip xs l ls h)

HasBadItem-skip :
    (xs : List Text) (l : Text) (ls : List Text) → HasBadItem (xs ++ ls) → HasBadItem (xs ++ l ∷ ls)
HasBadItem-skip [] l ls h = inr h
HasBadItem-skip (x ∷ xs) l ls (inl h) = inl h
HasBadItem-skip (x ∷ xs) l ls (inr h) = inr (HasBadItem-skip xs l ls h)

IsParsed-skip :
    (xs : List Text) (l : Text) (ls : List Text) (p : Parsed)
    → is_blank l ≡ true
    → IsParsed (xs ++ ls) p
    → IsParsed (xs ++ l ∷ ls) p
IsParsed-skip xs l ls (parsed bs) h q = q ∙ nonblank-skip xs l ls h
IsParsed-skip xs l ls crashed h q = HasBadItem-skip xs l ls q
IsParsed-skip xs l ls unfinished h q = q

Found-cases :
    (f : Found)
    → (f ≡ text_line) ⊎ (f ≡ panic) ⊎ ((b : Lines) × (rest : List Text) × (f ≡ block b rest))
Found-cases text_line = inl refl
Found-cases panic = inr (inl refl)
Found-cases (block b rest) = inr (inr (b, rest, refl))

extended :
    (xs para : List Text) (l : Text) (ls : List Text)
    → (xs ++ (para ++ l ∷ [])) ++ ls ≡ (xs ++ para) ++ l ∷ ls
extended xs para l ls =
    ap (λ t. t ++ ls) (sym (append_assoc xs para (l ∷ []))) ∙ append_assoc (xs ++ para) (l ∷ []) ls

closed :
    (blocks : List Lines) (para : List Text) (b : Lines) (rest : List Text) {ls : List Text}
    → b.lines ++ rest ≡ ls
    → (lines_of (flush_para blocks para ++ b ∷ []) ++ []) ++ rest ≡ (lines_of blocks ++ para) ++ ls
unfolding lines_of
closed blocks para b rest h =
    ap (λ t. t ++ rest)
      (append-nil (lines_of (flush_para blocks para ++ b ∷ []))
        ∙ lines_of-append (flush_para blocks para) (b ∷ [])
        ∙ ap (λ t. t ++ (b.lines ++ [])) (flush_para-lines blocks para)
        ∙ ap (λ t. (lines_of blocks ++ para) ++ t) (append-nil b.lines))
    ∙ append_assoc (lines_of blocks ++ para) b.lines rest
    ∙ ap (λ t. (lines_of blocks ++ para) ++ t) h

parse_lines-IsParsed :
    (fuel : ℕ) (ls para : List Text) (blocks : List Lines)
    → length ls ≤ fuel
    → IsParsed ((lines_of blocks ++ para) ++ ls) (parse_lines fuel ls para blocks)
unfolding parse_lines
parse_lines-IsParsed fuel [] para blocks h =
    ap nonblank (flush_para-lines blocks para ∙ sym (append-nil (lines_of blocks ++ para)))
parse_lines-IsParsed zero (l ∷ ls) para blocks h = absurd (omega arith)
parse_lines-IsParsed (suc fuel) (l ∷ ls) para blocks h = elim (Bool-cases (is_blank l)) [
  | inl blank ↦
      let next = parse_lines-IsParsed fuel ls [] (flush_para blocks para) (omega arith) in
      rw (blank, parse_lines)
        (IsParsed-skip (lines_of blocks ++ para) l ls _ blank (
          subst (λ t. IsParsed (t ++ ls) (parse_lines fuel ls [] (flush_para blocks para)))
            (append-nil (lines_of (flush_para blocks para)) ∙ flush_para-lines blocks para) next))
  | inr filled ↦ elim (Found-cases (find_block l ls)) [
    | inl lined ↦
        rw (filled, parse_lines, lined)
          (subst (λ t. IsParsed t (parse_lines fuel ls (para ++ l ∷ []) blocks))
            (extended (lines_of blocks) para l ls)
            (parse_lines-IsParsed fuel ls (para ++ l ∷ []) blocks (omega arith)))
    | inr (inl bad) ↦
        rw (filled, parse_lines, bad)
          (HasBadItem-append (lines_of blocks ++ para) (l ∷ ls)
            (subst (Takes l ls) bad (find_block-Takes l ls)))
    | inr (inr (b, rest, found)) ↦
        let (body, e, f) = subst (Takes l ls) found (find_block-Takes l ls) in
        let size : length body + length rest ≡ length ls =
          sym (length-append body rest) ∙ ap length f in
        rw (filled, parse_lines, found)
          (subst (λ t. IsParsed t (parse_lines fuel rest [] (flush_para blocks para ++ b ∷ [])))
            (closed blocks para b rest (ap (λ t. t ++ rest) e ∙ ap (λ t. l ∷ t) f))
            (parse_lines-IsParsed fuel rest [] (flush_para blocks para ++ b ∷ []) (omega arith)))
  ]
]

-- The parser ends for every text. Unless it crashes, which it does only at a line that looks like an
-- ordered item and ends after the dot, the lines of its blocks are the lines of the text in order, but
-- for blank ones.
pub parse_lines-Lossless : (ls : List Text) → IsParsed ls (parse_lines (length ls) ls [] [])
unfolding lines_of
parse_lines-Lossless ls = parse_lines-IsParsed (length ls) ls [] [] (omega arith)
