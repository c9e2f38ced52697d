-- ===== src/Telegram/RichSplit/Parts.antt =====
-- What an oversized block is split into is within the limit of characters
-- (internal/platform/telegram/rich_split.go).
use sakura_nexus.Base.{
  ℕ, ◌+◌, ◌-◌, ◌≤◌, ◌≡◌, inl, inr, refl, subst, Bool, false, List, [], ◌∷◌, ◌++◌, map, ◌==◌, ltb,
  length, length-append, take, arith, Bool-cases, All,
}
use sakura_nexus.Base.Text.{Text, join, trim_prefix}
use sakura_nexus.Telegram.RichBlock.{
  RichBlock, RichBlockKind, heading, paragraph, list_item, table, code, quote, formula, footnote,
  media, split_lines, trim_space, is_pipe_divider,
}
use sakura_nexus.Telegram.RichSplit.{
  Outcome, parts, unsendable, panicked, newline, chunk_lines, as_blocks, but_last, last_line,
  max_rich_chars, max_rich_blocks, wrap_fence, split_fenced_lines, split_fenced_block, wrap_lines,
  split_line_block, data_rows, wrap_pipe, wrap_html, split_rows, split_html_lines,
  split_table_lines, split_table_block, split_by_kind, split_oversized_block, never_full,
}
use sakura_nexus.Telegram.RichSplit.Chunks.{IsChunk, chunk_lines_lem}

abbrev pub IsSmall : RichBlock → Type 0
IsSmall b = length b.content ≤ max_rich_chars

wrapped-All :
    {P : List Text → Type 0} (wrap : List Text → RichBlock) (cs : List (List Text))
    → ((c : List Text) → P c → IsSmall (wrap c))
    → All P cs
    → All IsSmall (map wrap cs)
wrapped-All wrap [] f h = tt
wrapped-All wrap (c ∷ cs) f h = (f c h.0, wrapped-All wrap cs f h.1)

pub not_unsendable : {A : Type 0} {x : A} → unsendable ≡ parts x → ⊥
not_unsendable h = ground (arith, h)

pub not_panicked : {A : Type 0} {x : A} → panicked ≡ parts x → ⊥
not_panicked h = ground (arith, h)

no_lines : length (join newline []) ≡ 0
unfolding join
no_lines = refl

-- The parts of a block are small where its chunks are small once they are wrapped.
as_blocks-IsSmall :
    (budget : ℕ) (is_full : ℕ → Bool) (lines : List Text) (wrap : List Text → RichBlock)
    (out : List RichBlock)
    → ((c : List Text) → IsChunk budget c → IsSmall (wrap c))
    → as_blocks wrap (chunk_lines budget is_full lines [] [] 0) ≡ parts out
    → All IsSmall out
as_blocks-IsSmall budget is_full lines wrap out f =
    by_outcome (chunk_lines budget is_full lines [] [] 0) refl
  where
    by_outcome :
        (o : Outcome (List (List Text)))
        → chunk_lines budget is_full lines [] [] 0 ≡ o
        → as_blocks wrap o ≡ parts out
        → All IsSmall out
    by_outcome unsendable e h = absurd (not_unsendable h)
    by_outcome panicked e h = absurd (not_panicked h)
    by_outcome (parts cs) e h =
        let same : map wrap cs ≡ out = cc in
        subst (All IsSmall) same (
          wrapped-All wrap cs f
            (chunk_lines_lem budget is_full lines [] [] 0 cs tt no_lines (omega arith) e).1)

wrap_lines-IsSmall :
    (b : RichBlock) (c : List Text) → IsChunk max_rich_chars c → IsSmall (wrap_lines b c)
unfolding wrap_lines
wrap_lines-IsSmall b c h = h

pub split_line_block-IsSmall :
    (b : RichBlock) (out : List RichBlock) → split_line_block b ≡ parts out → All IsSmall out
unfolding split_line_block
split_line_block-IsSmall b out =
    as_blocks-IsSmall max_rich_chars never_full (split_lines b.content) (wrap_lines b) out
      (wrap_lines-IsSmall b)

-- a text between two others, each on lines of its own
between :
    (a b : Text) (x : Text)
    → length (a ++ (newline ++ (x ++ (newline ++ b)))) ≡ length a + (length x + (length b + 2))
between a b x =
    let h1 = length-append a (newline ++ (x ++ (newline ++ b))) in
    let h2 = length-append x (newline ++ b) in omega arith

before :
    (a b : Text) (x : Text)
    → length (a ++ (newline ++ (b ++ (newline ++ x)))) ≡ length a + (length x + (length b + 2))
before a b x =
    let h1 = length-append a (newline ++ (b ++ (newline ++ x))) in
    let h2 = length-append b (newline ++ x) in omega arith

wrap_fence-IsSmall :
    (kind : RichBlockKind) (open_full mark : Text) (c : List Text)
    → (max_rich_chars - length open_full - length mark - 2 == 0) ≡ false
    → IsChunk (max_rich_chars - length open_full - length mark - 2) c
    → IsSmall (wrap_fence kind open_full mark c)
unfolding wrap_fence
wrap_fence-IsSmall kind open_full mark c h k =
    let e = between open_full mark (join newline c) in ground arith

split_fenced_lines-IsSmall :
    (kind : RichBlockKind) (lines : List Text) (out : List RichBlock)
    → split_fenced_lines kind lines ≡ parts out
    → All IsSmall out
unfolding split_fenced_lines
split_fenced_lines-IsSmall kind [] out h = absurd (not_panicked h)
split_fenced_lines-IsSmall kind (opener ∷ []) out h = absurd (not_panicked h)
split_fenced_lines-IsSmall kind (opener ∷ line ∷ lines) out h =
    let mark = take 3 opener in
    let open_full = mark ++ trim_space (trim_prefix opener mark) in
    let budget = max_rich_chars - length open_full - length mark - 2 in
    elim (Bool-cases (budget == 0)) [
      | inl none_left ↦ absurd (not_unsendable (rw (none_left, split_fenced_lines) at h))
      | inr some_left ↦
          as_blocks-IsSmall budget never_full (but_last (line ∷ lines))
            (wrap_fence kind open_full mark) out
            (λ c k. wrap_fence-IsSmall kind open_full mark c some_left k)
            (rw (some_left, split_fenced_lines) at h)
    ]

split_rows-IsSmall :
    (cap : ℕ) (a b : Text) (wrap : List Text → RichBlock) (rows : List Text) (out : List RichBlock)
    → ((c : List Text)
        → length (wrap c).content ≡ length a + (length (join newline c) + (length b + 2)))
    → split_rows cap a b wrap rows ≡ parts out
    → All IsSmall out
unfolding split_rows
split_rows-IsSmall cap a b wrap rows out f h =
    let budget = max_rich_chars - (length a + length b + 2) in
    elim (Bool-cases (budget == 0)) [
      | inl none_left ↦ absurd (not_unsendable (rw (none_left, split_rows) at h))
      | inr some_left ↦
          as_blocks-IsSmall budget (λ n. ltb cap (n + 1)) (data_rows rows) wrap out
            (λ c k. let e = f c in ground (arith, some_left)) (rw (some_left, split_rows) at h)
    ]

split_html_lines-IsSmall :
    (cols : ℕ) (line second : Text) (lines : List Text) (out : List RichBlock)
    → split_html_lines cols line second lines ≡ parts out
    → All IsSmall out
unfolding split_html_lines wrap_html
split_html_lines-IsSmall cols line second [] out h = absurd (not_unsendable h)
split_html_lines-IsSmall cols line second (third ∷ more) out h =
    let close = last_line (third ∷ more) in
    split_rows-IsSmall max_rich_blocks line close (wrap_html cols line close)
      (second ∷ but_last (third ∷ more)) out (λ c. between line close (join newline c)) h

wrap_pipe-size :
    (cols : ℕ) (a b : Text) (c : List Text)
    → length (wrap_pipe cols a b c).content ≡ length a + (length (join newline c) + (length b + 2))
unfolding wrap_pipe
wrap_pipe-size cols a b c = before a b (join newline c)

split_table_lines-IsSmall :
    (cols : ℕ) (lines : List Text) (out : List RichBlock)
    → split_table_lines cols lines ≡ parts out
    → All IsSmall out
unfolding split_table_lines
split_table_lines-IsSmall cols [] out h = absurd (not_unsendable h)
split_table_lines-IsSmall cols (line ∷ []) out h = absurd (not_unsendable h)
split_table_lines-IsSmall cols (line ∷ second ∷ lines) out h =
    elim (Bool-cases (is_pipe_divider second)) [
      | inl pipe ↦
          split_rows-IsSmall (max_rich_blocks - 1) line second (wrap_pipe cols line second) lines
            out (wrap_pipe-size cols line second) (rw (pipe, split_table_lines) at h)
      | inr html ↦
          split_html_lines-IsSmall cols line second lines out (rw (html, split_table_lines) at h)
    ]

split_by_kind-IsSmall :
    (kind : RichBlockKind) (b : RichBlock) (out : List RichBlock)
    → split_by_kind kind b ≡ parts out
    → All IsSmall out
unfolding split_by_kind split_fenced_block split_table_block
split_by_kind-IsSmall code b out h = split_fenced_lines-IsSmall b.kind (split_lines b.content) out h
split_by_kind-IsSmall formula b out h =
    split_fenced_lines-IsSmall b.kind (split_lines b.content) out h
split_by_kind-IsSmall table b out h = split_table_lines-IsSmall b.cols (split_lines b.content) out h
split_by_kind-IsSmall paragraph b out h = split_line_block-IsSmall b out h
split_by_kind-IsSmall quote b out h = split_line_block-IsSmall b out h
split_by_kind-IsSmall list_item b out h = split_line_block-IsSmall b out h
split_by_kind-IsSmall footnote b out h = split_line_block-IsSmall b out h
split_by_kind-IsSmall heading b out h = absurd (not_unsendable h)
split_by_kind-IsSmall media b out h = absurd (not_unsendable h)

-- What an oversized block is split into is within the limit.
pub split_oversized_block-IsSmall :
    (b : RichBlock) (out : List RichBlock) → split_oversized_block b ≡ parts out → All IsSmall out
unfolding split_oversized_block
split_oversized_block-IsSmall b out = split_by_kind-IsSmall b.kind b out
