-- ===== src/Telegram/RichSplit/Rejoin.antt =====
-- Joining the parts of an oversized block of lines again (internal/platform/telegram/rich_split.go,
-- `splitLineBlock`).
use sakura_nexus.Base.{
  ℕ, suc, ◌+◌, ◌≡◌, ◌≢◌, inl, inr, refl, sym, ap, subst, ◌∙◌, Bool, ◌||◌, List, [], ◌∷◌, ◌++◌, map,
  append_assoc, append-nil, ltb, length, arith, Bool-cases, All, All-append, ◌==◌, ==→eq,
}
use sakura_nexus.Base.Text.{Text, join}
use sakura_nexus.Telegram.RichBlock.{RichBlock, split_lines}
use sakura_nexus.Telegram.RichSplit.{
  Outcome, parts, unsendable, panicked, newline, emit_chunk, chunk_lines, as_blocks, wrap_lines,
  split_line_block, never_full, max_rich_chars,
}
use sakura_nexus.Telegram.RichSplit.Chunks.{flatten, chunk_lines_lem}
use sakura_nexus.Telegram.RichSplit.Parts.{
  IsSmall, not_unsendable, not_panicked, split_line_block-IsSmall,
}

-- A chunk with a line.
abbrev HasLine : List Text → Type 0
HasLine c = c ≢ []

cons-HasLine : (line : Text) (c : List Text) → HasLine (line ∷ c)
cons-HasLine line c e = ground (arith, e)

emit_chunk-HasLine :
    (cs : List (List Text)) (c : List Text) → All HasLine cs → All HasLine (emit_chunk cs c)
unfolding emit_chunk
emit_chunk-HasLine cs [] h = h
emit_chunk-HasLine cs (line ∷ c) h =
    All-append HasLine cs ((line ∷ c) ∷ []) h (cons-HasLine line c, tt)

chunk_lines-HasLine :
    (budget : ℕ) (is_full : ℕ → Bool) (lines : List Text) (cs : List (List Text)) (c : List Text)
    (size : ℕ) (out : List (List Text))
    → All HasLine cs
    → chunk_lines budget is_full lines cs c size ≡ parts out
    → All HasLine out
unfolding chunk_lines
chunk_lines-HasLine budget is_full [] cs c size out h r =
    let same : emit_chunk cs c ≡ out = cc in subst (All HasLine) same (emit_chunk-HasLine cs c h)
chunk_lines-HasLine budget is_full (line ∷ lines) cs [] size out h r =
    elim (Bool-cases (ltb budget (length line))) [
      | inl over ↦ absurd (not_unsendable (rw (over, chunk_lines) at r))
      | inr fits ↦
          chunk_lines-HasLine budget is_full lines cs (line ∷ []) (size + length line) out h
            (rw (fits, chunk_lines) at r)
    ]
chunk_lines-HasLine budget is_full (line ∷ lines) cs (d ∷ c) size out h r =
    let more = ltb budget (size + (length line + 1)) || is_full (suc (length c)) in
    elim (Bool-cases (ltb budget (length line))) [
      | inl over ↦ absurd (not_unsendable (rw (over, chunk_lines) at r))
      | inr fits ↦ elim (Bool-cases more) [
        | inl cut ↦
            chunk_lines-HasLine budget is_full lines (emit_chunk cs (d ∷ c)) (line ∷ [])
              (length line) out (emit_chunk-HasLine cs (d ∷ c) h) (rw (fits, cut, chunk_lines) at r)
        | inr stay ↦
            chunk_lines-HasLine budget is_full lines cs (d ∷ c ++ line ∷ [])
              (size + (length line + 1)) out h (rw (fits, stay, chunk_lines) at r)
      ]
    ]

join-append :
    (x : Text) (xs : List Text) (y : Text) (ys : List Text)
    → join newline (x ∷ xs ++ y ∷ ys) ≡ join newline (x ∷ xs) ++ (newline ++ join newline (y ∷ ys))
unfolding join
join-append x [] y ys = refl
join-append x (z ∷ xs) y ys =
    ap (λ t. x ++ (newline ++ t)) (join-append z xs y ys)
    ∙ (sym (append_assoc x (newline ++ join newline (z ∷ xs)) (newline ++ join newline (y ∷ ys))))

join-flatten :
    (cs : List (List Text))
    → All HasLine cs
    → join newline (map (join newline) cs) ≡ join newline (flatten cs)
unfolding join flatten
join-flatten [] h = refl
join-flatten ([] ∷ cs) h = absurd (h.0 refl)
join-flatten ((x ∷ xs) ∷ []) h = ap (join newline) (sym (append-nil (x ∷ xs)))
join-flatten ((x ∷ xs) ∷ [] ∷ cs) h = absurd (h.1.0 refl)
join-flatten ((x ∷ xs) ∷ (y ∷ ys) ∷ cs) h =
    ap (λ t. join newline (x ∷ xs) ++ (newline ++ t)) (join-flatten ((y ∷ ys) ∷ cs) h.1)
    ∙ sym (join-append x xs y (ys ++ flatten cs))

lines-cases : (s : Text) → (line : Text) × (lines : List Text) × (split_lines s ≡ line ∷ lines)
unfolding split_lines
lines-cases [] = ([], [], refl)
lines-cases (c ∷ s) =
    let (line, lines, e) = lines-cases s in
    elim (Bool-cases (c == 10)) [
      | inl breaks ↦ rw (breaks, split_lines, e) ([], line ∷ lines, refl)
      | inr stays ↦ rw (stays, split_lines, e) (c ∷ line, lines, refl)
    ]

join-cons :
    (c : ℕ) (line : Text) (lines : List Text)
    → join newline ((c ∷ line) ∷ lines) ≡ c ∷ join newline (line ∷ lines)
unfolding join
join-cons c line [] = refl
join-cons c line (l ∷ lines) = refl

join-split_lines : (s : Text) → join newline (split_lines s) ≡ s
unfolding split_lines join
join-split_lines [] = refl
join-split_lines (c ∷ s) =
    let (line, lines, e) = lines-cases s in
    let h : join newline (line ∷ lines) ≡ s = rw e at (join-split_lines s) in
    elim (Bool-cases (c == 10)) [
      | inl breaks ↦ rw (breaks, split_lines, e) (rw (h, ==→eq c 10 breaks) refl)
      | inr stays ↦ rw (stays, split_lines, e) (join-cons c line lines ∙ ap (λ t. c ∷ t) h)
    ]

map-wrap_lines :
    (b : RichBlock) (cs : List (List Text))
    → map (λ p. p.content) (map (wrap_lines b) cs) ≡ map (join newline) cs
unfolding wrap_lines
map-wrap_lines b [] = refl
map-wrap_lines b (c ∷ cs) = ap (λ ts. join newline c ∷ ts) (map-wrap_lines b cs)

wrapped_kind :
    (b : RichBlock) (cs : List (List Text)) → All (λ p. p.kind ≡ b.kind) (map (wrap_lines b) cs)
unfolding wrap_lines
wrapped_kind b [] = tt
wrapped_kind b (c ∷ cs) = (refl, wrapped_kind b cs)

no_lines : length (join newline []) ≡ 0
unfolding join
no_lines = refl

-- Where a block of lines (a paragraph, a quote, a list item or a footnote) is split, its parts
-- are of its kind and within the limit of characters, and their contents joined by line breaks are its
-- content: no line is lost, doubled or moved.
pub split_line_block-lossless :
    (b : RichBlock) (out : List RichBlock)
    → split_line_block b ≡ parts out
    → (join newline (map (λ p. p.content) out) ≡ b.content)
      × All (λ p. p.kind ≡ b.kind) out
      × All IsSmall out
unfolding split_line_block flatten
split_line_block-lossless b out r =
    let (whole, kinds) =
      by_outcome (chunk_lines max_rich_chars never_full (split_lines b.content) [] [] 0) refl r in
    (whole, kinds, split_line_block-IsSmall b out r)
  where
    by_outcome :
        (o : Outcome (List (List Text)))
        → chunk_lines max_rich_chars never_full (split_lines b.content) [] [] 0 ≡ o
        → as_blocks (wrap_lines b) o ≡ parts out
        → (join newline (map (λ p. p.content) out) ≡ b.content) × All (λ p. p.kind ≡ b.kind) out
    by_outcome unsendable e h = absurd (not_unsendable h)
    by_outcome panicked e h = absurd (not_panicked h)
    by_outcome (parts cs) e h =
        let same : map (wrap_lines b) cs ≡ out = cc in
        let whole =
          (chunk_lines_lem max_rich_chars never_full (split_lines b.content) [] [] 0 cs tt no_lines
            (omega arith) e).0 in
        let full =
          chunk_lines-HasLine max_rich_chars never_full (split_lines b.content) [] [] 0 cs tt e in
        let joined : join newline (map (λ p. p.content) (map (wrap_lines b) cs)) ≡ b.content =
          ap (join newline) (map-wrap_lines b cs)
          ∙ (join-flatten cs full ∙ (ap (join newline) whole ∙ join-split_lines b.content)) in
        (
          subst (λ ps. join newline (map (λ p. p.content) ps) ≡ b.content) same joined,
          subst (All (λ p. p.kind ≡ b.kind)) same (wrapped_kind b cs),
        )
