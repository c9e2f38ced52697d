-- ===== src/Telegram/RichSplit/Chunks.antt =====
-- The loop over the lines of an oversized block (internal/platform/telegram/rich_split.go).
use sakura_nexus.Base.{
  ℕ, suc, ◌+◌, ◌≤◌, ◌≡◌, refl, sym, ap, subst, inl, inr, ◌∙◌, Bool, ◌||◌, List, [], ◌∷◌, ◌++◌,
  append_assoc, append-nil, ltb, length, length-append, arith, Bool-cases, All, All-append,
}
use sakura_nexus.Base.Text.{Text, join}
use sakura_nexus.Telegram.RichSplit.{parts, unsendable, newline, emit_chunk, chunk_lines}

unfoldable pub flatten : List (List Text) → List Text
flatten [] = []
flatten (c ∷ cs) = c ++ flatten cs

flatten-snoc : (cs : List (List Text)) (c : List Text) → flatten (cs ++ c ∷ []) ≡ flatten cs ++ c
unfolding flatten
flatten-snoc [] c = append-nil c
flatten-snoc (x ∷ cs) c = rw (flatten-snoc cs c, append_assoc) refl

pub length-join_snoc :
    (sep : Text) (c : Text) (cs : List Text) (line : Text)
    → length (join sep (c ∷ cs ++ line ∷ []))
      ≡ length (join sep (c ∷ cs)) + (length sep + length line)
unfolding join
length-join_snoc sep c [] line = rw (length-append c, length-append sep) refl
length-join_snoc sep c (d ∷ cs) line =
    let h = length-join_snoc sep d cs line in
    let a = length-append c (sep ++ join sep (d ∷ cs ++ line ∷ [])) in
    let a' = length-append sep (join sep (d ∷ cs ++ line ∷ [])) in
    let b = length-append c (sep ++ join sep (d ∷ cs)) in
    let b' = length-append sep (join sep (d ∷ cs)) in omega arith

-- A chunk that fits the budget.
abbrev pub IsChunk : ℕ → List Text → Type 0
IsChunk budget c = length (join newline c) ≤ budget

emit_chunk-All :
    (budget : ℕ) (cs : List (List Text)) (c : List Text)
    → All (IsChunk budget) cs
    → IsChunk budget c
    → All (IsChunk budget) (emit_chunk cs c)
unfolding emit_chunk
emit_chunk-All budget cs [] h k = h
emit_chunk-All budget cs (line ∷ c) h k = All-append (IsChunk budget) cs ((line ∷ c) ∷ []) h (k, tt)

flatten-emit_chunk :
    (cs : List (List Text)) (c : List Text) → flatten (emit_chunk cs c) ≡ flatten cs ++ c
unfolding emit_chunk
flatten-emit_chunk cs [] = sym (append-nil (flatten cs))
flatten-emit_chunk cs (line ∷ c) = flatten-snoc cs (line ∷ c)

not_parts : {A : Type 0} {x : A} → unsendable ≡ parts x → ⊥
not_parts h = ground (arith, h)

-- One line more: it joins the chunk or begins the next one.
abbrev Result : ℕ → List Text → List (List Text) → List Text → List (List Text) → Type 0
Result budget lines cs c out = (flatten out ≡ flatten cs ++ (c ++ lines)) × All (IsChunk budget) out

join_chunk :
    (budget : ℕ) (line : Text) (lines : List Text) (cs : List (List Text)) (c : List Text)
    (out : List (List Text))
    → Result budget lines cs (c ++ line ∷ []) out
    → Result budget (line ∷ lines) cs c out
join_chunk budget line lines cs c out (e, h) =
    (e ∙ ap (λ xs. flatten cs ++ xs) (append_assoc c (line ∷ []) lines), h)

next_chunk :
    (budget : ℕ) (line : Text) (lines : List Text) (cs : List (List Text)) (c : List Text)
    (out : List (List Text))
    → Result budget lines (emit_chunk cs c) (line ∷ []) out
    → Result budget (line ∷ lines) cs c out
next_chunk budget line lines cs c out (e, h) = (
  e
      ∙ (ap (λ xs. xs ++ line ∷ lines) (flatten-emit_chunk cs c)
          ∙ append_assoc (flatten cs) c (line ∷ lines)),
  h,
)

first_size :
    (line : Text) (size : ℕ)
    → length (join newline []) ≡ size
    → length (join newline (line ∷ [])) ≡ size + length line
unfolding join
first_size line size e = omega arith

first_fits :
    (line : Text) (size budget : ℕ)
    → length (join newline []) ≡ size
    → length line ≤ budget
    → size + length line ≤ budget
unfolding join
first_fits line size budget e h = omega arith

single_size : (line : Text) → length (join newline (line ∷ [])) ≡ length line
unfolding join
single_size line = refl

-- The chunks hold the lines of the loop, and they fit the budget.
pub chunk_lines_lem :
    (budget : ℕ) (is_full : ℕ → Bool) (lines : List Text) (cs : List (List Text)) (c : List Text)
    (size : ℕ) (out : List (List Text))
    → All (IsChunk budget) cs
    → length (join newline c) ≡ size
    → size ≤ budget
    → chunk_lines budget is_full lines cs c size ≡ parts out
    → (flatten out ≡ flatten cs ++ (c ++ lines)) × All (IsChunk budget) out
unfolding chunk_lines
chunk_lines_lem budget is_full [] cs c size out h e k r =
    let fits : IsChunk budget c = omega arith in
    let same : emit_chunk cs c ≡ out = cc in
    (
      ap flatten (sym same)
          ∙ (flatten-emit_chunk cs c ∙ ap (λ xs. flatten cs ++ xs) (sym (append-nil c))),
      subst (All (IsChunk budget)) same (emit_chunk-All budget cs c h fits),
    )
chunk_lines_lem budget is_full (line ∷ lines) cs [] size out h e k r =
    elim (Bool-cases (ltb budget (length line))) [
      | inl over ↦ absurd (not_parts (rw (over, chunk_lines) at r))
      | inr fits ↦ join_chunk budget line lines cs [] out (
          chunk_lines_lem budget is_full lines cs (line ∷ []) (size + length line) out h
            (first_size line size e) (first_fits line size budget e (ground arith))
            (rw (fits, chunk_lines) at r))
    ]
chunk_lines_lem budget is_full (line ∷ lines) cs (d ∷ c) size out h e k r =
    let more = ltb budget (size + (length line + 1)) || is_full (suc (length c)) in
    elim (Bool-cases (ltb budget (length line))) [
      | inl over ↦ absurd (not_parts (rw (over, chunk_lines) at r))
      | inr fits ↦ elim (Bool-cases more) [
        | inl cut ↦ next_chunk budget line lines cs (d ∷ c) out (
            chunk_lines_lem budget is_full lines (emit_chunk cs (d ∷ c)) (line ∷ []) (length line)
              out (emit_chunk-All budget cs (d ∷ c) h (omega arith)) (single_size line)
              (ground arith) (rw (fits, cut, chunk_lines) at r))
        | inr stay ↦ join_chunk budget line lines cs (d ∷ c) out (
            chunk_lines_lem budget is_full lines cs (d ∷ c ++ line ∷ []) (size + (length line + 1))
              out h (let g = length-join_snoc newline d c line in omega arith) (ground arith)
              (rw (fits, stay, chunk_lines) at r))
      ]
    ]
