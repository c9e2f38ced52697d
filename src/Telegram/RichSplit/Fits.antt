-- ===== src/Telegram/RichSplit/Fits.antt =====
-- Every message that the splitting of a rich message makes is within the limit of characters
-- (internal/platform/telegram/rich_split.go).
use sakura_nexus.Base.{
  ℕ, ◌+◌, ◌≤◌, ◌≡◌, ◌⊎◌, inl, inr, refl, subst, Bool, true, false, List, [], ◌∷◌, ◌++◌,
  if◌then◌else◌, leb, leb→le, length, arith, Bool-cases, All, All-append,
}
use sakura_nexus.Base.Text.{Text, join, is_empty}
use sakura_nexus.Telegram.RichBlock.{RichBlock}
use sakura_nexus.Telegram.RichSplit.{
  Outcome, parts, unsendable, panicked, has_lines, max_rich_chars, split_oversized_block,
  build_queue, RichMsgAcc, empty_acc, acc_fits, acc_add, acc_emit, flush_acc, assemble, any_broken,
  rich_messages,
}
use sakura_nexus.Telegram.RichSplit.Chunks.{length-join_snoc}
use sakura_nexus.Telegram.RichSplit.Parts.{
  IsSmall, not_unsendable, not_panicked, split_oversized_block-IsSmall,
}

abbrev pub IsSmallText : Text → Type 0
IsSmallText m = length m ≤ max_rich_chars

Outcome-cases :
    {A : Type 0} (o : Outcome A) → ((x : A) × (o ≡ parts x)) ⊎ (o ≡ unsendable) ⊎ (o ≡ panicked)
Outcome-cases (parts x) = inl (x, refl)
Outcome-cases unsendable = inr (inl refl)
Outcome-cases panicked = inr (inr refl)

build_queue-IsSmall :
    (queue blocks out : List RichBlock)
    → All IsSmall queue
    → build_queue queue blocks ≡ parts out
    → All IsSmall out
unfolding build_queue
build_queue-IsSmall queue [] out h e = let same : queue ≡ out = cc in subst (All IsSmall) same h
build_queue-IsSmall queue (b ∷ blocks) out h e =
    elim (Bool-cases (leb (length b.content) max_rich_chars)) [
      | inl small ↦
          build_queue-IsSmall (queue ++ b ∷ []) blocks out
            (All-append IsSmall queue (b ∷ []) h
              (leb→le (length b.content) max_rich_chars small, tt))
            (rw (small, build_queue) at e)
      | inr large ↦ elim (Outcome-cases (split_oversized_block b)) [
        | inl (bs, split) ↦
            build_queue-IsSmall (queue ++ bs) blocks out
              (All-append IsSmall queue bs h (split_oversized_block-IsSmall b bs split))
              (rw (large, split, build_queue) at e)
        | inr (inl fails) ↦ absurd (not_unsendable (rw (large, fails, build_queue) at e))
        | inr (inr panics) ↦ absurd (not_panicked (rw (large, panics, build_queue) at e))
      ]
    ]

-- What the accumulator counts is the length of its message, and that is within the limit.
abbrev IsAcc : RichMsgAcc → Type 0
IsAcc a = (length (acc_emit a) ≡ a.chars) × (a.chars ≤ max_rich_chars)

empty_acc-IsAcc : IsAcc empty_acc
unfolding empty_acc acc_emit join
empty_acc-IsAcc = (refl, omega arith)

add-texts :
    (texts : List Text) (chars : ℕ) (x : Text)
    → length (join (10 ∷ 10 ∷ []) texts) ≡ chars
    → length (join (10 ∷ 10 ∷ []) (texts ++ x ∷ []))
      ≡ chars + ((if has_lines texts then 2 else 0) + length x)
unfolding join
add-texts [] chars x h = omega arith
add-texts (t ∷ texts) chars x h = let k = length-join_snoc (10 ∷ 10 ∷ []) t texts x in omega arith

no_texts : (texts : List Text) → has_lines texts ≡ false → length (join (10 ∷ 10 ∷ []) texts) ≡ 0
unfolding join
no_texts [] h = refl
no_texts (t ∷ texts) h = absurd (true_false h)
  where
    true_false : true ≡ false → ⊥
    true_false k = ground (arith, k)

acc_fits-chars :
    (a : RichMsgAcc) (b : RichBlock)
    → IsAcc a
    → IsSmall b
    → acc_fits a b ≡ true
    → a.chars + ((if has_lines a.texts then 2 else 0) + length b.content) ≤ max_rich_chars
unfolding acc_fits acc_emit
acc_fits-chars a b (e, k) s h = elim (Bool-cases (has_lines a.texts)) [
  | inl more ↦ ground (arith, h, more)
  | inr none_yet ↦ let z = no_texts a.texts none_yet in ground (arith, none_yet)
]

grown-IsAcc :
    (a : RichMsgAcc) (b : RichBlock)
    → IsAcc a
    → a.chars + ((if has_lines a.texts then 2 else 0) + length b.content) ≤ max_rich_chars
    → IsAcc (acc_add a b)
unfolding acc_add acc_emit
grown-IsAcc a b (e, k) h = (add-texts a.texts a.chars b.content e, h)

acc_add-IsAcc :
    (a : RichMsgAcc) (b : RichBlock)
    → IsAcc a
    → IsSmall b
    → IsAcc (acc_add (if acc_fits a b then a else empty_acc) b)
unfolding empty_acc
acc_add-IsAcc a b v s = elim (Bool-cases (acc_fits a b)) [
  | inl fits ↦ simp fits (grown-IsAcc a b v (acc_fits-chars a b v s fits))
  | inr full ↦ simp full (grown-IsAcc empty_acc b empty_acc-IsAcc (alone b s))
]
  where
    alone :
        (b : RichBlock)
        → IsSmall b
        → empty_acc.chars + ((if has_lines empty_acc.texts then 2 else 0) + length b.content)
          ≤ max_rich_chars
    alone b s = omega arith

flush_acc-IsSmall :
    (msgs : List Text) (a : RichMsgAcc)
    → All IsSmallText msgs
    → IsAcc a
    → All IsSmallText (flush_acc msgs a)
unfolding flush_acc
flush_acc-IsSmall msgs a h (e, k) = elim (Bool-cases (is_empty (acc_emit a))) [
  | inl nothing ↦ rw (nothing, flush_acc) h
  | inr message ↦
      rw (message, flush_acc) (All-append IsSmallText msgs (acc_emit a ∷ []) h (omega arith, tt))
]

assemble-IsSmall :
    (msgs : List Text) (a : RichMsgAcc) (queue : List RichBlock)
    → All IsSmallText msgs
    → IsAcc a
    → All IsSmall queue
    → All IsSmallText (assemble msgs a queue)
unfolding assemble
assemble-IsSmall msgs a [] h v q = flush_acc-IsSmall msgs a h v
assemble-IsSmall msgs a (b ∷ queue) h v (s, q) =
    assemble-IsSmall (if acc_fits a b then msgs else flush_acc msgs a)
      (acc_add (if acc_fits a b then a else empty_acc) b) queue (by_case (acc_fits a b))
      (acc_add-IsAcc a b v s) q
  where
    by_case : (c : Bool) → All IsSmallText (if c then msgs else flush_acc msgs a)
    by_case true = h
    by_case false = flush_acc-IsSmall msgs a h v

-- Every message that is made of the blocks of a document is within the limit of characters,
-- whatever the blocks are.
pub rich_messages-IsSmall :
    (blocks : List RichBlock) (msgs : List Text)
    → rich_messages blocks ≡ parts msgs
    → All IsSmallText msgs
unfolding rich_messages
rich_messages-IsSmall [] msgs h = absurd (not_unsendable h)
rich_messages-IsSmall (b ∷ blocks) msgs h = elim (Bool-cases (any_broken (b ∷ blocks))) [
  | inl broken ↦ absurd (not_unsendable (rw (broken, rich_messages) at h))
  | inr sound ↦ elim (Outcome-cases (build_queue [] (b ∷ blocks))) [
    | inl (queue, built) ↦
        let same : parts (assemble [] empty_acc queue) ≡ parts msgs =
          rw (sound, built, rich_messages) at h in
        let same' : assemble [] empty_acc queue ≡ msgs = cc in
        subst (All IsSmallText) same' (
          assemble-IsSmall [] empty_acc queue tt empty_acc-IsAcc
            (build_queue-IsSmall [] (b ∷ blocks) queue tt built))
    | inr (inl fails) ↦ absurd (not_unsendable (rw (sound, fails, rich_messages) at h))
    | inr (inr panics) ↦ absurd (not_panicked (rw (sound, panics, rich_messages) at h))
  ]
]
