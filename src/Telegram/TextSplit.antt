-- ===== src/Telegram/TextSplit.antt =====
-- internal/platform/telegram/outbound.go: splitting a text that is too long for one message. Offsets
-- and lengths of entities are natural numbers, in characters of the text as in the source.
pub mod Lossless
use sakura_nexus.Base.{
  ℕ, zero, suc, ◌+◌, ◌-◌, Bool, true, false, ◌&&◌, ◌||◌, Option, none, some, List, [], ◌∷◌, ◌++◌,
  if◌then◌else◌, ltb, leb, length, take, drop, min, max,
}
use sakura_nexus.Base.Text.{Text}
use sakura_nexus.Domain.{Entity}

pub record TextSegment : Type 0 where
  pub body : Text
  pub entities : List Entity

abbrev pub telegram_message_limit : ℕ
telegram_message_limit = 4096

-- The greatest end of an entity in `(start, stop]`; 0, which no such end is, stands for the -1 of the
-- source.
unfoldable pub last_boundary : List Entity → ℕ → ℕ → ℕ → ℕ
last_boundary [] start stop best = best
last_boundary (e ∷ es) start stop best =
    let b = e.offset + e.length in
    last_boundary es start stop (if ltb start b && leb b stop then max best b else best)

-- Where the segment from `start` on ends, in a text of `size` characters.
unfoldable pub segment_end : ℕ → ℕ → List Entity → ℕ → ℕ
unfolding last_boundary
segment_end limit size es start =
    let stop = start + limit in
    let b = last_boundary es start stop 0 in
    if leb size stop then size else if ltb start b then b else stop

-- The part of an entity in a segment, counted from its start.
unfoldable pub clip : ℕ → ℕ → Entity → Option Entity
clip start stop e =
    let s = e.offset in
    let en = e.offset + e.length in
    if leb en start || leb stop s
    then none
    else some (record e { offset = max s start - start; length = min en stop - max s start })

unfoldable pub clip_all : ℕ → ℕ → List Entity → List Entity
unfolding clip
clip_all start stop [] = []
clip_all start stop (e ∷ es) = elim (clip start stop e) [
  | none ↦ clip_all start stop es
  | some c ↦ c ∷ clip_all start stop es
]

-- The loop over the segments: `none` when the fuel is spent.
unfoldable pub split_loop : ℕ → ℕ → Text → List Entity → ℕ → Option (List TextSegment)
unfolding segment_end clip_all
split_loop zero limit runes es start = if ltb start (length runes) then none else some []
split_loop (suc fuel) limit runes es start =
    let stop = segment_end limit (length runes) es start in
    let segment : TextSegment = record {
      body = take (stop - start) (drop start runes);
      entities = clip_all start stop es;
    } in
    let rest = split_loop fuel limit runes es stop in
    if ltb start (length runes)
    then elim rest [ none ↦ none | some segs ↦ some (segment ∷ segs) ]
    else some []

-- One round for a character is enough while the limit is not 0.
unfoldable pub split_long_text : Text → List Entity → ℕ → Option (List TextSegment)
unfolding split_loop
split_long_text body es limit =
    if leb (length body) limit
    then some (record { body = body; entities = es } ∷ [])
    else split_loop (length body) limit body es 0
