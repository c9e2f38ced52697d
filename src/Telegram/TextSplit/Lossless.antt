-- ===== src/Telegram/TextSplit/Lossless.antt =====
-- Splitting a long text ends, keeps the text, and respects the limit
-- (internal/platform/telegram/outbound.go).
use sakura_nexus.Base.{
  ℕ, zero, suc, ◌+◌, ◌-◌, ◌<◌, ◌≤◌, ◌≡◌, refl, sym, ap, ◌∙◌, false, ◌&&◌, Option, some, List, [],
  ◌∷◌, ◌++◌, if◌then◌else◌, ltb, leb, length, append-nil, take, drop, max, All, arith, Bool-cases,
  Option-cases, inl, inr, leb→le,
}
use sakura_nexus.Base.Text.{Text}
use sakura_nexus.Domain.{Entity}
use sakura_nexus.Telegram.TextSplit.{
  TextSegment, last_boundary, segment_end, clip, clip_all, split_loop, split_long_text,
}

-- The entity lies in a text of `n` characters.
abbrev pub IsWithin : ℕ → Entity → Type 0
IsWithin n e = e.offset + e.length ≤ n

-- A segment that fits the limit and holds its entities.
abbrev pub IsSegment : ℕ → TextSegment → Type 0
IsSegment limit s = (length s.body ≤ limit) × All (IsWithin (length s.body)) s.entities

unfoldable pub bodies : List TextSegment → Text
bodies [] = []
bodies (s ∷ segs) = s.body ++ bodies segs

last_boundary-le :
    (es : List Entity) (start stop best : ℕ) → best ≤ stop → last_boundary es start stop best ≤ stop
unfolding last_boundary
last_boundary-le [] start stop best h = h
last_boundary-le (e ∷ es) start stop best h =
    last_boundary-le es start stop
      (if ltb start (e.offset + e.length) && leb (e.offset + e.length) stop
        then max best (e.offset + e.length)
        else best)
      (ground arith)

segment_end-bounds :
    (limit size : ℕ) (es : List Entity) (start : ℕ)
    → 0 < limit
    → start < size
    → (start < segment_end limit size es start)
      × (segment_end limit size es start ≤ size)
      × (segment_end limit size es start ≤ start + limit)
unfolding segment_end
segment_end-bounds limit size es start pos h =
    let k = last_boundary-le es start (start + limit) 0 (omega arith) in
    (ground (arith, k), ground (arith, k), ground (arith, k))

length-drop : (n : ℕ) (xs : Text) → length (drop n xs) ≡ length xs - n
length-drop zero xs = omega arith
length-drop (suc n) [] = omega arith
length-drop (suc n) (x ∷ xs) = let h = length-drop n xs in omega arith

length-take : (n : ℕ) (xs : Text) → n ≤ length xs → length (take n xs) ≡ n
length-take zero xs h = refl
length-take (suc n) [] h = omega arith
length-take (suc n) (x ∷ xs) h = let k = length-take n xs (omega arith) in omega arith

take-drop : (n : ℕ) (xs : Text) → take n xs ++ drop n xs ≡ xs
take-drop zero xs = refl
take-drop (suc n) [] = refl
take-drop (suc n) (x ∷ xs) = ap (λ r. x ∷ r) (take-drop n xs)

drop_nil : (n : ℕ) → drop {A = ℕ} n [] ≡ []
drop_nil zero = refl
drop_nil (suc n) = refl

drop-drop : (n m k : ℕ) (xs : Text) → m + n ≡ k → drop n (drop m xs) ≡ drop k xs
drop-drop n zero k xs e = let e' : n ≡ k = omega arith in ap (λ i. drop i xs) e'
drop-drop n (suc m) zero xs e = absurd (omega arith)
drop-drop n (suc m) (suc k) [] e = drop_nil n
drop-drop n (suc m) (suc k) (x ∷ xs) e = drop-drop n m k xs (omega arith)

clip-IsWithin :
    (start stop : ℕ) (e c : Entity)
    → start < stop
    → clip start stop e ≡ some c
    → IsWithin (stop - start) c
unfolding clip
clip-IsWithin start stop e c h k = ground (arith, k)

clip_all-IsWithin :
    (start stop : ℕ) (es : List Entity)
    → start < stop
    → All (IsWithin (stop - start)) (clip_all start stop es)
unfolding clip_all
clip_all-IsWithin start stop [] h = tt
clip_all-IsWithin start stop (e ∷ es) h = elim (Option-cases (clip start stop e)) [
  | inl outside ↦ rw (outside, clip_all) (clip_all-IsWithin start stop es h)
  | inr (c, inside) ↦
      rw (inside, clip_all)
        (clip-IsWithin start stop e c h inside, clip_all-IsWithin start stop es h)
]

-- What the loop returns from `start` on.
record Splits (limit : ℕ) (runes : Text) (start : ℕ) (r : Option (List TextSegment)) : Type 0 where
  segments : List TextSegment
  returned : r ≡ some segments
  kept : bodies segments ≡ drop start runes
  fit : All (IsSegment limit) segments

drop_all : (n : ℕ) (xs : Text) → length xs ≤ n → drop n xs ≡ []
drop_all n [] h = drop_nil n
drop_all zero (x ∷ xs) h = absurd (omega arith)
drop_all (suc n) (x ∷ xs) h = drop_all n xs (omega arith)

split_loop-Splits :
    (fuel limit : ℕ) (runes : Text) (es : List Entity) (start : ℕ)
    → 0 < limit
    → length runes ≤ start + fuel
    → Splits limit runes start (split_loop fuel limit runes es start)
unfolding split_loop bodies
split_loop-Splits zero limit runes es start pos h =
    let over : ltb start (length runes) ≡ false = ground arith in
    record {
      segments = [];
      returned = rw (over, split_loop) refl;
      kept = sym (drop_all start runes (omega arith));
      fit = tt;
    }
split_loop-Splits (suc fuel) limit runes es start pos h =
    elim (Bool-cases (ltb start (length runes))) [
      | inr over ↦ record {
        segments = [];
        returned = rw (over, split_loop) refl;
        kept = sym (drop_all start runes (ground (arith, over)));
        fit = tt;
      }
      | inl more ↦
          let stop = segment_end limit (length runes) es start in
          let inside : start < length runes = ground (arith, more) in
          let (b0, b1, b2) = segment_end-bounds limit (length runes) es start pos inside in
          let rest = split_loop-Splits fuel limit runes es stop pos (omega arith) in
          let size : length (take (stop - start) (drop start runes)) ≡ stop - start =
            length-take (stop - start) (drop start runes)
              (let l = length-drop start runes in omega arith) in
          record {
            segments =
                record {
                  body = take (stop - start) (drop start runes);
                  entities = clip_all start stop es;
                }
                ∷ rest.segments;
            returned = rw (more, rest.returned, split_loop) refl;
            kept =
                ap (λ r. take (stop - start) (drop start runes) ++ r)
                  (rest.kept ∙ sym (drop-drop (stop - start) start stop runes (omega arith)))
                ∙ take-drop (stop - start) (drop start runes);
            fit = ((omega arith, rw size (clip_all-IsWithin start stop es b0)), rest.fit);
          }
    ]

-- Splitting a text ends for every limit but 0. Its segments are together the text, none is longer than
-- the limit, and where the entities lie in the text those of a segment lie in the segment.
pub split_long_text-lossless :
    (body : Text) (es : List Entity) (limit : ℕ)
    → 0 < limit
    → All (IsWithin (length body)) es
    → (segs : List TextSegment) × (split_long_text body es limit ≡ some segs)
      × (bodies segs ≡ body)
      × All (IsSegment limit) segs
unfolding split_long_text bodies
split_long_text-lossless body es limit pos h = elim (Bool-cases (leb (length body) limit)) [
  | inl short ↦ (
    record { body = body; entities = es } ∷ [],
    rw (short, split_long_text) refl,
    append-nil body,
    ((leb→le (length body) limit short, h), tt),
  )
  | inr long ↦
      let r = split_loop-Splits (length body) limit body es 0 pos (omega arith) in
      (r.segments, rw (long, split_long_text) r.returned, r.kept, r.fit)
]
