-- ===== src/Forwarding/Cursor.antt =====
-- internal/forwarding/cursor.go: the contiguous cursor of one forwarding rule. The map
-- `unresolved` is a list used as a set; message ids are natural numbers, since every id that
-- Telegram gives is positive and the tracker only compares them.
pub mod Loops
pub mod Terminal
pub mod Trace
use sakura_nexus.Base.{
  ℕ, Bool, true, false, Option, none, some, List, [], ◌∷◌, ltb, leb, ◌==◌, if◌then◌else◌, contains,
  insert, delete, length, ◌||◌,
}

pub record CursorTracker : Type 0 where
  pub cursor : ℕ
  pub unresolved : List ℕ
  pub terminals : List ℕ

unfoldable pub new_cursor_tracker : ℕ → CursorTracker
new_cursor_tracker start = record { cursor = start; unresolved = []; terminals = [] }

unfoldable pub observe : CursorTracker → ℕ → CursorTracker
observe t id = if leb id t.cursor then t else record t { unresolved = insert id t.unresolved }

-- the ascending insertion that drops a duplicate
unfoldable pub insert_terminal : ℕ → List ℕ → List ℕ
insert_terminal id [] = id ∷ []
insert_terminal id (t ∷ ts) =
    let later = insert_terminal id ts in
    if ltb t id then t ∷ later else if t == id then t ∷ ts else id ∷ t ∷ ts

-- the loop over the map that finds `minUn`; `none` is `!hasUn`
unfoldable pub min_unresolved : Option ℕ → List ℕ → Option ℕ
min_unresolved least [] = least
min_unresolved none (u ∷ us) = min_unresolved (some u) us
min_unresolved (some m) (u ∷ us) = min_unresolved (some (if ltb u m then u else m)) us

-- `!hasUn || terminals[0] < minUn`
unfoldable pub below_min : Option ℕ → ℕ → Bool
below_min none t = true
below_min (some m) t = ltb t m

-- the loop that pops the terminals below `minUn`: cursor, terminals, advanced
unfoldable pub pop_terminals : Option ℕ → ℕ → List ℕ → Bool → ℕ × List ℕ × Bool
pop_terminals least cursor [] advanced = (cursor, [], advanced)
pop_terminals least cursor (t ∷ ts) advanced =
    let rest = pop_terminals least t ts true in
    if below_min least t then rest else (cursor, t ∷ ts, advanced)

-- The tracker after the call and the two results.
unfoldable pub terminal : CursorTracker → ℕ → CursorTracker × (ℕ × Bool)
terminal t id =
    if leb id t.cursor
    then (t, (t.cursor, false))
    else (let unresolved' = delete id t.unresolved in
        let (cursor', terminals', advanced) =
          pop_terminals (min_unresolved none unresolved') t.cursor (insert_terminal id t.terminals)
            false in
        (
          record { cursor = cursor'; unresolved = unresolved'; terminals = terminals' },
          (cursor', advanced),
        ))

unfoldable pub current : CursorTracker → ℕ
current t = t.cursor

unfoldable pub pending : CursorTracker → ℕ
pending t = length t.unresolved
