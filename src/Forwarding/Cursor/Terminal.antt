-- ===== src/Forwarding/Cursor/Terminal.antt =====
-- One call of `terminal` or `observe` (internal/forwarding/cursor.go): the invariant of a tracker,
-- and the whole effect of finishing a message.
use sakura_nexus.Base.{
  ℕ, ◌≤◌, ◌<◌, ◌≡◌, ◌⊎◌, inl, inr, refl, All, All-imp, All-insert, All-of-insert, All-delete,
  contains, delete, Bool, true, false, Option, none, List, ◌∷◌, Bool-cases, leb, ltb, arith,
}
use sakura_nexus.Forwarding.Cursor.{
  CursorTracker, new_cursor_tracker, observe, terminal, insert_terminal, min_unresolved, below_min,
  pop_terminals,
}
use sakura_nexus.Forwarding.Cursor.Loops.{
  IsAscending, Popped, pop_terminals-Popped, min_unresolved_sound, min_unresolved_complete,
  All-insert_terminal, All-of-insert_terminal, contains-insert_terminal,
  insert_terminal-IsAscending,
}

-- Everything that is held lies above the cursor, the held terminals ascend strictly, and each of
-- them waits for an unresolved id that is not above it.
pub record IsValid (t : CursorTracker) : Type 0 where
  pub unresolved_above : All (λ x. t.cursor < x) t.unresolved
  pub terminals_above : All (λ x. t.cursor < x) t.terminals
  pub ascending : IsAscending t.terminals
  pub blocked : All (λ x. ¬ All (λ u. x < u) t.unresolved) t.terminals

pub new_cursor_tracker-IsValid : (start : ℕ) → IsValid (new_cursor_tracker start)
unfolding new_cursor_tracker
new_cursor_tracker-IsValid start = record {
  unresolved_above = tt;
  terminals_above = tt;
  ascending = tt;
  blocked = tt;
}

pub observe-IsValid : (t : CursorTracker) (id : ℕ) → IsValid t → IsValid (observe t id)
unfolding observe
observe-IsValid t id v = elim (Bool-cases (leb id t.cursor)) [
  | inl e ↦ rw e v
  | inr e ↦ rw e (record {
    unresolved_above = All-insert _ id t.unresolved (ground arith) v.unresolved_above;
    terminals_above = v.terminals_above;
    ascending = v.ascending;
    blocked = All-imp _ _ t.terminals (λ x b a. b (All-of-insert _ id t.unresolved a)) v.blocked;
  })
]

-- The effect of `terminal t id` for an id above the cursor.
pub record Advances (t : CursorTracker) (id : ℕ) (t' : CursorTracker) (advanced : Bool)
    : Type 0 where
  pub forward : t.cursor ≤ t'.cursor
  pub never_passes : All (λ u. t'.cursor < u) t'.unresolved
  pub resolved : t'.unresolved ≡ delete id t.unresolved
  pub reached : (t'.cursor ≡ t.cursor) ⊎ (t'.cursor ≡ id) ⊎ (contains t'.cursor t.terminals ≡ true)
  pub maximal : All (λ x. All (λ u. x < u) t'.unresolved → x ≤ t'.cursor) (id ∷ t.terminals)
  pub kept : All (λ x. (x ≤ t'.cursor) ⊎ (contains x t'.terminals ≡ true)) (id ∷ t.terminals)
  pub bounded :
      (m : ℕ)
      → t.cursor ≤ m
      → All (λ x. x ≤ m) (id ∷ t.terminals)
      → (t'.cursor ≤ m) × All (λ x. x ≤ m) t'.terminals
  pub flag : advanced ≡ ltb t.cursor t'.cursor

module _ (t : CursorTracker) (id : ℕ) (v : IsValid t) (new : t.cursor < id) where
  abbrev rest : List ℕ
  rest = delete id t.unresolved

  abbrev least : Option ℕ
  least = min_unresolved none rest

  popped :
      Popped least t.cursor
        (insert_terminal id t.terminals)
        false
        (pop_terminals least t.cursor (insert_terminal id t.terminals) false)
  popped =
      pop_terminals-Popped least t.cursor (insert_terminal id t.terminals) false
        (All-insert_terminal _ id t.terminals new v.terminals_above)
        (insert_terminal-IsAscending id t.terminals v.ascending)

  never_passes_lem :
      All (λ u. (pop_terminals least t.cursor (insert_terminal id t.terminals) false).0 < u) rest
  never_passes_lem = elim popped.reached [
    | inl same ↦ rw same (All-delete _ id t.unresolved v.unresolved_above)
    | inr here ↦ (min_unresolved_sound none rest _ here.0).1
  ]

  least_of : (x : ℕ) → All (λ u. x < u) rest → below_min least x ≡ true
  unfolding below_min
  least_of x a = min_unresolved_complete none rest x refl a

  terminal-Advances_new : Advances t id (terminal t id).0 (terminal t id).1.1
  unfolding terminal
  terminal-Advances_new = elim (Bool-cases (leb id t.cursor)) [
    | inl e ↦ absurd (ground arith)
    | inr e ↦ rw e (record {
      forward = popped.forward;
      never_passes = never_passes_lem;
      resolved = refl;
      reached = ground (
        arith,
        popped.reached,
        contains-insert_terminal
            (pop_terminals least t.cursor (insert_terminal id t.terminals) false).0 id t.terminals,
      );
      maximal =
          All-imp _ _ (id ∷ t.terminals) (λ x m a. m (least_of x a))
            (All-of-insert_terminal _ id t.terminals popped.maximal);
      kept = All-of-insert_terminal _ id t.terminals popped.kept;
      bounded = λ m h a. popped.bounded m h (All-insert_terminal _ id t.terminals a.0 a.1);
      flag = popped.flag;
    })
  ]

  terminal-IsValid_new : IsValid (terminal t id).0
  unfolding terminal
  terminal-IsValid_new = elim (Bool-cases (leb id t.cursor)) [
    | inl e ↦ rw e v
    | inr e ↦ rw e (record {
      unresolved_above = never_passes_lem;
      terminals_above = popped.above;
      ascending = popped.ascending;
      blocked = All-imp _ _ _ (λ x h a. cc (least_of x a, h)) popped.held;
    })
  ]

-- A replay at or below the cursor changes nothing and does not report progress.
pub terminal_replay :
    (t : CursorTracker) (id : ℕ) → id ≤ t.cursor → terminal t id ≡ (t, (t.cursor, false))
unfolding terminal
terminal_replay t id h = ground arith

-- The invariant holds after every call of `terminal`.
pub terminal-IsValid : (t : CursorTracker) (id : ℕ) → IsValid t → IsValid (terminal t id).0
terminal-IsValid t id v = elim (Bool-cases (leb id t.cursor)) [
  | inl e ↦ rw (terminal_replay t id (ground arith)) v
  | inr e ↦ terminal-IsValid_new t id v (ground arith)
]

-- Finishing a message above the cursor of a valid tracker removes exactly that id from the
-- unresolved ones; the cursor never goes back, stays below every unresolved id, stops at its old
-- place, at the finished id or at a terminal that was held, and is the greatest finished id that
-- no unresolved id precedes; a finished id that the cursor has not reached stays held, and no new id
-- is held; the flag says whether it moved.
pub terminal-Advances :
    (t : CursorTracker) (id : ℕ)
    → IsValid t
    → t.cursor < id
    → Advances t id (terminal t id).0 (terminal t id).1.1
terminal-Advances t id v new = terminal-Advances_new t id v new
