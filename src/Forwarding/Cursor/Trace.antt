-- ===== src/Forwarding/Cursor/Trace.antt =====
-- Any sequence of calls on one tracker (internal/forwarding/cursor.go): what the cursor means.
use sakura_nexus.Base.{
  ℕ, ◌≤◌, ◌<◌, ◌≡◌, ◌≢◌, ◌⊎◌, inl, inr, refl, All, All-imp, All-contains, contains, contains-nil,
  contains-insert, contains-delete, Bool, true, List, [], ◌∷◌, max, Bool-cases, leb, leb→le, length,
  ==-refl, arith,
}
use sakura_nexus.Forwarding.Cursor.{
  CursorTracker, new_cursor_tracker, observe, terminal, current, pending,
}
use sakura_nexus.Forwarding.Cursor.Terminal.{
  IsValid, Advances, new_cursor_tracker-IsValid, observe-IsValid, terminal-IsValid,
  terminal-Advances, terminal_replay,
}

pub data Call : Type 0 where
  observed : ℕ → Call
  finished : ℕ → Call

abbrev pub apply : CursorTracker → Call → CursorTracker
apply t (observed id) = observe t id
apply t (finished id) = (terminal t id).0

abbrev pub run : CursorTracker → List Call → CursorTracker
run t [] = t
run t (c ∷ cs) = run (apply t c) cs

abbrev pub NotFinished : ℕ → Call → Type 0
NotFinished id (observed x) = Unit
NotFinished id (finished x) = x ≢ id

apply-IsValid : (t : CursorTracker) (c : Call) → IsValid t → IsValid (apply t c)
apply-IsValid t (observed id) v = observe-IsValid t id v
apply-IsValid t (finished id) v = terminal-IsValid t id v

apply-forward : (t : CursorTracker) (c : Call) → IsValid t → t.cursor ≤ (apply t c).cursor
unfolding observe
apply-forward t (observed id) v = ground arith
apply-forward t (finished id) v = elim (Bool-cases (leb id t.cursor)) [
  | inl e ↦ rw (terminal_replay t id (ground arith), apply) (omega arith)
  | inr e ↦ (terminal-Advances t id v (ground arith)).forward
]

max-cases : (m n : ℕ) → (max m n ≡ m) ⊎ (max m n ≡ n)
max-cases m n = grind arith

-- Every call keeps the invariant of a tracker.
pub run-IsValid : (t : CursorTracker) (cs : List Call) → IsValid t → IsValid (run t cs)
run-IsValid t [] v = v
run-IsValid t (c ∷ cs) v = run-IsValid (apply t c) cs (apply-IsValid t c v)

apply_keeps_unresolved :
    (t : CursorTracker) (c : Call) (id : ℕ)
    → IsValid t
    → NotFinished id c
    → contains id t.unresolved ≡ true
    → contains id (apply t c).unresolved ≡ true
unfolding observe
apply_keeps_unresolved t (observed x) id v n h = ground (arith, contains-insert x id t.unresolved)
apply_keeps_unresolved t (finished x) id v n h = elim (Bool-cases (leb x t.cursor)) [
  | inl e ↦ rw (terminal_replay t x (ground arith), apply) h
  | inr e ↦
      rw (terminal-Advances t x v (ground arith)).resolved
        (ground (arith, contains-delete x id t.unresolved))
]

pub run_keeps_unresolved :
    (t : CursorTracker) (cs : List Call) (id : ℕ)
    → IsValid t
    → All (NotFinished id) cs
    → contains id t.unresolved ≡ true
    → contains id (run t cs).unresolved ≡ true
run_keeps_unresolved t [] id v n h = h
run_keeps_unresolved t (c ∷ cs) id v n h =
    run_keeps_unresolved (apply t c) cs id (apply-IsValid t c v) n.1
      (apply_keeps_unresolved t c id v n.0 h)

observe_enters :
    (t : CursorTracker) (id : ℕ) → t.cursor < id → contains id (observe t id).unresolved ≡ true
unfolding observe
observe_enters t id h = ground (arith, contains-insert id id t.unresolved, ==-refl id)

-- Durability: once a message above the cursor has been observed, no sequence of further calls that
-- does not finish this message brings the cursor to it, whatever else is observed or finished.
pub observed_blocks_cursor :
    (start id : ℕ) (before after : List Call)
    → current (run (new_cursor_tracker start) before) < id
    → All (NotFinished id) after
    → current (run (observe (run (new_cursor_tracker start) before) id) after) < id
unfolding current
observed_blocks_cursor start id before after h n =
    let t = run (new_cursor_tracker start) before in
    let v : IsValid t =
      run-IsValid (new_cursor_tracker start) before (new_cursor_tracker-IsValid start) in
    let w : IsValid (observe t id) = observe-IsValid t id v in
    let z : IsValid (run (observe t id) after) = run-IsValid (observe t id) after w in
    All-contains _ id (run (observe t id) after).unresolved z.unresolved_above
      (run_keeps_unresolved (observe t id) after id w n (observe_enters t id h))

-- The greatest id that the calls finish, or `m`.
abbrev pub max_finished : ℕ → List Call → ℕ
max_finished m [] = m
max_finished m (observed id ∷ cs) = max_finished m cs
max_finished m (finished id ∷ cs) = max_finished (max m id) cs

-- `m` is the greatest id finished so far.
record IsGreatest (t : CursorTracker) (m : ℕ) : Type 0 where
  cursor_le : t.cursor ≤ m
  terminals_le : All (λ x. x ≤ m) t.terminals
  found : (m ≤ t.cursor) ⊎ (contains m t.terminals ≡ true)

observe-IsGreatest : (t : CursorTracker) (id m : ℕ) → IsGreatest t m → IsGreatest (observe t id) m
unfolding observe
observe-IsGreatest t id m g = elim (Bool-cases (leb id t.cursor)) [
  | inl e ↦ rw e g
  | inr e ↦
      rw e (record { cursor_le = g.cursor_le; terminals_le = g.terminals_le; found = g.found })
]

terminal-IsGreatest :
    (t : CursorTracker) (id m : ℕ)
    → IsValid t
    → IsGreatest t m
    → IsGreatest (terminal t id).0 (max m id)
terminal-IsGreatest t id m v g = elim (Bool-cases (leb id t.cursor)) [
  | inl e ↦
      let same : max m id ≡ m = omega (arith, leb→le id t.cursor e, g.cursor_le) in
      rw (terminal_replay t id (ground arith), same) g
  | inr e ↦ advanced (terminal-Advances t id v (ground arith))
]
  where
    found_of :
        (t' : CursorTracker) (adv : Bool)
        → Advances t id t' adv
        → (m ≤ t'.cursor) ⊎ (contains m t'.terminals ≡ true)
    found_of t' adv a = elim g.found [
      | inl below ↦ inl (omega (arith, below, a.forward))
      | inr held ↦ All-contains _ m t.terminals a.kept.1 held
    ]

    advanced :
        {adv : Bool} → Advances t id (terminal t id).0 adv → IsGreatest (terminal t id).0 (max m id)
    advanced {adv} a =
        let b : ((terminal t id).0.cursor ≤ max m id)
            × All (λ x. x ≤ max m id) (terminal t id).0.terminals =
          a.bounded (max m id) (omega (arith, g.cursor_le))
            (omega arith, All-imp _ _ t.terminals (λ x h. omega arith) g.terminals_le) in
        record {
          cursor_le = b.0;
          terminals_le = b.1;
          found = elim (max-cases m id) [
            | inl e ↦ rw e (found_of (terminal t id).0 adv a)
            | inr e ↦ rw e a.kept.0
          ];
        }

run-IsGreatest :
    (t : CursorTracker) (cs : List Call) (m : ℕ)
    → IsValid t
    → IsGreatest t m
    → IsGreatest (run t cs) (max_finished m cs)
run-IsGreatest t [] m v g = g
run-IsGreatest t (observed id ∷ cs) m v g =
    run-IsGreatest (observe t id) cs m (observe-IsValid t id v) (observe-IsGreatest t id m g)
run-IsGreatest t (finished id ∷ cs) m v g =
    run-IsGreatest (terminal t id).0 cs (max m id) (terminal-IsValid t id v)
      (terminal-IsGreatest t id m v g)

new_cursor_tracker-IsGreatest : (start : ℕ) → IsGreatest (new_cursor_tracker start) start
unfolding new_cursor_tracker
new_cursor_tracker-IsGreatest start = record {
  cursor_le = omega arith;
  terminals_le = tt;
  found = inl (omega arith);
}

settled_terminals : (us ts : List ℕ) → length us ≡ 0 → All (λ x. ¬ All (λ u. x < u) us) ts → ts ≡ []
settled_terminals us [] e b = refl
settled_terminals [] (x ∷ ts) e b = absurd (b.0 tt)
settled_terminals (u ∷ us) (x ∷ ts) e b = absurd (omega arith)

-- Completeness: after any sequence of calls on a new tracker, if no message is unresolved, the
-- cursor is the greatest id that was finished, or the start where that is greater: no order of
-- arrival and no gap in the ids holds the cursor back.
pub settled_cursor :
    (start : ℕ) (cs : List Call)
    → pending (run (new_cursor_tracker start) cs) ≡ 0
    → current (run (new_cursor_tracker start) cs) ≡ max_finished start cs
unfolding current pending
settled_cursor start cs h =
    let t = run (new_cursor_tracker start) cs in
    let v : IsValid t =
      run-IsValid (new_cursor_tracker start) cs (new_cursor_tracker-IsValid start) in
    let g : IsGreatest t (max_finished start cs) =
      run-IsGreatest (new_cursor_tracker start) cs start (new_cursor_tracker-IsValid start)
        (new_cursor_tracker-IsGreatest start) in
    elim g.found [
      | inl le ↦ omega (arith, le, g.cursor_le)
      | inr held ↦ cc (
        settled_terminals t.unresolved t.terminals h v.blocked,
        held,
        contains-nil (max_finished start cs),
      )
    ]

-- The cursor only moves forward, whatever is called.
pub run-forward : (t : CursorTracker) (cs : List Call) → IsValid t → current t ≤ current (run t cs)
unfolding current
run-forward t [] v = omega arith
run-forward t (c ∷ cs) v =
    omega (arith, apply-forward t c v, run-forward (apply t c) cs (apply-IsValid t c v))
