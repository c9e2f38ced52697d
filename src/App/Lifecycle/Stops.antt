-- ===== src/App/Lifecycle/Stops.antt =====
-- internal/app/lifecycle.go, `Run`: once the context is cancelled the supervisors come to an end.
use sakura_nexus.Base.{
  ℕ, zero, suc, ◌+◌, ◌≤◌, ◌<◌, ◌≡◌, ◌⊎◌, inl, inr, refl, sym, subst, Bool, true, some, List, [],
  ◌∷◌, arith, Option-cases, length,
}
use sakura_nexus.App.Lifecycle.{
  Criticality, Filled, Supervisor, running, waiting, failing, returned, Move, run_returns, fatal,
  woken, timer, App, core_fatal, Event, moves, after_move, with_supervisors, step, run_events,
  move_at, supervise,
}
use sakura_nexus.App.Lifecycle.Moves.{
  Moved, stops, fails, rests, wakes, resumes, gives_up, MovedAt, here, there, Stepped, moved,
  step-Stepped,
}

-- The moves that a supervisor has left once the context is cancelled: a timer may still win against it.
abbrev pub moves_left : Supervisor → ℕ
moves_left (running b) = 1
moves_left (waiting b) = 2
moves_left failing = 1
moves_left returned = 0

abbrev pub all_left : List (Criticality × Supervisor) → ℕ
all_left [] = 0
all_left (x ∷ sups) = moves_left x.1 + all_left sups

Moved-left :
    (o : Filled) (m : Move) (cancelled : Bool) (crit : Criticality) (s t : Supervisor)
    → Moved o s m cancelled crit t
    → cancelled ≡ true
    → moves_left t < moves_left s
Moved-left o _ _ _ _ _ (stops b crit) h = omega arith
Moved-left o _ _ _ _ _ (fails b) h = absurd (ground (arith, h))
Moved-left o _ _ _ _ _ (rests b) h = absurd (ground (arith, h))
Moved-left o _ _ _ _ _ (wakes b crit) h = omega arith
Moved-left o _ _ _ _ _ (resumes b elapsed cancelled crit) h = omega arith
Moved-left o _ _ _ _ _ (gives_up cancelled crit) h = omega arith

MovedAt-left :
    (o : Filled) (m : Move) (cancelled : Bool) (sups sups' : List (Criticality × Supervisor))
    → MovedAt o m cancelled sups sups'
    → cancelled ≡ true
    → all_left sups' < all_left sups
MovedAt-left o m cancelled _ _ (here crit s t sups h) c =
    let l = Moved-left o m cancelled crit s t h c in omega arith
MovedAt-left o m cancelled _ _ (there x sups sups' h) c =
    let l = MovedAt-left o m cancelled sups sups' h c in omega arith

after_move-cancelled :
    (m : Move) (a : App)
    → a.cancelled ≡ true
    → ((after_move m a).cancelled ≡ true) × ((after_move m a).supervisors ≡ a.supervisors)
unfolding after_move core_fatal
after_move-cancelled fatal a h = ground (arith, h)
after_move-cancelled run_returns a h = (h, refl)
after_move-cancelled woken a h = (h, refl)
after_move-cancelled (timer elapsed) a h = (h, refl)

-- The moves of the supervisors alone.
abbrev pub as_events : List (ℕ × Move) → List Event
as_events [] = []
as_events ((i, m) ∷ ms) = moves i m ∷ as_events ms

Stepped-left :
    (o : Filled) (i : ℕ) (m : Move) (a b : App)
    → Stepped o (moves i m) a b
    → a.cancelled ≡ true
    → (b.cancelled ≡ true) × (all_left b.supervisors < all_left a.supervisors)
Stepped-left o i m a _ (moved _ _ _ sups h) c =
    let (c', same) = after_move-cancelled m (with_supervisors a sups) c in
    (c', rw same (MovedAt-left o m a.cancelled a.supervisors sups h c))

moves_bounded :
    (o : Filled) (ms : List (ℕ × Move)) (a b : App)
    → a.cancelled ≡ true
    → run_events o (as_events ms) a ≡ some b
    → (b.cancelled ≡ true) × (length ms + all_left b.supervisors ≤ all_left a.supervisors)
unfolding run_events
moves_bounded o [] a b c h = ground (arith, c, h)
moves_bounded o ((i, m) ∷ ms) a b c h = elim (Option-cases (step o (moves i m) a)) [
  | inl bad ↦ absurd (ground (arith, rw (bad, run_events) at h))
  | inr (a', good) ↦
      let (c', l) = Stepped-left o i m a a' (step-Stepped o (moves i m) a a' good) c in
      let (c'', l') = moves_bounded o ms a' b c' (rw (good, run_events) at h) in (c'', omega arith)
]

supervise-goes_on :
    (o : Filled) (crit : Criticality) (s : Supervisor)
    → (moves_left s ≡ 0) ⊎ ((m : Move) × (t : Supervisor) × (supervise o s m true crit ≡ some t))
unfolding supervise
supervise-goes_on o crit (running b) = inr (run_returns, returned, refl)
supervise-goes_on o crit (waiting b) = inr (woken, returned, refl)
supervise-goes_on o crit failing = inr (fatal, returned, refl)
supervise-goes_on o crit returned = inl refl

-- All have returned, or one of them can move.
abbrev GoesOn : Filled → Bool → List (Criticality × Supervisor) → Type 0
GoesOn o cancelled sups =
    (all_left sups ≡ 0)
    ⊎ ((i : ℕ) × (m : Move) × (sups' : List (Criticality × Supervisor)) × (move_at o cancelled m i
            sups
          ≡ some sups'))

move_at-GoesOn : (o : Filled) (sups : List (Criticality × Supervisor)) → GoesOn o true sups
unfolding move_at
move_at-GoesOn o [] = inl refl
move_at-GoesOn o ((crit, s) ∷ sups) = elim (supervise-goes_on o crit s) [
  | inr (m, t, good) ↦ inr (zero, m, (crit, t) ∷ sups, rw (good, move_at) refl)
  | inl none_here ↦ elim (move_at-GoesOn o sups) [
    | inl none_there ↦ inl (omega arith)
    | inr (i, m, sups', good) ↦ inr (suc i, m, (crit, s) ∷ sups', rw (good, move_at) refl)
  ]
]

step-goes_on :
    (o : Filled) (a : App)
    → a.cancelled ≡ true
    → (all_left a.supervisors ≡ 0)
      ⊎ ((i : ℕ) × (m : Move) × (b : App) × (step o (moves i m) a ≡ some b))
unfolding step
step-goes_on o a c =
    elim (subst (λ x. GoesOn o x a.supervisors) (sym c) (move_at-GoesOn o a.supervisors)) [
      | inl done ↦ inl done
      | inr (i, m, sups, good) ↦
          inr (i, m, after_move m (with_supervisors a sups), rw (good, step) refl)
    ]

-- Once the context is cancelled the supervisors end: they make no more moves than two for each that
-- waits and one for each other that has not returned, and until all have returned one of them can move.
pub cancelled-stops :
    (o : Filled) (ms : List (ℕ × Move)) (a b : App)
    → a.cancelled ≡ true
    → run_events o (as_events ms) a ≡ some b
    → (length ms + all_left b.supervisors ≤ all_left a.supervisors)
      × ((all_left b.supervisors ≡ 0)
          ⊎ ((i : ℕ) × (m : Move) × (c : App) × (step o (moves i m) b ≡ some c)))
cancelled-stops o ms a b c h = let (c', l) = moves_bounded o ms a b c h in (l, step-goes_on o b c')
