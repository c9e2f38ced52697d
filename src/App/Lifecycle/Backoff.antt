-- ===== src/App/Lifecycle/Backoff.antt =====
-- internal/app/lifecycle.go, `supervise`: the waits before a service is run again.
use sakura_nexus.Base.{
  ℕ, zero, suc, ◌≤◌, ◌<◌, ◌≡◌, refl, Bool, some, List, [], ◌∷◌, All, max, arith,
}
use sakura_nexus.Base.Int.{ℤ, pos, negsuc}
use sakura_nexus.App.Lifecycle.Moves.{
  Moved, stops, fails, rests, wakes, resumes, gives_up, MovedAt, here, there, Stepped, restarts,
  parent_ends, moved, run_events-keeps,
}
use sakura_nexus.App.Lifecycle.{
  Criticality, Options, Filled, fill, Supervisor, running, waiting, failing, returned, Move,
  run_returns, fatal, woken, timer, next_backoff, or_default, App, start, core_fatal, Event,
  after_move, run_events, request_restart, parent_done, with_supervisors,
}

-- The wait is not nothing, and no longer than the greater of the first wait and the limit.
abbrev pub IsPaced : Filled → Supervisor → Type 0
IsPaced o (running b) = (0 < b) × (b ≤ max o.restart_backoff o.restart_backoff_max)
IsPaced o (waiting b) = (0 < b) × (b ≤ max o.restart_backoff o.restart_backoff_max)
IsPaced o failing = Unit
IsPaced o returned = Unit

abbrev pub ArePaced : Filled → List (Criticality × Supervisor) → Type 0
ArePaced o sups = All (λ x. IsPaced o x.1) sups

module _ (o : Filled) (pb : 0 < o.restart_backoff) (pm : 0 < o.restart_backoff_max) where
  next_backoff-bounds :
      (elapsed b : ℕ)
      → 0 < b
      → (0 < next_backoff o elapsed b)
        × (next_backoff o elapsed b ≤ max o.restart_backoff o.restart_backoff_max)
  unfolding next_backoff
  next_backoff-bounds elapsed b h = ground (arith, h, pb, pm)

  Moved-IsPaced :
      (m : Move) (cancelled : Bool) (crit : Criticality) (s s' : Supervisor)
      → Moved o s m cancelled crit s'
      → IsPaced o s
      → IsPaced o s'
  Moved-IsPaced _ _ _ _ _ (stops b crit) p = tt
  Moved-IsPaced _ _ _ _ _ (fails b) p = tt
  Moved-IsPaced _ _ _ _ _ (rests b) p = p
  Moved-IsPaced _ _ _ _ _ (wakes b crit) p = tt
  Moved-IsPaced _ _ _ _ _ (resumes b elapsed cancelled crit) p = next_backoff-bounds elapsed b p.0
  Moved-IsPaced _ _ _ _ _ (gives_up cancelled crit) p = tt

  MovedAt-ArePaced :
      (m : Move) (cancelled : Bool) (sups sups' : List (Criticality × Supervisor))
      → MovedAt o m cancelled sups sups'
      → ArePaced o sups
      → ArePaced o sups'
  MovedAt-ArePaced m cancelled _ _ (here crit s t sups h) (p, ps) =
      (Moved-IsPaced m cancelled crit s t h p, ps)
  MovedAt-ArePaced m cancelled _ _ (there x sups sups' h) (p, ps) =
      (p, MovedAt-ArePaced m cancelled sups sups' h ps)

  after_move-supervisors : (m : Move) (a : App) → (after_move m a).supervisors ≡ a.supervisors
  unfolding after_move core_fatal
  after_move-supervisors fatal a = ground (arith)
  after_move-supervisors run_returns a = refl
  after_move-supervisors woken a = refl
  after_move-supervisors (timer elapsed) a = refl

  Stepped-ArePaced :
      (e : Event) (a b : App)
      → Stepped o e a b
      → ArePaced o a.supervisors
      → ArePaced o b.supervisors
  unfolding request_restart parent_done
  Stepped-ArePaced _ _ _ (restarts a) p = p
  Stepped-ArePaced _ _ _ (parent_ends a) p = p
  Stepped-ArePaced _ _ _ (moved i m a sups h) p =
      rw (after_move-supervisors m (with_supervisors a sups))
        (MovedAt-ArePaced m a.cancelled a.supervisors sups h p)

or_default-pos : (n : ℤ) (def : ℕ) → 0 < def → 0 < or_default n def
or_default-pos (pos zero) def h = h
or_default-pos (pos (suc n)) def h = grind arith
or_default-pos (negsuc n) def h = ground (arith, h)

fill-IsPositive :
    (o : Options) → (0 < (fill o).restart_backoff) × (0 < (fill o).restart_backoff_max)
unfolding fill
fill-IsPositive o = (
  or_default-pos o.restart_backoff 100000000 (omega arith),
  or_default-pos o.restart_backoff_max 30000000000 (omega arith),
)

start-ArePaced :
    (o : Filled) (crits : List Criticality)
    → 0 < o.restart_backoff
    → ArePaced o (start o crits).supervisors
unfolding start
start-ArePaced o [] h = tt
start-ArePaced o (c ∷ crits) h = ((h, omega arith), start-ArePaced o crits h)

-- Whatever the options and however the goroutines run: a service waits before it is run again, and no
-- longer than the greater of the first wait and the limit.
pub run_events-ArePaced :
    (opts : Options) (crits : List Criticality) (es : List Event) (a : App)
    → run_events (fill opts) es (start (fill opts) crits) ≡ some a
    → ArePaced (fill opts) a.supervisors
run_events-ArePaced opts crits es a h =
    let o = fill opts in
    let (pb, pm) = fill-IsPositive opts in
    run_events-keeps o (λ x. ArePaced o x.supervisors) (Stepped-ArePaced o pb pm) es (start o crits)
      a h (start-ArePaced o crits pb)
