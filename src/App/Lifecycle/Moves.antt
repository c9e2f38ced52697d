-- ===== src/App/Lifecycle/Moves.antt =====
-- internal/app/lifecycle.go: the moves of the supervisors as a relation, and what a list of them does.
use sakura_nexus.Base.{
  ℕ, zero, suc, ◌≡◌, subst, Bool, true, false, none, some, List, [], ◌∷◌, arith, Option-cases, inl,
  inr,
}
use sakura_nexus.App.Lifecycle.{
  Criticality, core, degradable, Filled, Supervisor, running, waiting, failing, returned, Move,
  run_returns, fatal, woken, timer, next_backoff, supervise, move_at, Event, moves, restart, parent,
  App, step, run_events, after_move, with_supervisors, request_restart, parent_done,
}

pub data Moved (o : Filled) : Supervisor → Move → Bool → Criticality → Supervisor → Type 0 where
  stops : (b : ℕ) (crit : Criticality) → Moved o (running b) run_returns true crit returned
  fails : (b : ℕ) → Moved o (running b) run_returns false core failing
  rests : (b : ℕ) → Moved o (running b) run_returns false degradable (waiting b)
  wakes : (b : ℕ) (crit : Criticality) → Moved o (waiting b) woken true crit returned
  resumes :
      (b elapsed : ℕ) (cancelled : Bool) (crit : Criticality)
      → Moved o (waiting b) (timer elapsed) cancelled crit (running (next_backoff o elapsed b))
  gives_up : (cancelled : Bool) (crit : Criticality) → Moved o failing fatal cancelled crit returned

some-injective : {s t : Supervisor} → some s ≡ some t → s ≡ t
some-injective h = ground (arith, h)

none-some : {t : Supervisor} → none ≡ some t → ⊥
none-some h = ground (arith, h)

pub supervise-Moved :
    (o : Filled) (s : Supervisor) (m : Move) (cancelled : Bool) (crit : Criticality)
    (t : Supervisor)
    → supervise o s m cancelled crit ≡ some t
    → Moved o s m cancelled crit t
unfolding supervise
supervise-Moved o (running b) run_returns true crit t h =
    subst (λ x. Moved o (running b) run_returns true crit x) (some-injective h) (stops b crit)
supervise-Moved o (running b) run_returns false core t h =
    subst (λ x. Moved o (running b) run_returns false core x) (some-injective h) (fails b)
supervise-Moved o (running b) run_returns false degradable t h =
    subst (λ x. Moved o (running b) run_returns false degradable x) (some-injective h) (rests b)
supervise-Moved o (running b) fatal cancelled crit t h = absurd (none-some h)
supervise-Moved o (running b) woken cancelled crit t h = absurd (none-some h)
supervise-Moved o (running b) (timer elapsed) cancelled crit t h = absurd (none-some h)
supervise-Moved o (waiting b) run_returns cancelled crit t h = absurd (none-some h)
supervise-Moved o (waiting b) fatal cancelled crit t h = absurd (none-some h)
supervise-Moved o (waiting b) woken true crit t h =
    subst (λ x. Moved o (waiting b) woken true crit x) (some-injective h) (wakes b crit)
supervise-Moved o (waiting b) woken false crit t h = absurd (none-some h)
supervise-Moved o (waiting b) (timer elapsed) cancelled crit t h =
    subst (λ x. Moved o (waiting b) (timer elapsed) cancelled crit x) (some-injective h)
      (resumes b elapsed cancelled crit)
supervise-Moved o failing run_returns cancelled crit t h = absurd (none-some h)
supervise-Moved o failing fatal cancelled crit t h =
    subst (λ x. Moved o failing fatal cancelled crit x) (some-injective h) (gives_up cancelled crit)
supervise-Moved o failing woken cancelled crit t h = absurd (none-some h)
supervise-Moved o failing (timer elapsed) cancelled crit t h = absurd (none-some h)
supervise-Moved o returned m cancelled crit t h = absurd (none-some h)

-- A move of one of the supervisors.
pub data MovedAt (o : Filled) (m : Move) (cancelled : Bool)
    : List (Criticality × Supervisor) → List (Criticality × Supervisor) → Type 0 where
  here :
      (crit : Criticality) (s t : Supervisor) (sups : List (Criticality × Supervisor))
      → Moved o s m cancelled crit t
      → MovedAt o m cancelled ((crit, s) ∷ sups) ((crit, t) ∷ sups)
  there :
      (x : Criticality × Supervisor) (sups sups' : List (Criticality × Supervisor))
      → MovedAt o m cancelled sups sups'
      → MovedAt o m cancelled (x ∷ sups) (x ∷ sups')

pub move_at-MovedAt :
    (o : Filled) (cancelled : Bool) (m : Move) (i : ℕ)
    (sups sups' : List (Criticality × Supervisor))
    → move_at o cancelled m i sups ≡ some sups'
    → MovedAt o m cancelled sups sups'
unfolding move_at
move_at-MovedAt o cancelled m i [] sups' h = absurd (ground (arith, h))
move_at-MovedAt o cancelled m zero ((crit, s) ∷ sups) sups' h =
    elim (Option-cases (supervise o s m cancelled crit)) [
      | inl bad ↦ absurd (ground (arith, bad, h))
      | inr (t, good) ↦
          subst (λ x. MovedAt o m cancelled ((crit, s) ∷ sups) x) (ground (arith, good, h))
            (here crit s t sups (supervise-Moved o s m cancelled crit t good))
    ]
move_at-MovedAt o cancelled m (suc i) (x ∷ sups) sups' h =
    elim (Option-cases (move_at o cancelled m i sups)) [
      | inl bad ↦ absurd (ground (arith, bad, h))
      | inr (rest, good) ↦
          subst (λ y. MovedAt o m cancelled (x ∷ sups) y) (ground (arith, good, h))
            (there x sups rest (move_at-MovedAt o cancelled m i sups rest good))
    ]

pub data Stepped (o : Filled) : Event → App → App → Type 0 where
  restarts : (a : App) → Stepped o restart a (request_restart a)
  parent_ends : (a : App) → Stepped o parent a (parent_done a)
  moved :
      (i : ℕ) (m : Move) (a : App) (sups : List (Criticality × Supervisor))
      → MovedAt o m a.cancelled a.supervisors sups
      → Stepped o (moves i m) a (after_move m (with_supervisors a sups))

pub app-injective : {a b : App} → some a ≡ some b → a ≡ b
app-injective h = ground (arith, h)

no_app : {b : App} → none ≡ some b → ⊥
no_app h = ground (arith, h)

pub step-Stepped : (o : Filled) (e : Event) (a b : App) → step o e a ≡ some b → Stepped o e a b
unfolding step
step-Stepped o restart a b h = subst (λ x. Stepped o restart a x) (app-injective h) (restarts a)
step-Stepped o parent a b h = subst (λ x. Stepped o parent a x) (app-injective h) (parent_ends a)
step-Stepped o (moves i m) a b h = elim (Option-cases (move_at o a.cancelled m i a.supervisors)) [
  | inl bad ↦ absurd (no_app (rw (bad, step) at h))
  | inr (sups, good) ↦
      subst (λ x. Stepped o (moves i m) a x) (app-injective (rw (good, step) at h))
        (moved i m a sups (move_at-MovedAt o a.cancelled m i a.supervisors sups good))
]

-- What every step keeps holds after a list of events.
pub run_events-keeps {ℓ} :
    (o : Filled) (P : App → Type ℓ)
    → ((e : Event) (a b : App) → Stepped o e a b → P a → P b)
    → (es : List Event) (a b : App) → run_events o es a ≡ some b
    → P a
    → P b
unfolding run_events
run_events-keeps o P keeps [] a b h p = subst P (app-injective h) p
run_events-keeps o P keeps (e ∷ es) a b h p = elim (Option-cases (step o e a)) [
  | inl bad ↦ absurd (no_app (rw (bad, run_events) at h))
  | inr (c, good) ↦
      run_events-keeps o P keeps es c b (rw (good, run_events) at h)
        (keeps e a c (step-Stepped o e a c good) p)
]
