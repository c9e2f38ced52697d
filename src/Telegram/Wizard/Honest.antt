-- ===== src/Telegram/Wizard/Honest.antt =====
-- internal/platform/telegram/wizard.go: nobody is logged in unless Telegram said so.
use sakura_nexus.Base.{
  ℕ, ◌≡◌, ◌⊎◌, inl, inr, refl, subst, Bool, true, false, ◌||◌, any, none, some, List, [], ◌∷◌,
  arith, Option-cases,
}
use sakura_nexus.Telegram.Wizard.{
  WizardState, unset, authorized, await_code, await_password, failed, WizardSession, fine,
  password_needed, step_error, code_received, password_received, result_sent, login_started,
  code_answered, password_answered, give_code, give_password, take_result, login_over, new_session,
}
use sakura_nexus.Telegram.Wizard.Events.{
  WizardEvent, start_returns, code_returns, password_returns, code_given, password_given,
  code_taken, password_taken, result_put, result_taken, login_ends, wizard_event, wizard_run,
}

-- Telegram accepted a code without asking for a password.
abbrev pub accepts_code : WizardEvent → Bool
accepts_code (code_returns fine) = true
accepts_code _ = false

-- Telegram accepted a password.
abbrev pub accepts_password : WizardEvent → Bool
accepts_password (password_returns none) = true
accepts_password _ = false

-- The session is authorized only if one of the two happened.
abbrev pub IsHonest : Bool → WizardSession → Type 0
IsHonest accepted s = s.state ≡ authorized → accepted ≡ true

abbrev pub accepts : WizardEvent → Bool
accepts e = accepts_code e || accepts_password e

state-cases :
    (x : WizardState)
    → (x ≡ authorized) ⊎ (x ≡ unset) ⊎ (x ≡ await_code) ⊎ (x ≡ await_password) ⊎ (x ≡ failed)
state-cases authorized = inl refl
state-cases unset = inr (inl refl)
state-cases await_code = inr (inr (inl refl))
state-cases await_password = inr (inr (inr (inl refl)))
state-cases failed = inr (inr (inr (inr refl)))

failed_authorized : failed ≡ authorized → ⊥
failed_authorized h = ground (arith, h)

login_over-authorized :
    (s : WizardSession) → (login_over s).state ≡ authorized → s.state ≡ authorized
unfolding login_over
login_over-authorized s h = elim (state-cases s.state) [
  | inl same ↦ same
  | inr (inl e) ↦ absurd (failed_authorized (rw (e, login_over) at h))
  | inr (inr (inl e)) ↦ absurd (failed_authorized (rw (e, login_over) at h))
  | inr (inr (inr (inl e))) ↦ absurd (failed_authorized (rw (e, login_over) at h))
  | inr (inr (inr (inr e))) ↦ absurd (failed_authorized (rw (e, login_over) at h))
]

new_session-IsHonest : (now : ℕ) → IsHonest false (new_session now)
unfolding new_session
new_session-IsHonest now a = ground (arith, a)

event-IsHonest :
    (e : WizardEvent) (s t : WizardSession) (b : Bool)
    → wizard_event e s ≡ some t
    → IsHonest b s
    → IsHonest (b || accepts e) t
unfolding wizard_event login_started code_received code_answered password_received password_answered
    result_sent give_code give_password take_result
event-IsHonest (start_returns none) s t b h i a = ground (arith, h, i, a)
event-IsHonest (start_returns (some n)) s t b h i a = ground (arith, h, i, a)
event-IsHonest (code_returns fine) s t b h i a = ground (arith)
event-IsHonest (code_returns password_needed) s t b h i a = ground (arith, h, i, a)
event-IsHonest (code_returns (step_error n)) s t b h i a = ground (arith, h, i, a)
event-IsHonest (password_returns none) s t b h i a = ground (arith)
event-IsHonest (password_returns (some n)) s t b h i a = ground (arith, h, i, a)
event-IsHonest (code_given c) s t b h i a = ground (arith, h, i, a)
event-IsHonest (password_given p) s t b h i a = ground (arith, h, i, a)
event-IsHonest code_taken s t b h i a = ground (arith, h, i, a)
event-IsHonest password_taken s t b h i a = ground (arith, h, i, a)
event-IsHonest result_put s t b h i a = ground (arith, h, i, a)
event-IsHonest result_taken s t b h i a = ground (arith, h, i, a)
event-IsHonest login_ends s t b h i a =
    let before = login_over-authorized s (ground (arith, h, a)) in ground (arith, i before)

any-cons :
    (e : WizardEvent) (es : List WizardEvent) (b : Bool)
    → ((b || accepts e) || any accepts es) ≡ (b || any accepts (e ∷ es))
any-cons e es b = ground (arith)

wizard_run-IsHonest :
    (es : List WizardEvent) (s t : WizardSession) (b : Bool)
    → wizard_run es s ≡ some t
    → IsHonest b s
    → IsHonest (b || any accepts es) t
unfolding wizard_run
wizard_run-IsHonest [] s t b h i a = ground (arith, h, i, a)
wizard_run-IsHonest (e ∷ es) s t b h i a = elim (Option-cases (wizard_event e s)) [
  | inl bad ↦ absurd (ground (arith, rw (bad, wizard_run) at h))
  | inr (u, good) ↦
      subst (λ x. x ≡ true) (any-cons e es b)
        (wizard_run-IsHonest es u t (b || accepts e) (rw (good, wizard_run) at h)
          (event-IsHonest e s u b good i) a)
]

-- In whatever order the answers of Telegram, the steps of the client and the end of the login come: a
-- session is authorized only after Telegram accepted a code or a password.
pub wizard_run-accepted :
    (es : List WizardEvent) (now : ℕ) (t : WizardSession)
    → wizard_run es (new_session now) ≡ some t
    → t.state ≡ authorized
    → any accepts es ≡ true
wizard_run-accepted es now t h a =
    wizard_run-IsHonest es (new_session now) t false h (new_session-IsHonest now) a
