-- ===== src/Telegram/Wizard/Events.antt =====
-- internal/platform/telegram/wizard.go: what can happen to a session of the login, and runs of it.
use sakura_nexus.Base.{ℕ, Option, none, some, List, [], ◌∷◌}
use sakura_nexus.Base.Text.{Text}
use sakura_nexus.Telegram.Wizard.{
  StepResult, WizardSession, login_started, code_received, code_answered, password_received,
  password_answered, result_sent, give_code, give_password, take_result, login_over,
}

-- What can happen to a session, in any order: the answers of the library, the receiving and sending of
-- the login, the two halves of the steps of a client, and the end of the login.
pub data WizardEvent : Type 0 where
  start_returns : Option ℕ → WizardEvent
  code_returns : StepResult → WizardEvent
  password_returns : Option ℕ → WizardEvent
  code_given password_given : Text → WizardEvent
  code_taken password_taken result_put result_taken login_ends : WizardEvent

-- `none` where it cannot happen now.
unfoldable pub wizard_event : WizardEvent → WizardSession → Option WizardSession
unfolding login_started code_received code_answered password_received password_answered result_sent
    give_code give_password take_result login_over
wizard_event (start_returns e) s = login_started e s
wizard_event (code_returns r) s = code_answered r s
wizard_event (password_returns e) s = password_answered e s
wizard_event (code_given c) s = give_code c s
wizard_event (password_given p) s = give_password p s
wizard_event code_taken s = code_received s
wizard_event password_taken s = password_received s
wizard_event result_put s = result_sent s
wizard_event result_taken s = elim (take_result s) [ none ↦ none | some (r, s') ↦ some s' ]
wizard_event login_ends s = some (login_over s)

unfoldable pub wizard_run : List WizardEvent → WizardSession → Option WizardSession
unfolding wizard_event
wizard_run [] s = some s
wizard_run (e ∷ es) s = elim (wizard_event e s) [ none ↦ none | some s' ↦ wizard_run es s' ]
