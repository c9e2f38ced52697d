-- ===== src/Examples/Logins.antt =====
-- A run of the login of the user account, with a password.
use sakura_nexus.Base.{◌≡◌, refl, true, any, none, some, List, [], ◌∷◌}
use sakura_nexus.Base.Text.{text}
use sakura_nexus.Telegram.Wizard.{
  authorized, WizardSession, fine, password_needed, over, login_started, code_received,
  code_answered, password_received, password_answered, result_sent, give_code, give_password,
  take_result, new_session,
}
use sakura_nexus.Telegram.Wizard.Events.{
  WizardEvent, start_returns, code_returns, password_returns, code_given, password_given,
  code_taken, password_taken, result_put, result_taken, wizard_event, wizard_run,
}
use sakura_nexus.Telegram.Wizard.Honest.{accepts, wizard_run-accepted}

abbrev login_events : List WizardEvent
login_events =
    start_returns none
    ∷ code_given (text "12345")
    ∷ code_taken
    ∷ code_returns password_needed
    ∷ result_put
    ∷ result_taken
    ∷ password_given (text "secret")
    ∷ password_taken
    ∷ password_returns none
    ∷ result_put
    ∷ []

abbrev logged_in_session : WizardSession
logged_in_session = record {
  state = authorized;
  code = none;
  password = none;
  result = some fine;
  created = 0;
  runner = over;
}

login_runs : wizard_run login_events (new_session 0) ≡ some logged_in_session
unfolding wizard_run wizard_event login_started code_received code_answered password_received
    password_answered result_sent give_code give_password take_result new_session
login_runs = refl

accepted_example : any accepts login_events ≡ true
accepted_example = wizard_run-accepted login_events 0 logged_in_session login_runs refl
