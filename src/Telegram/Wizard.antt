-- ===== src/Telegram/Wizard.antt =====
-- internal/platform/telegram/wizard.go: the login of the user account in steps. A session is its state
-- and its three channels, each with room for one value; the goroutine of the login is where it is in
-- its program, which stops where it sends into a full channel. An error of the library is a number. A session that is removed is cancelled, which ends its
-- login.
pub mod Events
pub mod Honest
use sakura_nexus.Base.{
  ℕ, ◌-◌, Bool, true, false, Option, none, some, List, [], ◌∷◌, if◌then◌else◌, ltb, leb, length,
}
use sakura_nexus.Base.Assoc.{lookup, put, text_instance}
use sakura_nexus.Base.Text.{Text, text, has_prefix}
use sakura_nexus.Telegram.RichBlock.{trim_space}

pub data WizardState : Type 0 where
  unset await_code await_password authorized failed : WizardState

-- What a step reports: nothing wrong, the need of a password, or another error.
pub data StepResult : Type 0 where
  fine password_needed : StepResult
  step_error : ℕ → StepResult

-- Where the login is: before `StartLogin`, at the channel of the code, in `SubmitCode`, at the channel
-- of the password, in `SubmitPassword`, at the sending of a result, after which it goes on where the
-- second part says, or over.
pub data Runner : Type 0 where
  starting at_code in_submit_code at_password in_submit_password over : Runner
  sending : StepResult → Runner → Runner

pub record WizardSession : Type 0 where
  pub state : WizardState
  pub code : Option Text
  pub password : Option Text
  pub result : Option StepResult
  pub created : ℕ
  pub runner : Runner

abbrev pub Sessions : Type 0
Sessions = List (Text × WizardSession)

-- Ten minutes, in nanoseconds.
abbrev pub session_limit : ℕ
session_limit = 600000000000

abbrev pub max_sessions : ℕ
max_sessions = 3

unfoldable pub new_session : ℕ → WizardSession
new_session now = record {
  state = unset;
  code = none;
  password = none;
  result = none;
  created = now;
  runner = starting;
}

-- The sessions that are older than the limit are removed.
unfoldable pub clean_up : ℕ → Sessions → Sessions
clean_up now [] = []
clean_up now ((id, s) ∷ ss) =
    let rest = clean_up now ss in
    if ltb session_limit (now - s.created) then rest else (id, s) ∷ rest

pub data Started : Type 0 where
  started : Text → Started
  bad_phone too_many no_random : Started

-- `random_id` is the identifier that was drawn, in hexadecimal digits, or an error.
unfoldable pub login_start : Text → Option Text → ℕ → Sessions → Started × Sessions
unfolding clean_up new_session
login_start phone random_id now ss =
    if has_prefix (trim_space phone) (text "+")
    then (let kept = clean_up now ss in
        if leb max_sessions (length kept) then (too_many, kept) else elim random_id [
          | none ↦ (no_random, kept)
          | some id ↦ (started id, put id (new_session now) kept)
        ])
    else (bad_phone, ss)

-- `StartLogin` has returned: `none` is no error. What is to be reported waits for its sending.
unfoldable pub login_started : Option ℕ → WizardSession → Option WizardSession
login_started e s = elim s.runner [
  | starting ↦ some (elim e [
    | none ↦ record s { state = await_code; runner = at_code }
    | some n ↦ record s { runner = sending (step_error n) over }
  ])
  | at_code ↦ none
  | in_submit_code ↦ none
  | at_password ↦ none
  | in_submit_password ↦ none
  | over ↦ none
  | sending r next ↦ none
]

-- `code := <-s.codeCh`
unfoldable pub code_received : WizardSession → Option WizardSession
code_received s = elim s.runner [
  | at_code ↦ elim s.code [
    | none ↦ none
    | some c ↦ some (record s { code = none; runner = in_submit_code })
  ]
  | starting ↦ none
  | in_submit_code ↦ none
  | at_password ↦ none
  | in_submit_password ↦ none
  | over ↦ none
  | sending r next ↦ none
]

-- `SubmitCode` has returned: the state is stored at once, and the result waits for its sending.
unfoldable pub code_answered : StepResult → WizardSession → Option WizardSession
code_answered r s = elim s.runner [
  | in_submit_code ↦ some (elim r [
    | fine ↦ record s { state = authorized; runner = sending fine over }
    | password_needed ↦ record s {
      state = await_password;
      runner = sending password_needed at_password;
    }
    | step_error n ↦ record s { runner = sending (step_error n) over }
  ])
  | starting ↦ none
  | at_code ↦ none
  | at_password ↦ none
  | in_submit_password ↦ none
  | over ↦ none
  | sending q next ↦ none
]

-- `pw := <-s.pwCh`
unfoldable pub password_received : WizardSession → Option WizardSession
password_received s = elim s.runner [
  | at_password ↦ elim s.password [
    | none ↦ none
    | some p ↦ some (record s { password = none; runner = in_submit_password })
  ]
  | starting ↦ none
  | at_code ↦ none
  | in_submit_code ↦ none
  | in_submit_password ↦ none
  | over ↦ none
  | sending r next ↦ none
]

-- `SubmitPassword` has returned: the same.
unfoldable pub password_answered : Option ℕ → WizardSession → Option WizardSession
password_answered e s = elim s.runner [
  | in_submit_password ↦ some (elim e [
    | none ↦ record s { state = authorized; runner = sending fine over }
    | some n ↦ record s { runner = sending (step_error n) over }
  ])
  | starting ↦ none
  | at_code ↦ none
  | in_submit_code ↦ none
  | at_password ↦ none
  | over ↦ none
  | sending r next ↦ none
]

-- `s.resCh <- err`: the result goes into its channel if there is room; the goroutine waits otherwise.
unfoldable pub result_sent : WizardSession → Option WizardSession
result_sent s = elim s.runner [
  | sending r next ↦ elim s.result [
    | none ↦ some (record s { result = some r; runner = next })
    | some old ↦ none
  ]
  | starting ↦ none
  | at_code ↦ none
  | in_submit_code ↦ none
  | at_password ↦ none
  | in_submit_password ↦ none
  | over ↦ none
]

-- After `runLogin`: a session that is not authorized has failed.
unfoldable pub login_over : WizardSession → WizardSession
login_over s = elim s.state [
  | authorized ↦ record s { runner = over }
  | unset ↦ record s { state = failed; runner = over }
  | await_code ↦ record s { state = failed; runner = over }
  | await_password ↦ record s { state = failed; runner = over }
  | failed ↦ record s { state = failed; runner = over }
]

-- The two halves of `wizardStep`: the input goes into its channel, the result is taken out. `none` is the
-- time-out.
unfoldable pub give_code : Text → WizardSession → Option WizardSession
give_code c s = elim s.code [
  | none ↦ some (record s { code = some (trim_space c) })
  | some old ↦ none
]

unfoldable pub give_password : Text → WizardSession → Option WizardSession
give_password p s = elim s.password [
  | none ↦ some (record s { password = some p })
  | some old ↦ none
]

unfoldable pub take_result : WizardSession → Option (StepResult × WizardSession)
take_result s = elim s.result [ none ↦ none | some r ↦ some (r, record s { result = none }) ]

pub data CodeAnswer : Type 0 where
  logged_in needs_password : CodeAnswer
  code_error : ℕ → CodeAnswer

unfoldable pub login_code_answer : StepResult → CodeAnswer
login_code_answer fine = logged_in
login_code_answer password_needed = needs_password
login_code_answer (step_error n) = code_error n

-- `none` is the error of a session that is not there.
unfoldable pub complete : Text → Sessions → Option Bool
complete id ss = elim (lookup id ss) [
  | none ↦ none
  | some s ↦ some (elim s.state [
    | authorized ↦ true
    | unset ↦ false
    | await_code ↦ false
    | await_password ↦ false
    | failed ↦ false
  ])
]
