-- ===== src/Webapi/Auth/Sessions.antt =====
-- The lifetime of a session (internal/webapi/auth.go).
use sakura_nexus.Base.{
  ℕ, ◌+◌, ◌≡◌, ◌≢◌, inl, inr, ap, ◌∙◌, Bool, true, false, none, some, if◌then◌else◌, ltb, arith,
  Bool-cases,
}
use sakura_nexus.Base.Text.{Text, text, is_empty}
use sakura_nexus.Base.Assoc.{lookup-put, lookup-remove, text_instance}
use sakura_nexus.Webapi.Auth.{
  Sessions, session_ttl, create, valid, drop_session, Server, LoginRequest, unauthorized, reply,
  locked, log_in, handle_login, handle_logout, require_session, credentials_ok, audit_action,
}

create-valid :
    (s : Sessions) (now later : ℕ) (token : Text)
    → is_empty token ≡ false
    → (valid (create s now token).0 later token).1 ≡ ltb later (now + session_ttl)
unfolding valid create
create-valid s now later token h =
    ground (arith, lookup-put token token (now + session_ttl) s, text_instance.beq_iff token token)

drop-valid :
    (s : Sessions) (later : ℕ) (token : Text) → (valid (drop_session s token) later token).1 ≡ false
unfolding valid drop_session
drop-valid s later token =
    ground (arith, lookup-remove token token s, text_instance.beq_iff token token)

-- A session answers from its creation on until its time is up, whatever the store held before;
-- after its removal it does not answer; and neither touches the answer for another token.
pub session_lifetime :
    (s : Sessions) (now later : ℕ) (token other : Text)
    → is_empty token ≡ false
    → token ≢ other
    → ((valid (create s now token).0 later token).1 ≡ ltb later (now + session_ttl))
      × ((valid (drop_session s token) later token).1 ≡ false)
      × ((valid (create s now token).0 later other).1 ≡ (valid s later other).1)
      × ((valid (drop_session s token) later other).1 ≡ (valid s later other).1)
unfolding valid create drop_session
session_lifetime s now later token other h ne = (
  create-valid s now later token h,
  drop-valid s later token,
  ground (arith, lookup-put token other (now + session_ttl) s, text_instance.beq_iff token other),
  ground (arith, lookup-remove token other s, text_instance.beq_iff token other),
)

audit_action-sessions :
    (s : Server) (action : Text) (status : ℕ) → (audit_action s action status).sessions ≡ s.sessions
unfolding audit_action
audit_action-sessions s action status = elim (Bool-cases s.has_audit_sink) [
  | inl sink ↦ simp sink
  | inr no_sink ↦ simp no_sink
]

login-sessions :
    (s : Server) (seen now : ℕ) (ip : Text) (tls : Bool) (req : LoginRequest) (token : Text)
    → (locked s.fails seen ip).1 ≡ false
    → credentials_ok s req ≡ true
    → (handle_login s seen now ip tls (some req) token).0.sessions ≡ (create s.sessions now token).0
unfolding handle_login log_in
login-sessions s seen now ip tls req token h ok =
    rw (h, ok, handle_login) (audit_action-sessions _ _ _)

answer :
    (s : Server) (now : ℕ) (token : Text) {b : Bool}
    → (valid s.sessions now token).1 ≡ b
    → (require_session s now (some token)).1 ≡ (if b then none else some (reply 401 unauthorized))
unfolding require_session
answer s now token h = ap (λ b. if b then none else some (reply 401 unauthorized)) h

-- The cookie of a login opens what is behind the session until the time of the session is up, or
-- the logout.
pub login-require_session :
    (s : Server) (seen now later : ℕ) (ip : Text) (tls : Bool) (req : LoginRequest) (token : Text)
    → (locked s.fails seen ip).1 ≡ false
    → credentials_ok s req ≡ true
    → is_empty token ≡ false
    → let s' = (handle_login s seen now ip tls (some req) token).0 in
      ((require_session s' later (some token)).1
        ≡ (if ltb later (now + session_ttl) then none else some (reply 401 unauthorized)))
      × ((require_session (handle_logout s' (some token) tls).0 later (some token)).1
          ≡ some (reply 401 unauthorized))
unfolding handle_logout
login-require_session s seen now later ip tls req token h ok fresh =
    let s' = (handle_login s seen now ip tls (some req) token).0 in
    let out = record s' { sessions = drop_session s'.sessions token } in
    (
      answer s' later token (
          ap (λ ss. (valid ss later token).1) (login-sessions s seen now ip tls req token h ok)
          ∙ create-valid s.sessions now later token fresh),
      answer (handle_logout s' (some token) tls).0 later token (
          ap (λ ss. (valid ss later token).1) (audit_action-sessions out (text "auth.logout") 200)
          ∙ drop-valid s'.sessions later token),
    )
