-- ===== src/Webapi/Auth.antt =====
-- internal/webapi/auth.go: the session store, the lock after failed logins, and the handlers. Times
-- are nanoseconds. A request carries what the HTTP library reads from it: its cookie, and the body
-- if it decodes. Constant-time comparison is equality of texts.
pub mod Sessions
pub mod Limiter
pub mod Login
use sakura_nexus.Base.{
  ℕ, zero, suc, ◌+◌, ◌*◌, ◌^◌, Bool, true, false, not, ◌&&◌, ◌||◌, Option, none, some, List, [],
  ◌∷◌, ◌++◌, if◌then◌else◌, ◌==◌, ltb, leb,
}
use sakura_nexus.Base.Text.{Text, text, text_eq, is_empty}
use sakura_nexus.Base.Assoc.{lookup, put, remove, text_instance}

-- 12 hours
abbrev pub session_ttl : ℕ
session_ttl = 12 * 3600 * 10 ^ 9

abbrev pub max_login_failures : ℕ
max_login_failures = 5

-- 10 minutes
abbrev pub lockout_duration : ℕ
lockout_duration = 600 * 10 ^ 9

-- `lockedUntil` is `none` for the zero time.
pub record FailState : Type 0 where
  pub count : ℕ
  pub locked_until : Option ℕ

abbrev pub Sessions : Type 0
Sessions = List (Text × ℕ)

abbrev pub Fails : Type 0
Fails = List (Text × FailState)

-- `create`, given the fresh token.
unfoldable pub create : Sessions → ℕ → Text → Sessions × ℕ
create s now token = (put token (now + session_ttl) s, now + session_ttl)

-- An expired session is removed when it is looked up.
unfoldable pub valid : Sessions → ℕ → Text → Sessions × Bool
valid s now token = if is_empty token then (s, false) else elim (lookup token s) [
  | none ↦ (s, false)
  | some expiry ↦ if not (ltb now expiry) then (remove token s, false) else (s, true)
]

unfoldable pub drop_session : Sessions → Text → Sessions
drop_session s token = remove token s

-- `now.Before(lockedUntil)`
unfoldable pub is_before : ℕ → Option ℕ → Bool
is_before now none = false
is_before now (some t) = ltb now t

-- The entry of a lock that has run out is removed.
unfoldable pub locked : Fails → ℕ → Text → Fails × Bool
unfolding is_before
locked l now ip = elim (lookup ip l) [
  | none ↦ (l, false)
  | some st ↦
      if is_before now st.locked_until
      then (l, true)
      else elim st.locked_until [ none ↦ (l, false) | some t ↦ (remove ip l, false) ]
]

unfoldable pub fail_state : Option FailState → FailState
fail_state none = record { count = 0; locked_until = none }
fail_state (some st) = st

unfoldable pub fail : Fails → ℕ → Text → Fails
unfolding fail_state
fail l now ip =
    let st = fail_state (lookup ip l) in
    put ip
      (if leb max_login_failures (st.count + 1)
        then record { count = 0; locked_until = some (now + lockout_duration) }
        else record st { count = st.count + 1 })
      l

unfoldable pub reset : Fails → Text → Fails
reset l ip = remove ip l

-- The host of the remote address, or all of it if it does not split.
unfoldable pub client_ip : Option Text → Text → Text
client_ip none addr = addr
client_ip (some host) addr = host

pub record LoginRequest : Type 0 where
  pub username : Text
  pub password : Text

pub record Server : Type 0 where
  pub username : Text
  pub password : Text
  pub sessions : Sessions
  pub fails : Fails
  pub has_audit_sink : Bool
  -- action and status of the entries that were handed to the sink, the latest first
  pub audited : List (Text × ℕ)

-- The cookies that the handlers set: the session's, or the one that clears it.
pub data Cookie : Type 0 where
  set : Text → Bool → Cookie
  cleared : Bool → Cookie

pub data Body : Type 0 where
  auth_locked validation_error auth_failed unauthorized authenticated logged_out : Body

pub record Response : Type 0 where
  pub status : ℕ
  pub body : Body
  pub cookie : Option Cookie

-- A failure of the sink is logged and nothing else.
unfoldable pub audit_action : Server → Text → ℕ → Server
audit_action s action status =
    if s.has_audit_sink then record s { audited = (action, status) ∷ s.audited } else s

unfoldable pub credentials_ok : Server → LoginRequest → Bool
credentials_ok s req =
    text_eq req.username s.username
    && (text_eq req.password s.password && not (is_empty req.username || is_empty req.password))

unfoldable pub reply : ℕ → Body → Response
reply status body = record { status = status; body = body; cookie = none }

-- The credentials hold: the count of failures is reset and a session begins.
unfoldable pub log_in : Server → ℕ → Text → Bool → Text → Server × Response
unfolding create reset audit_action
log_in s now ip tls token =
    let (sessions, expiry) = create s.sessions now token in
    (
      audit_action (record s { sessions = sessions; fails = reset s.fails ip }) (text "auth.login")
          200,
      record { status = 200; body = authenticated; cookie = some (set token tls) },
    )

-- `seen` is the clock when the lock is tested, `now` when it is read again; `token` is the fresh one.
unfoldable pub handle_login :
    Server → ℕ → ℕ → Text → Bool → Option LoginRequest → Text → Server × Response
unfolding locked fail reply
handle_login s seen now ip tls body token =
    let (fails, is_locked) = locked s.fails seen ip in
    let s' = record s { fails = fails } in
    if is_locked then (s', reply 429 auth_locked) else elim body [
      | none ↦ (s', reply 400 validation_error)
      | some req ↦
          if credentials_ok s req
          then log_in s' now ip tls token
          else (record s' { fails = fail fails now ip }, reply 401 auth_failed)
    ]

unfoldable pub handle_logout : Server → Option Text → Bool → Server × Response
unfolding drop_session audit_action
handle_logout s cookie tls =
    let sessions : Sessions = elim cookie [
      | none ↦ s.sessions
      | some token ↦ drop_session s.sessions token
    ] in
    (
      audit_action (record s { sessions = sessions }) (text "auth.logout") 200,
      record { status = 200; body = logged_out; cookie = some (cleared tls) },
    )

unfoldable pub handle_status : Response
unfolding reply
handle_status = reply 200 authenticated

-- `requireSession`: `none` where the wrapped handler runs, the response where it does not.
unfoldable pub require_session : Server → ℕ → Option Text → Server × Option Response
unfolding valid reply
require_session s now cookie = elim cookie [
  | none ↦ (s, some (reply 401 unauthorized))
  | some token ↦
      let (sessions, ok) = valid s.sessions now token in
      (record s { sessions = sessions }, if ok then none else some (reply 401 unauthorized))
]

unfoldable pub is_write_method : Text → Bool
is_write_method m =
    text_eq m (text "POST")
    || (text_eq m (text "PUT") || (text_eq m (text "DELETE") || text_eq m (text "PATCH")))

-- The audit of `auditWrap` after the handler, which answered with `status`.
unfoldable pub audit_write : Server → Text → Text → ℕ → Server
unfolding is_write_method audit_action
audit_write s method action status =
    if is_write_method method then audit_action s action status else s
