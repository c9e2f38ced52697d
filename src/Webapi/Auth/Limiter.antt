-- ===== src/Webapi/Auth/Limiter.antt =====
-- The lock after failed logins (internal/webapi/auth.go).
use sakura_nexus.Base.{
  ℕ, ◌+◌, ◌<◌, ◌≡◌, inl, inr, refl, ap, ◌∙◌, Bool, true, false, Option, none, some, List, [], ◌∷◌,
  if◌then◌else◌, ltb, leb, arith, Option-cases, length, All, All-imp,
}
use sakura_nexus.Base.Text.{Text}
use sakura_nexus.Base.Assoc.{lookup, lookup-put, text_instance}
use sakura_nexus.Webapi.Auth.{
  FailState, Fails, Server, LoginRequest, lockout_duration, max_login_failures, is_before, locked,
  fail_state, fail, handle_login, credentials_ok, reply, auth_locked,
}

-- The address has failed `n` times since its last success or lock, and is not locked.
abbrev pub HasFailed : Fails → Text → ℕ → Type 0
HasFailed l ip n = fail_state (lookup ip l) ≡ record { count = n; locked_until = none }

-- An attempt: the two times at which the clock is read, and the request.
abbrev pub Attempt : Type 0
Attempt = ℕ × ℕ × LoginRequest

-- Login attempts from one address, one after another.
unfoldable pub attempts : Server → Text → Bool → Text → List Attempt → Server
attempts s ip tls token [] = s
attempts s ip tls token ((seen, now, req) ∷ rest) =
    attempts (handle_login s seen now ip tls (some req) token).0 ip tls token rest

locked-HasFailed :
    (l : Fails) (now : ℕ) (ip : Text) (n : ℕ) → HasFailed l ip n → locked l now ip ≡ (l, false)
unfolding locked is_before fail_state
locked-HasFailed l now ip n h = elim (Option-cases (lookup ip l)) [
  | inl unknown ↦ rw (unknown, locked) refl
  | inr (st, known) ↦
      let e : st.locked_until ≡ none = ap (λ x. x.locked_until) (rw (known, fail_state) at h) in
      rw (known, locked, e, is_before) refl
]

fail-lookup :
    (l : Fails) (now : ℕ) (ip : Text) (n : ℕ)
    → HasFailed l ip n
    → lookup ip (fail l now ip)
      ≡ some (
          if leb max_login_failures (n + 1)
          then record { count = 0; locked_until = some (now + lockout_duration) }
          else record { count = n + 1; locked_until = none })
unfolding fail
fail-lookup l now ip n h = rw (lookup-put ip ip, text_refl, h, fail) refl
  where
    text_refl : text_instance.beq ip ip ≡ true
    text_refl = (text_instance.beq_iff ip ip).1 refl

-- The request does not carry the credentials of the server.
abbrev pub IsWrong : Server → Attempt → Type 0
IsWrong s (seen, now, req) = credentials_ok s req ≡ false

wrong_login :
    (s : Server) (seen now : ℕ) (ip : Text) (tls : Bool) (req : LoginRequest) (token : Text) (n : ℕ)
    → HasFailed s.fails ip n
    → credentials_ok s req ≡ false
    → (handle_login s seen now ip tls (some req) token).0 ≡ record s { fails = fail s.fails now ip }
unfolding handle_login
wrong_login s seen now ip tls req token n h bad =
    rw (locked-HasFailed s.fails seen ip n h, bad, handle_login) refl

-- When the clock was last read.
unfoldable pub last_now : List Attempt → ℕ
last_now [] = 0
last_now ((seen, now, req) ∷ []) = now
last_now (a ∷ b ∷ rest) = last_now (b ∷ rest)

abbrev lock_until : ℕ → FailState
lock_until t = record { count = 0; locked_until = some (t + lockout_duration) }

fail-HasFailed :
    (l : Fails) (now : ℕ) (ip : Text) (n : ℕ)
    → HasFailed l ip n
    → leb max_login_failures (n + 1) ≡ false
    → HasFailed (fail l now ip) ip (n + 1)
unfolding fail_state
fail-HasFailed l now ip n h room =
    rw (fail-lookup l now ip n h, room) (reads (record { count = n + 1; locked_until = none }))
  where
    reads : (st : FailState) → fail_state (some st) ≡ st
    reads st = refl

same-IsWrong :
    (s : Server) (l : Fails) (tries : List Attempt)
    → All (IsWrong s) tries
    → All (IsWrong (record s { fails = l })) tries
unfolding credentials_ok
same-IsWrong s l tries w = All-imp (IsWrong s) (IsWrong (record s { fails = l })) tries (λ a h. h) w

attempts-lock :
    (s : Server) (ip : Text) (tls : Bool) (token : Text) (tries : List Attempt) (n : ℕ)
    → HasFailed s.fails ip n
    → n < max_login_failures
    → n + length tries ≡ max_login_failures
    → All (IsWrong s) tries
    → lookup ip (attempts s ip tls token tries).fails ≡ some (lock_until (last_now tries))
unfolding attempts last_now
attempts-lock s ip tls token [] n h k e w = absurd (omega arith)
attempts-lock s ip tls token ((seen, now, req) ∷ []) n h k e w =
    let full : leb max_login_failures (n + 1) ≡ true = ground arith in
    rw (wrong_login s seen now ip tls req token n h w.0, fail-lookup s.fails now ip n h, full) refl
attempts-lock s ip tls token ((seen, now, req) ∷ b ∷ rest) n h k e w =
    let room : leb max_login_failures (n + 1) ≡ false = ground arith in
    let s1 : Server = record s { fails = fail s.fails now ip } in
    let h1 : HasFailed s1.fails ip (n + 1) = fail-HasFailed s.fails now ip n h room in
    let step : (handle_login s seen now ip tls (some req) token).0 ≡ s1 =
      wrong_login s seen now ip tls req token n h w.0 in
    ap (λ x. lookup ip (attempts x ip tls token (b ∷ rest)).fails) step
    ∙ attempts-lock s1 ip tls token (b ∷ rest) (n + 1) h1 (omega arith) (omega arith)
        (same-IsWrong s s1.fails (b ∷ rest) w.1)

locked-of-lookup :
    (l : Fails) (seen t : ℕ) (ip : Text)
    → lookup ip l ≡ some (lock_until t)
    → seen < t + lockout_duration
    → locked l seen ip ≡ (l, true)
unfolding locked is_before
locked-of-lookup l seen t ip h k =
    let early : ltb seen (t + lockout_duration) ≡ true = ground arith in rw (h, early, locked) refl

-- Five wrong logins in a row lock an address that has no failures yet: for ten minutes after the
-- fifth every login from it is answered 429, even one with the right credentials, and the server
-- stays as it is.
pub five_wrong_logins-lock :
    (s : Server) (seen now : ℕ) (ip : Text) (tls : Bool) (token : Text) (tries : List Attempt)
    (body : Option LoginRequest)
    → lookup ip s.fails ≡ none
    → length tries ≡ max_login_failures
    → All (IsWrong s) tries
    → seen < last_now tries + lockout_duration
    → handle_login (attempts s ip tls token tries) seen now ip tls body token
      ≡ (attempts s ip tls token tries, reply 429 auth_locked)
unfolding handle_login
five_wrong_logins-lock s seen now ip tls token tries body new five wrong early =
    rw
      (
        locked-of-lookup (attempts s ip tls token tries).fails seen (last_now tries) ip
            (attempts-lock s ip tls token tries 0 (rw (new, fail_state) refl) (omega arith)
              (omega arith) wrong)
            early,
        handle_login,
      )
      refl
