-- ===== src/Webapi/Auth/Login.antt =====
-- internal/webapi/auth.go, `handleLogin`: who is let in, and who is locked out.
use sakura_nexus.Base.{
  ℕ, ◌<◌, ◌≡◌, ◌≢◌, ◌↔◌, inl, inr, refl, Bool, true, false, Option, none, some, [], ◌∷◌, arith,
  Bool-cases, Option-cases,
}
use sakura_nexus.Base.Text.{Text, is_empty, text_eq→eq, text_eq_refl}
use sakura_nexus.Base.Assoc.{lookup, text_instance}
use sakura_nexus.Webapi.Auth.{
  FailState, Fails, Server, LoginRequest, is_before, locked, log_in, handle_login, reply,
  credentials_ok,
}

-- The address has an entry whose lock lasts beyond `seen`.
abbrev pub IsLocked : Fails → ℕ → Text → Type 0
IsLocked fails seen ip =
    (st : FailState) × (t : ℕ) × (lookup ip fails ≡ some st)
    × (st.locked_until ≡ some t)
    × (seen < t)

-- The body decodes to the name and the password of the server, and neither is empty.
abbrev pub IsRight : Server → Option LoginRequest → Type 0
IsRight s body =
    (body ≡ some (record { username = s.username; password = s.password }))
    × (s.username ≢ [])
    × (s.password ≢ [])

is_empty-nil : (t : Text) → is_empty t ≡ false → t ≢ []
unfolding is_empty
is_empty-nil [] h e = ground (arith, h)
is_empty-nil (c ∷ t) h e = ground (arith, e)

nil-is_empty : (t : Text) → t ≢ [] → is_empty t ≡ false
unfolding is_empty
nil-is_empty [] h = absurd (h refl)
nil-is_empty (c ∷ t) h = refl

credentials_ok-IsRight :
    (s : Server) (req : LoginRequest) → credentials_ok s req ≡ true → IsRight s (some req)
unfolding credentials_ok
credentials_ok-IsRight s req h =
    let name : req.username ≡ s.username = text_eq→eq req.username s.username (ground (arith, h)) in
    let word : req.password ≡ s.password = text_eq→eq req.password s.password (ground (arith, h)) in
    let a : is_empty req.username ≡ false = ground (arith, h) in
    let b : is_empty req.password ≡ false = ground (arith, h) in
    (cc, is_empty-nil s.username (cc), is_empty-nil s.password (cc))

IsRight-credentials_ok :
    (s : Server) (req : LoginRequest) → IsRight s (some req) → credentials_ok s req ≡ true
unfolding credentials_ok
IsRight-credentials_ok s req (same, a, b) =
    let known : req ≡ record { username = s.username; password = s.password } = cc in
    let name = nil-is_empty s.username a in
    let word = nil-is_empty s.password b in
    ground (arith, known, name, word, text_eq_refl s.username, text_eq_refl s.password)

locked-IsLocked :
    (l : Fails) (seen : ℕ) (ip : Text) → (locked l seen ip).1 ≡ true → IsLocked l seen ip
unfolding locked is_before
locked-IsLocked l seen ip h = elim (Option-cases (lookup ip l)) [
  | inl unknown ↦ absurd (ground (arith, unknown, h))
  | inr (st, known) ↦ elim (Option-cases st.locked_until) [
    | inl never ↦ absurd (ground (arith, known, never, h))
    | inr (t, until) ↦ (st, t, known, until, ground (arith, known, until, h))
  ]
]

IsLocked-locked :
    (l : Fails) (seen : ℕ) (ip : Text) → IsLocked l seen ip → (locked l seen ip).1 ≡ true
unfolding locked is_before
IsLocked-locked l seen ip (st, t, known, until, before) = ground (arith, known, until, before)

not_locked :
    (l : Fails) (seen : ℕ) (ip : Text) → (locked l seen ip).1 ≡ false → ¬ IsLocked l seen ip
not_locked l seen ip passes h =
    let shut = IsLocked-locked l seen ip h in ground (arith, passes, shut)

not-IsRight :
    (s : Server) (req : LoginRequest) → credentials_ok s req ≡ false → ¬ IsRight s (some req)
not-IsRight s req bad h = let ok = IsRight-credentials_ok s req h in ground (arith, bad, ok)

none-IsRight : (s : Server) → ¬ IsRight s none
none-IsRight s h = let e = h.0 in ground (arith, e)

-- What is stated of a status of the answer, for a lock and a body.
abbrev Says : ℕ → Type 0 → Type 0 → Type 0
Says status shut right = ((status ≡ 429) ↔ shut) × ((status ≡ 200) ↔ ((¬ shut) × right))

Says-shut : (shut right : Type 0) → shut → Says 429 shut right
Says-shut shut right h = ((λ e. h, λ k. refl), (λ e. absurd (omega arith), λ k. absurd (k.0 h)))

Says-right : (shut right : Type 0) → ¬ shut → right → Says 200 shut right
Says-right shut right n r =
    ((λ e. absurd (omega arith), λ h. absurd (n h)), (λ e. (n, r), λ k. refl))

Says-wrong :
    (status : ℕ) (shut right : Type 0)
    → status ≢ 429
    → status ≢ 200
    → ¬ shut
    → ¬ right
    → Says status shut right
Says-wrong status shut right a b n r =
    ((λ e. absurd (a e), λ h. absurd (n h)), (λ e. absurd (b e), λ k. absurd (r k.1)))

-- A login is answered with 429 exactly when its address has a lock that lasts beyond the time of the
-- test, and with 200 exactly when it has none and the body decodes to the name and the password of the
-- server, neither of which is empty.
pub handle_login-status :
    (s : Server) (seen now : ℕ) (ip : Text) (tls : Bool) (body : Option LoginRequest) (token : Text)
    → (((handle_login s seen now ip tls body token).1.status ≡ 429) ↔ IsLocked s.fails seen ip)
      × (((handle_login s seen now ip tls body token).1.status ≡ 200)
          ↔ ((¬ IsLocked s.fails seen ip) × IsRight s body))
unfolding handle_login log_in reply
handle_login-status s seen now ip tls body token = elim (Bool-cases (locked s.fails seen ip).1) [
  | inl shut ↦
      rw (shut, handle_login)
        (Says-shut (IsLocked s.fails seen ip) (IsRight s body)
          (locked-IsLocked s.fails seen ip shut))
  | inr passes ↦
      let open_door = not_locked s.fails seen ip passes in
      elim (Option-cases body) [
        | inl garbled ↦
            rw (passes, garbled, handle_login)
              (Says-wrong 400 (IsLocked s.fails seen ip) (IsRight s none) (λ e. omega arith)
                (λ e. omega arith) open_door (none-IsRight s))
        | inr (req, decoded) ↦ elim (Bool-cases (credentials_ok s req)) [
          | inl ok ↦
              rw (passes, decoded, ok, handle_login)
                (Says-right (IsLocked s.fails seen ip) (IsRight s (some req)) open_door
                  (credentials_ok-IsRight s req ok))
          | inr bad ↦
              rw (passes, decoded, bad, handle_login)
                (Says-wrong 401 (IsLocked s.fails seen ip) (IsRight s (some req)) (λ e. omega arith)
                  (λ e. omega arith) open_door (not-IsRight s req bad))
        ]
      ]
]
