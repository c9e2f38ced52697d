-- ===== src/Config/Env/Complete.antt =====
-- internal/config/env.go, `Load`: the environment is complete, or what it lacks is named.
use sakura_nexus.Base.{
  ℕ, zero, suc, ◌≡◌, ◌≢◌, ◌↔◌, ◌⊎◌, inl, inr, refl, true, false, Option, none, some, List, [], ◌∷◌,
  Some, arith, Bool-cases, Option-cases,
}
use sakura_nexus.Base.Int.{ℤ, pos, negsuc, ltb_ℤ}
use sakura_nexus.Base.Text.{Text, text, is_empty}
use sakura_nexus.Config.Env.{
  Env, Required, mysql_password_name, api_hash_name, api_id_name, bot_token_name,
  webui_password_name, required, satisfied, missing_of, EnvResult, loaded, missing, bad_number,
  getenv, getint, env_of, checked_env, load_env,
}
use sakura_nexus.Config.Env.Missing.{
  IsAmong, is_required, List-cases, missing_of-IsAmong, is_empty-nil, is_empty-cons, not_empty,
}

-- The variables that hold numbers.
abbrev pub IsNumeric : Text → Type 0
IsNumeric key =
    Some (λ k. k ≡ key)
      (text "MYSQL_PORT"
        ∷ text "MYSQL_MAX_OPEN_CONNS"
        ∷ text "TELEGRAM_API_ID"
        ∷ text "WEBUI_PORT"
        ∷ text "SHUTDOWN_TIMEOUT_SECONDS"
        ∷ [])

positive :
    (n : ℤ) (t : Option ℤ)
    → t ≡ some n
    → (ltb_ℤ (pos 0) n ≡ true) ↔ ((k : ℕ) × (t ≡ some (pos (suc k))))
positive (pos zero) t e = (λ h. absurd (ground (arith, h)), λ (k, f). ground (arith, e, f))
positive (pos (suc k)) t e = (λ h. (k, e), λ h. ground arith)
positive (negsuc k) t e = (λ h. absurd (ground (arith, h)), λ (j, f). ground (arith, e, f))

-- The test on a number that is 0 where its variable is not set.
above_zero :
    (n : ℤ) (t : Text) (r : Option ℤ)
    → ((t ≡ []) × (n ≡ pos 0)) ⊎ ((t ≢ []) × (r ≡ some n))
    → (ltb_ℤ (pos 0) n ≡ true) ↔ ((t ≢ []) × ((k : ℕ) × (r ≡ some (pos (suc k)))))
above_zero n t r (inl (unset, zeroed)) =
    (λ h. absurd (ground (arith, rw zeroed at h)), λ k. absurd (k.0 unset))
above_zero n t r (inr (set, number)) =
    (λ h. (set, (positive n r number).0 h), λ k. (positive n r number).1 k.1)

module _ (os_getenv : Text → Text) (atoi : Text → Option ℤ) where
  -- A variable that is not set reads as its default.
  abbrev pub IsText : Text → Text → Text → Type 0
  IsText key def v =
      ((os_getenv key ≡ []) × (v ≡ def)) ⊎ ((os_getenv key ≢ []) × (v ≡ os_getenv key))

  abbrev pub IsNumber : Text → ℤ → ℤ → Type 0
  IsNumber key def n =
      ((os_getenv key ≡ []) × (n ≡ def)) ⊎ ((os_getenv key ≢ []) × (atoi (os_getenv key) ≡ some n))

  -- Each field is what its variable says.
  pub record IsRead (e : Env) : Type 0 where
    pub host : IsText (text "MYSQL_HOST") (text "localhost") e.mysql_host
    pub port : IsNumber (text "MYSQL_PORT") (pos 3306) e.mysql_port
    pub user : IsText (text "MYSQL_USER") (text "sakura") e.mysql_user
    pub db_password : e.mysql_password ≡ os_getenv (text "MYSQL_PASSWORD")
    pub database : IsText (text "MYSQL_DATABASE") (text "sakura_bot") e.mysql_database
    pub conns : IsNumber (text "MYSQL_MAX_OPEN_CONNS") (pos 5) e.mysql_max_open_conns
    pub bot_token : e.telegram_bot_token ≡ os_getenv (text "TELEGRAM_BOT_TOKEN")
    pub api_id : IsNumber (text "TELEGRAM_API_ID") (pos 0) e.telegram_api_id
    pub api_hash : e.telegram_api_hash ≡ os_getenv (text "TELEGRAM_API_HASH")
    pub phone : e.userbot_phone_number ≡ os_getenv (text "USERBOT_PHONE_NUMBER")
    pub qdrant : e.qdrant_url ≡ os_getenv (text "QDRANT_URL")
    pub qdrant_key : e.qdrant_api_key ≡ os_getenv (text "QDRANT_API_KEY")
    pub web_host : IsText (text "WEBUI_HOST") (text "127.0.0.1") e.webui_host
    pub web_port : IsNumber (text "WEBUI_PORT") (pos 8080) e.webui_port
    pub web_user : IsText (text "WEBUI_USERNAME") (text "admin") e.webui_username
    pub web_password : e.webui_password ≡ os_getenv (text "WEBUI_PASSWORD")
    pub level : IsText (text "LOG_LEVEL") (text "info") e.log_level
    pub timeout : IsNumber (text "SHUTDOWN_TIMEOUT_SECONDS") (pos 30) e.shutdown_timeout_seconds
    pub tmp_dir : e.media_tmp_dir ≡ os_getenv (text "MEDIA_TMP_DIR")

  -- A required variable is there: the texts are not empty, and the id is a number above 0.
  abbrev pub IsThere : Required → Type 0
  IsThere mysql_password_name = os_getenv (text "MYSQL_PASSWORD") ≢ []
  IsThere api_hash_name = os_getenv (text "TELEGRAM_API_HASH") ≢ []
  IsThere api_id_name =
      (os_getenv (text "TELEGRAM_API_ID") ≢ [])
      × ((n : ℕ) × (atoi (os_getenv (text "TELEGRAM_API_ID")) ≡ some (pos (suc n))))
  IsThere bot_token_name = os_getenv (text "TELEGRAM_BOT_TOKEN") ≢ []
  IsThere webui_password_name = os_getenv (text "WEBUI_PASSWORD") ≢ []

  -- The three ways in which the reading of the environment ends: all that is required is there, and each
  -- field is read from its variable; exactly what is named is not there; or a variable that is set and
  -- should be a number is none.
  pub data Complete : EnvResult → Type 0 where
    all_there : (e : Env) → IsRead e → ((r : Required) → IsThere r) → Complete (loaded e)
    lacking :
        (q : Required) (rs : List Required)
        → ((r : Required) → IsAmong r (q ∷ rs) ↔ (¬ IsThere r))
        → Complete (missing (q ∷ rs))
    no_number :
        (key : Text)
        → IsNumeric key
        → os_getenv key ≢ []
        → atoi (os_getenv key) ≡ none
        → Complete (bad_number key)

  getenv-IsText : (key def : Text) → IsText key def (getenv os_getenv atoi key def)
  unfolding getenv
  getenv-IsText key def = elim (Bool-cases (is_empty (os_getenv key))) [
    | inl unset ↦ rw unset (inl (is_empty-nil (os_getenv key) unset, refl))
    | inr set ↦ rw set (inr (is_empty-cons (os_getenv key) set, refl))
  ]

  getint-IsNumber :
      (key : Text) (def n : ℤ) → getint os_getenv atoi key def ≡ some n → IsNumber key def n
  unfolding getint
  getint-IsNumber key def n h = elim (Bool-cases (is_empty (os_getenv key))) [
    | inl unset ↦ inl (is_empty-nil (os_getenv key) unset, ground (arith, h, unset))
    | inr set ↦ inr (is_empty-cons (os_getenv key) set, ground (arith, h, set))
  ]

  getint-none :
      (key : Text) (def : ℤ)
      → IsNumeric key
      → getint os_getenv atoi key def ≡ none
      → Complete (bad_number key)
  unfolding getint
  getint-none key def among h =
      no_number key among (is_empty-cons (os_getenv key) (ground (arith, h))) (ground (arith, h))

  satisfied-IsThere : (e : Env) → IsRead e → (r : Required) → (satisfied e r ≡ true) ↔ IsThere r
  unfolding satisfied
  satisfied-IsThere e h mysql_password_name = rw h.db_password (not_empty _)
  satisfied-IsThere e h api_hash_name = rw h.api_hash (not_empty _)
  satisfied-IsThere e h api_id_name = above_zero e.telegram_api_id _ _ h.api_id
  satisfied-IsThere e h bot_token_name = rw h.bot_token (not_empty _)
  satisfied-IsThere e h webui_password_name = rw h.web_password (not_empty _)

  false-IsThere : (e : Env) (r : Required) → IsRead e → (satisfied e r ≡ false) ↔ (¬ IsThere r)
  false-IsThere e r h = elim (Bool-cases (satisfied e r)) [
    | inl fine ↦ (
      λ bad. absurd (ground (arith, fine, bad)),
      λ n. absurd (n ((satisfied-IsThere e h r).0 fine)),
    )
    | inr bad ↦ (
      λ same there. let fine = (satisfied-IsThere e h r).1 there in ground (arith, fine, bad),
      λ n. bad,
    )
  ]

  checked_env-Complete : (e : Env) → IsRead e → Complete (checked_env os_getenv atoi e)
  unfolding checked_env
  checked_env-Complete e h = elim (List-cases (missing_of e required)) [
    | inl whole ↦
        rw (whole, checked_env)
          (all_there e h (λ r. elim (Bool-cases (satisfied e r)) [
            | inl fine ↦ (satisfied-IsThere e h r).0 fine
            | inr bad ↦
                absurd (rw whole at (missing_of-IsAmong e r required).1 (is_required r, bad))
          ]))
    | inr (q, rs, gap) ↦
        rw (gap, checked_env)
          (lacking q rs (λ r. (
            λ k. (false-IsThere e r h).0 ((missing_of-IsAmong e r required).0 (rw gap k)).1,
            λ n.
                rw gap at (missing_of-IsAmong e r required).1
                  (is_required r, (false-IsThere e r h).1 n),
          )))
  ]

  env_of-IsRead :
      (port conns api_id webui_port timeout : ℤ)
      → getint os_getenv atoi (text "MYSQL_PORT") (pos 3306) ≡ some port
      → getint os_getenv atoi (text "MYSQL_MAX_OPEN_CONNS") (pos 5) ≡ some conns
      → getint os_getenv atoi (text "TELEGRAM_API_ID") (pos 0) ≡ some api_id
      → getint os_getenv atoi (text "WEBUI_PORT") (pos 8080) ≡ some webui_port
      → getint os_getenv atoi (text "SHUTDOWN_TIMEOUT_SECONDS") (pos 30) ≡ some timeout
      → IsRead (env_of os_getenv atoi port conns api_id webui_port timeout)
  unfolding env_of
  env_of-IsRead port conns api_id webui_port timeout a b c d f = record {
    host = getenv-IsText _ _;
    port = getint-IsNumber _ _ port a;
    user = getenv-IsText _ _;
    db_password = refl;
    database = getenv-IsText _ _;
    conns = getint-IsNumber _ _ conns b;
    bot_token = refl;
    api_id = getint-IsNumber _ _ api_id c;
    api_hash = refl;
    phone = refl;
    qdrant = refl;
    qdrant_key = refl;
    web_host = getenv-IsText _ _;
    web_port = getint-IsNumber _ _ webui_port d;
    web_user = getenv-IsText _ _;
    web_password = refl;
    level = getenv-IsText _ _;
    timeout = getint-IsNumber _ _ timeout f;
    tmp_dir = refl;
  }

  -- The reading of the environment ends in one of three ways. All that is required is there, and each
  -- field of the result is what its variable says, or the default where it is not set; or some of what is
  -- required is not there, and exactly that is named; or a variable that is set and should be a number is
  -- none, and that is named. Required are four texts that are not empty and an id above 0.
  pub load_env-Complete : Complete (load_env os_getenv atoi)
  unfolding load_env
  load_env-Complete = elim (Option-cases (getint os_getenv atoi (text "MYSQL_PORT") (pos 3306))) [
    | inl bad ↦ rw (bad, load_env) (getint-none (text "MYSQL_PORT") (pos 3306) (inl refl) bad)
    | inr (port, a) ↦
        elim (Option-cases (getint os_getenv atoi (text "MYSQL_MAX_OPEN_CONNS") (pos 5))) [
          | inl bad ↦
              rw (a, load_env, bad)
                (getint-none (text "MYSQL_MAX_OPEN_CONNS") (pos 5) (inr (inl refl)) bad)
          | inr (conns, b) ↦
              elim (Option-cases (getint os_getenv atoi (text "TELEGRAM_API_ID") (pos 0))) [
                | inl bad ↦
                    rw (a, load_env, b, bad)
                      (getint-none (text "TELEGRAM_API_ID") (pos 0) (inr (inr (inl refl))) bad)
                | inr (api_id, c) ↦
                    elim (Option-cases (getint os_getenv atoi (text "WEBUI_PORT") (pos 8080))) [
                      | inl bad ↦
                          rw (a, load_env, b, c, bad)
                            (getint-none (text "WEBUI_PORT") (pos 8080) (inr (inr (inr (inl refl))))
                              bad)
                      | inr (webui_port, d) ↦
                          elim (Option-cases
                            (getint os_getenv atoi (text "SHUTDOWN_TIMEOUT_SECONDS") (pos 30))) [
                              | inl bad ↦
                                  rw (a, load_env, b, c, d, bad)
                                    (getint-none (text "SHUTDOWN_TIMEOUT_SECONDS") (pos 30)
                                      (inr (inr (inr (inr (inl refl))))) bad)
                              | inr (timeout, f) ↦
                                  rw (a, load_env, b, c, d, f)
                                    (checked_env-Complete
                                      (env_of os_getenv atoi port conns api_id webui_port timeout)
                                      (env_of-IsRead port conns api_id webui_port timeout a b c d
                                        f))
                            ]
                    ]
              ]
        ]
  ]
