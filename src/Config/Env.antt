-- ===== src/Config/Env.antt =====
-- internal/config/env.go: the configuration from the environment. `os_getenv` and `atoi` are the
-- library's (strconv.Atoi and ParseInt read the same numbers), after the file .env was read.
pub mod Missing
pub mod Complete
use sakura_nexus.Base.{ℕ, Bool, not, Option, none, some, List, [], ◌∷◌, if◌then◌else◌}
use sakura_nexus.Base.Int.{ℤ, pos, ltb_ℤ}
use sakura_nexus.Base.Text.{Text, text, is_empty}

pub record Env : Type 0 where
  pub mysql_host : Text
  pub mysql_port : ℤ
  pub mysql_user : Text
  pub mysql_password : Text
  pub mysql_database : Text
  pub mysql_max_open_conns : ℤ
  pub telegram_bot_token : Text
  pub telegram_api_id : ℤ
  pub telegram_api_hash : Text
  pub userbot_phone_number : Text
  pub qdrant_url : Text
  pub qdrant_api_key : Text
  pub webui_host : Text
  pub webui_port : ℤ
  pub webui_username : Text
  pub webui_password : Text
  pub log_level : Text
  pub shutdown_timeout_seconds : ℤ
  pub media_tmp_dir : Text

pub data Required : Type 0 where
  mysql_password_name api_hash_name api_id_name bot_token_name webui_password_name : Required

-- The keys of `requiredEnv`, in the order of their names, which is that of a list of missing ones.
abbrev pub required : List Required
required =
    mysql_password_name ∷ api_hash_name ∷ api_id_name ∷ bot_token_name ∷ webui_password_name ∷ []

unfoldable pub satisfied : Env → Required → Bool
satisfied e mysql_password_name = not (is_empty e.mysql_password)
satisfied e api_hash_name = not (is_empty e.telegram_api_hash)
satisfied e api_id_name = ltb_ℤ (pos 0) e.telegram_api_id
satisfied e bot_token_name = not (is_empty e.telegram_bot_token)
satisfied e webui_password_name = not (is_empty e.webui_password)

unfoldable pub missing_of : Env → List Required → List Required
unfolding satisfied
missing_of e [] = []
missing_of e (r ∷ rs) = let rest = missing_of e rs in if satisfied e r then rest else r ∷ rest

pub data EnvResult : Type 0 where
  loaded : Env → EnvResult
  missing : List Required → EnvResult
  bad_number : Text → EnvResult

module _ (os_getenv : Text → Text) (atoi : Text → Option ℤ) where
  unfoldable pub getenv : Text → Text → Text
  getenv key def = if is_empty (os_getenv key) then def else os_getenv key

  unfoldable pub getint : Text → ℤ → Option ℤ
  getint key def = if is_empty (os_getenv key) then some def else atoi (os_getenv key)

  unfoldable pub env_of : ℤ → ℤ → ℤ → ℤ → ℤ → Env
  unfolding getenv
  env_of port conns api_id webui_port timeout = record {
    mysql_host = getenv (text "MYSQL_HOST") (text "localhost");
    mysql_port = port;
    mysql_user = getenv (text "MYSQL_USER") (text "sakura");
    mysql_password = os_getenv (text "MYSQL_PASSWORD");
    mysql_database = getenv (text "MYSQL_DATABASE") (text "sakura_bot");
    mysql_max_open_conns = conns;
    telegram_bot_token = os_getenv (text "TELEGRAM_BOT_TOKEN");
    telegram_api_id = api_id;
    telegram_api_hash = os_getenv (text "TELEGRAM_API_HASH");
    userbot_phone_number = os_getenv (text "USERBOT_PHONE_NUMBER");
    qdrant_url = os_getenv (text "QDRANT_URL");
    qdrant_api_key = os_getenv (text "QDRANT_API_KEY");
    webui_host = getenv (text "WEBUI_HOST") (text "127.0.0.1");
    webui_port = webui_port;
    webui_username = getenv (text "WEBUI_USERNAME") (text "admin");
    webui_password = os_getenv (text "WEBUI_PASSWORD");
    log_level = getenv (text "LOG_LEVEL") (text "info");
    shutdown_timeout_seconds = timeout;
    media_tmp_dir = os_getenv (text "MEDIA_TMP_DIR");
  }

  unfoldable pub checked_env : Env → EnvResult
  unfolding missing_of
  checked_env e = elim (missing_of e required) [ [] ↦ loaded e | r ∷ rs ↦ missing (r ∷ rs) ]

  unfoldable pub load_env : EnvResult
  unfolding getint env_of checked_env
  load_env = elim (getint (text "MYSQL_PORT") (pos 3306)) [
    | none ↦ bad_number (text "MYSQL_PORT")
    | some port ↦ elim (getint (text "MYSQL_MAX_OPEN_CONNS") (pos 5)) [
      | none ↦ bad_number (text "MYSQL_MAX_OPEN_CONNS")
      | some conns ↦ elim (getint (text "TELEGRAM_API_ID") (pos 0)) [
        | none ↦ bad_number (text "TELEGRAM_API_ID")
        | some api_id ↦ elim (getint (text "WEBUI_PORT") (pos 8080)) [
          | none ↦ bad_number (text "WEBUI_PORT")
          | some webui_port ↦ elim (getint (text "SHUTDOWN_TIMEOUT_SECONDS") (pos 30)) [
            | none ↦ bad_number (text "SHUTDOWN_TIMEOUT_SECONDS")
            | some timeout ↦ checked_env (env_of port conns api_id webui_port timeout)
          ]
        ]
      ]
    ]
  ]
