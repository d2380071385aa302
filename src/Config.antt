-- ===== src/Config.antt =====
-- internal/config/config.go: the configuration, read from the environment. time.ParseDuration is a
-- parameter, as it computes with floating-point numbers; a duration is in nanoseconds.
pub mod Loaded
pub mod Tests
use kasten_frs_web.Base.{
  nat_eq, text_eq, ◌⊎◌, inl, inr, ◌||◌, Bool, Option, none, some, List, [], ltb, if◌then◌else◌,
  ◌==◌, Str, str, length,
}
use kasten_frs_web.Base.Int.{ℤ}
use kasten_frs_web.Std.Strconv.{parse_int}
use kasten_frs_web.Std.Strings.{split, trim_space}

pub record Config : Type 0 where
  pub listen : Str
  pub port : ℤ
  pub username : Str
  pub password : Str
  pub cookie_secret : Str
  pub session_cookie_name : Str
  pub session_ttl : ℤ
  pub sftp_pool_ttl : ℤ
  pub sftp_connect_timeout : ℤ
  pub frs_port : ℤ
  pub frs_wait_timeout : ℤ
  pub frs_namespace_whitelist : List Str
  pub frs_default_username : Str
  pub private_key_secret_name : Str
  pub private_key_secret_namespace : Str
  pub private_key_field : Str
  pub username_field : Str
  pub k8s_in_cluster : Bool
  pub log_level : Str

-- os.LookupEnv
abbrev pub Env : Type 0
Env = Str → Option Str

-- os.Getenv
abbrev pub text_of : Option Str → Str
text_of none = []
text_of (some v) = v

abbrev pub or_default : Str → Option Str → Str
or_default def none = def
or_default def (some v) = if v == [] then def else v

abbrev pub getenv : Env → Str → Str → Str
getenv env key def = or_default def (env key)

abbrev pub whitelist_of : Str → List Str
whitelist_of ns = if ns == [] then [] else split 44 ns

abbrev pub is_yes : Str → Bool
is_yes v = v == str "true" || (v == str "1" || v == str "yes")

-- The value, or an error that names the variable.
abbrev pub require {ℓ κ} : {A : Type ℓ} {B : Type κ} → Str → Option A → (A → Str ⊎ B) → Str ⊎ B
require name none next = inl name
require name (some v) next = next v

-- The checks at the end of Load.
unfoldable pub checked : Config → Str ⊎ Config
checked c =
    if c.username == []
    then inl (str "HELPER_USERNAME")
    else if c.password == []
    then inl (str "HELPER_PASSWORD")
    else if ltb (length c.cookie_secret) 16
    then inl (str "HELPER_COOKIE_SECRET")
    else inr c

-- The fields of the configuration, given the numbers and durations.
abbrev pub config_from : Env → ℤ → ℤ → ℤ → ℤ → ℤ → ℤ → Config
config_from env port ttl pool_ttl timeout wait frs_port = record {
  listen = getenv env (str "HELPER_LISTEN") (str "0.0.0.0");
  port = port;
  username = text_of (env (str "HELPER_USERNAME"));
  password = text_of (env (str "HELPER_PASSWORD"));
  cookie_secret = text_of (env (str "HELPER_COOKIE_SECRET"));
  session_cookie_name = getenv env (str "HELPER_SESSION_COOKIE") (str "kfrs_sid");
  session_ttl = ttl;
  sftp_pool_ttl = pool_ttl;
  sftp_connect_timeout = timeout;
  frs_port = frs_port;
  frs_wait_timeout = wait;
  frs_namespace_whitelist = whitelist_of (trim_space (getenv env (str "HELPER_FRS_NAMESPACES") []));
  frs_default_username = getenv env (str "HELPER_FRS_DEFAULT_USERNAME") (str "root");
  private_key_secret_name =
      getenv env (str "HELPER_PRIVATE_KEY_SECRET_NAME") (str "kasten-frs-helper-private-key");
  private_key_secret_namespace =
      getenv env (str "HELPER_PRIVATE_KEY_SECRET_NAMESPACE") (str "kasten-io");
  private_key_field = getenv env (str "HELPER_PRIVATE_KEY_SECRET_FIELD") (str "ssh-privatekey");
  username_field = getenv env (str "HELPER_USERNAME_FIELD") (str "username");
  k8s_in_cluster = is_yes (getenv env (str "HELPER_K8S_INCLUSTER") (str "true"));
  log_level = getenv env (str "HELPER_LOG_LEVEL") (str "info");
}

module _ (parse_duration : Str → Option ℤ) (env : Env) where
  abbrev pub duration : Str → Str → Option ℤ
  duration key def = parse_duration (getenv env key def)

  -- Load
  unfoldable pub load : Str ⊎ Config
  load =
      require (str "HELPER_PORT") (parse_int (getenv env (str "HELPER_PORT") (str "8080"))) (λ port.
        require (str "HELPER_SESSION_TTL") (duration (str "HELPER_SESSION_TTL") (str "8h")) (λ ttl.
          require (str "HELPER_SFTP_TTL") (duration (str "HELPER_SFTP_TTL") (str "30m"))
            (λ pool_ttl.
              require (str "HELPER_SFTP_TIMEOUT") (duration (str "HELPER_SFTP_TIMEOUT") (str "10s"))
                (λ timeout.
                  require (str "HELPER_FRS_WAIT_TIMEOUT")
                    (duration (str "HELPER_FRS_WAIT_TIMEOUT") (str "120s"))
                    (λ wait.
                      require (str "HELPER_FRS_PORT")
                        (parse_int (getenv env (str "HELPER_FRS_PORT") (str "2222")))
                        (λ frs_port.
                          checked (config_from env port ttl pool_ttl timeout wait frs_port)))))))
