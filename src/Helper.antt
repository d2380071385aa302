-- ===== src/Helper.antt =====
-- run in cmd/helper/main.go: what the helper is put together from, up to the start of its server.
-- The log, the listener and the metrics' registry are left out.
pub mod Starting
mod Tests
use kasten_frs_web.Base.{
  nat_eq, text_eq, inl, inr, ◌⊎◌, true, false, Option, some, List, [], Str, str, none,
}
use kasten_frs_web.Auth.{SessionStore, new_session_store}
use kasten_frs_web.Auth.Gate.{Authenticator}
use kasten_frs_web.Base.Int.{ℤ}
use kasten_frs_web.Config.{Config, Env, or_default, load}
use kasten_frs_web.K8s.Client.{ClientOptions, KubeLib, Client, NewError, new_client}
use kasten_frs_web.KeyMgr.{SecretsApi, SshLib, Manager, KeyError, load_or_generate}
use kasten_frs_web.SftpClient.Dialing.{ClientConfig, SftpDialer, ConfigError, new_sftp_client}
use kasten_frs_web.SftpClient.Pool.{Pool, new_pool, store}
use kasten_frs_web.Startup.{Options, Cluster, Event, run_preflight}

pub data StartError : Type 0 where
  bad_config : Str → StartError
  bad_client : NewError → StartError
  bad_keys : KeyError → StartError
  bad_sftp_client : ConfigError → StartError
  session_store_panic : StartError

-- The parts that run hands to handlers.New, and the preflight's log.
pub record Started (C H S P : Type 0) : Type 0 where
  pub config : Config
  pub client : Client C H
  pub preflight : Option (List Event)
  pub keys : Manager S P
  pub sftp_client : SftpDialer S
  pub pool : Pool
  pub auth : Authenticator
  pub version : Str

-- The initial value of `version`.
abbrev pub version_of : Env → Str
version_of env = or_default (str "dev") (env (str "VERSION"))

abbrev pub authenticator_of : Config → SessionStore → Authenticator
authenticator_of c store = record {
  username = c.username;
  password = c.password;
  sessions = store;
  cookie_name = str "kfrs_sid";
}

abbrev pub client_options : Config → ClientOptions
client_options c = record { in_cluster = c.k8s_in_cluster; kubeconfig = []; fake = false }

module _ {C H K S P T : Type 0} (parse_duration : Str → Option ℤ) (env : Env) (kube : KubeLib C H)
    (net : Cluster (Client C H)) (ssh : SshLib K S P) (secrets_in : Str → SecretsApi T) where
  abbrev pub preflight_options : Config → Client C H → Options (Client C H)
  preflight_options c client = record {
    has_logger = true;
    clientset = some client;
    namespace = c.private_key_secret_namespace;
    secret_name = c.private_key_secret_name;
    service_account_name = [];
    dial_timeout = 5000000000;
    overall_timeout = 30000000000;
  }

  abbrev pub sftp_config : Config → Manager S P → ClientConfig S
  sftp_config c m = record {
    username = c.frs_default_username;
    signer = some m.signer;
    host_key_sig = [];
    connect_timeout = c.sftp_connect_timeout;
  }

  abbrev pub started_with :
      Config → Client C H → Manager S P → SftpDialer S → SessionStore → Started C H S P
  started_with c client m dialer store = record {
    config = c;
    client = client;
    preflight = run_preflight net (preflight_options c client);
    keys = m;
    sftp_client = dialer;
    pool = new_pool c.sftp_pool_ttl;
    auth = authenticator_of c store;
    version = version_of env;
  }

  unfoldable pub with_store :
      Config
      → Client C H
      → Manager S P
      → SftpDialer S
      → Option SessionStore
      → StartError ⊎ Started C H S P
  with_store c client m dialer none = inl session_store_panic
  with_store c client m dialer (some store) = inr (started_with c client m dialer store)

  unfoldable pub with_dialer :
      Config
      → Client C H
      → T × Manager S P
      → ConfigError ⊎ SftpDialer S
      → T × (StartError ⊎ Started C H S P)
  with_dialer c client (t, m) (inl e) = (t, inl (bad_sftp_client e))
  with_dialer c client (t, m) (inr dialer) =
      (t, with_store c client m dialer (new_session_store c.cookie_secret c.session_ttl))

  unfoldable pub with_keys :
      Config → Client C H → T × (KeyError ⊎ Manager S P) → T × (StartError ⊎ Started C H S P)
  with_keys c client (t, inl e) = (t, inl (bad_keys e))
  with_keys c client (t, inr m) =
      with_dialer c client (t, m) (new_sftp_client ssh.parse_authorized_key (sftp_config c m))

  unfoldable pub with_client :
      T → Config → NewError ⊎ Client C H → T × (StartError ⊎ Started C H S P)
  with_client t c (inl e) = (t, inl (bad_client e))
  with_client t c (inr client) =
      with_keys c client (
        load_or_generate ssh (secrets_in c.private_key_secret_namespace) c.private_key_secret_name
          t)

  unfoldable pub with_config : T → Str ⊎ Config → T × (StartError ⊎ Started C H S P)
  with_config t (inl e) = (t, inl (bad_config e))
  with_config t (inr c) = with_client t c (new_client kube (client_options c))

  unfoldable pub run_helper : T → T × (StartError ⊎ Started C H S P)
  run_helper t = with_config t (load parse_duration env)
