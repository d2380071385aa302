-- ===== src/Helper/Starting.antt =====
-- A helper that starts is wired to its configuration and its keys, and it starts when these are there.
use kasten_frs_web.Base.{
  nat_eq, text_eq, inl, inr, ◌≡◌, refl, subst, ◌≢◌, ◌⊎◌, false, Option, some, List, [], arith, ltb,
  Bool-cases, ◌==◌, text_beq, eq_ne, Str, str, length,
}
use kasten_frs_web.Auth.{SessionStore, new_session_store}
use kasten_frs_web.Base.Int.{ℤ}
use kasten_frs_web.Config.{Config, Env, load}
use kasten_frs_web.Config.Loaded.{IsUsable, loaded-IsComplete}
use kasten_frs_web.Helper.{
  StartError, session_store_panic, Started, client_options, sftp_config, started_with, with_store,
  with_dialer, with_keys, with_client, with_config, run_helper,
}
use kasten_frs_web.K8s.Client.{KubeLib, Client, NewError, new_client}
use kasten_frs_web.KeyMgr.{
  SecretsApi, SecretsLaws, SshLib, SshLaws, Manager, KeyError, load_or_generate,
}
use kasten_frs_web.KeyMgr.Again.{Keeps, load_or_generate-Keeps}
use kasten_frs_web.SftpClient.Dialing.{SftpDialer, ConfigError, signer_checked, new_sftp_client}
use kasten_frs_web.SftpClient.Pool.{new_pool}
use kasten_frs_web.Startup.{Cluster, Event, run_preflight}

module _ {C H K S P T : Type 0} (parse_duration : Str → Option ℤ) (env : Env) (kube : KubeLib C H)
    (net : Cluster (Client C H)) (ssh : SshLib K S P) (secrets_in : Str → SecretsApi T)
    (ssh_laws : SshLaws ssh) (laws : (ns : Str) → SecretsLaws (secrets_in ns)) where
  -- What a helper that has started is made from.
  pub record IsWired (u : T) (h : Started C H S P) : Type 0 where
    pub usable : IsUsable h.config
    pub kept :
        Keeps ssh ssh_laws
          (secrets_in h.config.private_key_secret_namespace)
          (laws h.config.private_key_secret_namespace)
          h.config.private_key_secret_name
          u
          h.keys
    pub dials_as :
        (h.sftp_client.username ≡ h.config.frs_default_username)
        × (h.sftp_client.signer ≡ h.keys.signer)
    pub empty_pool : h.pool ≡ new_pool h.config.sftp_pool_ttl
    pub login :
        (h.auth.username ≡ h.config.username)
        × (h.auth.password ≡ h.config.password)
        × (h.auth.sessions.secret ≡ h.config.cookie_secret)
    pub cookie : h.auth.cookie_name ≡ str "kfrs_sid"
    pub checked : (log : List Event) × (h.preflight ≡ some log)

  dialer-of :
      (c : Config) (m : Manager S P) (d : SftpDialer S)
      → new_sftp_client ssh.parse_authorized_key
          (sftp_config parse_duration env kube net ssh secrets_in c m)
        ≡ inr d
      → (d.username ≡ c.frs_default_username) × (d.signer ≡ m.signer)
  unfolding new_sftp_client signer_checked text_beq
  dialer-of c m d e = elim (Bool-cases (c.frs_default_username == [])) [
    | inl y ↦ let k = rw y at e in cc
    | inr n ↦ let k = rw n at e in (cc, cc)
  ]

  store-of :
      (c : Config)
      → IsUsable c
      → new_session_store c.cookie_secret c.session_ttl
        ≡ some (record { secret = c.cookie_secret; ttl = c.session_ttl })
  unfolding new_session_store
  store-of c u =
      let long : ltb (length c.cookie_secret) 16 ≡ false = ground (arith, u.long_secret) in
      rw long refl

  -- What is asked of a result.
  pub IsFine : T → StartError ⊎ Started C H S P → Type 0
  IsFine u (inr h) = IsWired u h
  IsFine u (inl e) = e ≢ session_store_panic

  with_dialer-IsFine :
      (t : T) (c : Config) (client : Client C H) (m : Manager S P) (r : ConfigError ⊎ SftpDialer S)
      → IsUsable c
      → Keeps ssh ssh_laws
          (secrets_in c.private_key_secret_namespace)
          (laws c.private_key_secret_namespace)
          c.private_key_secret_name
          t
          m
      → new_sftp_client ssh.parse_authorized_key
          (sftp_config parse_duration env kube net ssh secrets_in c m)
        ≡ r
      → IsFine
          (with_dialer parse_duration env kube net ssh secrets_in c client (t, m) r).0
          (with_dialer parse_duration env kube net ssh secrets_in c client (t, m) r).1
  unfolding with_dialer with_store run_preflight IsFine
  with_dialer-IsFine t c client m (inl x) usable kept d = λ e. cc
  with_dialer-IsFine t c client m (inr dialer) usable kept d = rw (store-of c usable) (record {
    usable = usable;
    kept = kept;
    dials_as = dialer-of c m dialer d;
    empty_pool = refl;
    login = (refl, refl, refl);
    cookie = refl;
    checked = (_, refl);
  })

  with_keys-IsFine :
      (t : T) (c : Config) (client : Client C H) (r : T × (KeyError ⊎ Manager S P))
      → IsUsable c
      → load_or_generate ssh (secrets_in c.private_key_secret_namespace) c.private_key_secret_name t
        ≡ r
      → IsFine
          (with_keys parse_duration env kube net ssh secrets_in c client r).0
          (with_keys parse_duration env kube net ssh secrets_in c client r).1
  unfolding with_keys IsFine
  with_keys-IsFine t c client (u, inl x) usable k = λ e. cc
  with_keys-IsFine t c client (u, inr m) usable k =
      with_dialer-IsFine u c client m _ usable
        (load_or_generate-Keeps ssh ssh_laws (secrets_in c.private_key_secret_namespace)
          (laws c.private_key_secret_namespace) c.private_key_secret_name t u m k).0
        refl

  with_client-IsFine :
      (t : T) (c : Config) (r : NewError ⊎ Client C H)
      → IsUsable c
      → IsFine
          (with_client parse_duration env kube net ssh secrets_in t c r).0
          (with_client parse_duration env kube net ssh secrets_in t c r).1
  unfolding with_client IsFine
  with_client-IsFine t c (inl x) usable = λ e. cc
  with_client-IsFine t c (inr client) usable = with_keys-IsFine t c client _ usable refl

  with_config-IsFine :
      (t : T) (r : Str ⊎ Config)
      → load parse_duration env ≡ r
      → IsFine
          (with_config parse_duration env kube net ssh secrets_in t r).0
          (with_config parse_duration env kube net ssh secrets_in t r).1
  unfolding with_config IsFine
  with_config-IsFine t (inl x) l = λ e. cc
  with_config-IsFine t (inr c) l =
      with_client-IsFine t c _ (loaded-IsComplete parse_duration env c l).0

  -- However the start ends, the session store's constructor does not panic, and a helper that starts
  -- is wired to its configuration and its keys.
  pub run_helper-IsFine :
      (t : T)
      → IsFine
          (run_helper parse_duration env kube net ssh secrets_in t).0
          (run_helper parse_duration env kube net ssh secrets_in t).1
  unfolding run_helper
  run_helper-IsFine t = with_config-IsFine t _ refl

  dialer_for : (c : Config) (m : Manager S P) → SftpDialer S
  dialer_for c m = record {
    username = c.frs_default_username;
    signer = m.signer;
    timeout = c.sftp_connect_timeout;
  }

  dialer_made :
      (c : Config) (m : Manager S P)
      → c.frs_default_username ≢ []
      → new_sftp_client ssh.parse_authorized_key
          (sftp_config parse_duration env kube net ssh secrets_in c m)
        ≡ inr (dialer_for c m)
  unfolding new_sftp_client signer_checked text_beq dialer_for
  dialer_made c m n = rw (eq_ne c.frs_default_username [] n) refl

  store_for : Config → SessionStore
  store_for c = record { secret = c.cookie_secret; ttl = c.session_ttl }

  helper_for : Config → Client C H → Manager S P → Started C H S P
  helper_for c client m =
      started_with parse_duration env kube net ssh secrets_in c client m (dialer_for c m)
        (store_for c)

  run_helper_eq :
      (t u : T) (c : Config) (client : Client C H) (m : Manager S P)
      → load parse_duration env ≡ inr c
      → new_client kube (client_options c) ≡ inr client
      → load_or_generate ssh (secrets_in c.private_key_secret_namespace) c.private_key_secret_name t
        ≡ (u, inr m)
      → c.frs_default_username ≢ []
      → run_helper parse_duration env kube net ssh secrets_in t ≡ (u, inr (helper_for c client m))
  unfolding run_helper with_config with_client with_keys with_dialer with_store helper_for store_for
  run_helper_eq t u c client m l k g n = rw l (
      rw k (
        rw g (
          rw (dialer_made c m n)
            (rw (store-of c (loaded-IsComplete parse_duration env c l).0) refl))))

  -- Given a configuration that loads, with a name to log in with at an FRS, a client for the
  -- cluster and a key pair, and documented behaviour of the Secrets and of package ssh: the helper
  -- starts, with a usable configuration, the key pair that the Secret holds, an SFTP client with
  -- that key and name, an empty pool, and the configured login; its cookie is called kfrs_sid,
  -- whatever the configuration says.
  pub run_helper-IsWired :
      (t u : T) (c : Config) (client : Client C H) (m : Manager S P)
      → load parse_duration env ≡ inr c
      → new_client kube (client_options c) ≡ inr client
      → load_or_generate ssh (secrets_in c.private_key_secret_namespace) c.private_key_secret_name t
        ≡ (u, inr m)
      → c.frs_default_username ≢ []
      → (h : Started C H S P) × (run_helper parse_duration env kube net ssh secrets_in t
          ≡ (u, inr h))
        × IsWired u h
  unfolding IsFine
  run_helper-IsWired t u c client m l k g n =
      let started = run_helper_eq t u c client m l k g n in
      (helper_for c client m, started, subst (λ r. IsFine r.0 r.1) started (run_helper-IsFine t))
