-- ===== src/K8s/Client.antt =====
-- internal/k8s/client.go: the client that NewClient builds, and its raw requests. client-go and
-- net/http are parameters; `none` is an error of theirs.
pub mod Requests
use kasten_frs_web.Base.{
  ℕ, Bool, true, false, Option, none, some, ltb, leb, if◌then◌else◌, ◌==◌, Str, str, nat_eq,
  text_eq, ◌⊎◌, inl, inr, ◌||◌, ◌++◌, take, length, ◌∷◌, [], not,
}

pub record ClientOptions : Type 0 where
  pub in_cluster : Bool
  pub kubeconfig : Str
  pub fake : Bool

-- What NewClient calls of client-go and of the system: a configuration (C) and an HTTP client (H).
pub record KubeLib (C H : Type 0) : Type 0 where
  pub user_home_dir : Str
  pub in_cluster_config : Option C
  pub build_config_from_flags : Str → Option C
  pub core_for_config : C → Bool
  pub dynamic_for_config : C → Bool
  pub config_host : C → Str
  pub http_client_for : C → Option H

-- Client, without the two clientsets, which every client has.
pub record Client (C H : Type 0) : Type 0 where
  pub cfg : Option C
  pub http : Option H
  pub is_fake : Bool
  pub host_base : Str

pub data NewError : Type 0 where
  no_config : NewError
  no_core : NewError
  no_dynamic : NewError
  no_http : NewError

-- An answer of the API server: its status, and its body, if it can be read.
pub record Reply : Type 0 where
  pub status : ℕ
  pub body : Option Str

pub data RequestError : Type 0 where
  fake_mode : RequestError
  no_http_client : RequestError
  bad_request : RequestError
  not_done : RequestError
  not_read : RequestError
  refused : ℕ → Str → RequestError

module _ {C H : Type 0} (lib : KubeLib C H) where
  -- filepath.Join of a home directory that has no slash at its end, as os.UserHomeDir gives it.
  unfoldable pub kubeconfig_path : Str → Str
  kubeconfig_path kubeconfig =
      if kubeconfig == []
      then if lib.user_home_dir == [] then kubeconfig else lib.user_home_dir ++ str "/.kube/config"
      else kubeconfig

  abbrev pub client_config : ClientOptions → Option C
  client_config opts =
      if opts.in_cluster
      then lib.in_cluster_config
      else lib.build_config_from_flags (kubeconfig_path opts.kubeconfig)

  abbrev pub host_base_of : C → Str
  host_base_of cfg =
      if lib.config_host cfg == []
      then str "https://kubernetes.default.svc"
      else lib.config_host cfg

  unfoldable pub client_of_http : C → Option H → NewError ⊎ Client C H
  client_of_http cfg none = inl no_http
  client_of_http cfg (some http) =
      inr
        (record { cfg = some cfg; http = some http; is_fake = false; host_base = host_base_of cfg })

  unfoldable pub client_of_config : Option C → NewError ⊎ Client C H
  client_of_config none = inl no_config
  client_of_config (some cfg) =
      if not (lib.core_for_config cfg)
      then inl no_core
      else if not (lib.dynamic_for_config cfg)
      then inl no_dynamic
      else client_of_http cfg (lib.http_client_for cfg)

  unfoldable pub new_client : ClientOptions → NewError ⊎ Client C H
  new_client opts =
      if opts.fake
      then inr (record { cfg = none; http = none; is_fake = true; host_base = [] })
      else client_of_config (client_config opts)

-- The first 200 bytes, and an ellipsis (in UTF-8) for what follows.
unfoldable pub snippet : Str → Str
snippet b = if leb (length b) 200 then b else take 200 b ++ (226 ∷ 128 ∷ 166 ∷ [])

unfoldable pub reply_body : ℕ → Option Str → RequestError ⊎ Str
reply_body status none = inl not_read
reply_body status (some body) =
    if ltb status 200 || leb 300 status then inl (refused status (snippet body)) else inr body

unfoldable pub reply_of : Option Reply → RequestError ⊎ Str
reply_of none = inl not_done
reply_of (some r) = reply_body r.status r.body

module _ {H R : Type 0} (send : H → R → Option Reply) where
  unfoldable pub send_request : H → Option R → RequestError ⊎ Str
  send_request http none = inl bad_request
  send_request http (some req) = reply_of (send http req)

module _ {C H R : Type 0} (new_request : Str → Str → Option R) (send : H → R → Option Reply) where
  unfoldable pub with_http : Client C H → Str → Str → Option H → RequestError ⊎ Str
  with_http c method path none = inl no_http_client
  with_http c method path (some http) =
      send_request send http (new_request method (c.host_base ++ path))

  -- doK8sRequest, with http.NewRequest (method and URL) and the client's Do.
  unfoldable pub do_k8s_request : Client C H → Str → Str → RequestError ⊎ Str
  do_k8s_request c method path = if c.is_fake then inl fake_mode else with_http c method path c.http
