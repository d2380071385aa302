-- ===== src/Startup.antt =====
-- internal/startup/preflight.go: the checks before the helper starts, as the list of the events that
-- they log. The environment, the network and the API server are parameters; an error is its text.
pub mod Stages
pub mod Account
use kasten_frs_web.Base.{
  nat_eq, text_eq, ◌⊎◌, inl, inr, ◌||◌, ℕ, Bool, Option, none, some, List, [], ◌∷◌, ◌++◌,
  if◌then◌else◌, ◌==◌, Str, str, any, not,
}
use kasten_frs_web.Startup.Account.{read_sa_name_from_token}
use kasten_frs_web.Std.Strings.{contains}

pub record Options (C : Type 0) : Type 0 where
  pub has_logger : Bool
  pub clientset : Option C
  pub namespace : Str
  pub secret_name : Str
  pub service_account_name : Str
  pub dial_timeout : ℕ
  pub overall_timeout : ℕ

-- A SelfSubjectAccessReview: namespace, Secret and verb, and the answer with its reason.
pub record Review : Type 0 where
  pub namespace : Str
  pub secret_name : Str
  pub verb : Str

pub record Cluster (C : Type 0) : Type 0 where
  pub service_host : Str
  pub service_port : Str
  pub token_file : Option Str
  pub lookup_host : ℕ → Str → Str ⊎ List Str
  pub dial_tcp : ℕ → Str → Bool
  pub server_version : C → Str ⊎ Str
  pub review_access : C → ℕ → Review → Str ⊎ Bool

pub data Hint : Type 0 where
  tcp_timeout : Hint
  tcp_refused : Hint
  rbac_missing : Hint
  auth_failure : Hint
  tls_error : Hint
  dns_failure : Hint
  unclassified : Hint

pub data Event : Type 0 where
  started : Str → Str → Str → Event
  no_in_cluster_env : Event
  api_host : Str → Str → Event
  dns_failed : Str → Event
  dns_ok : List Str → Event
  tcp_skipped : Event
  tcp_failed : Str → Event
  tcp_ok : Str → Event
  clientset_skipped : Event
  discovery_failed : Str → Hint → Event
  discovery_ok : Str → Event
  sar_failed : Str → Str → Event
  rbac_allowed : Str → Event
  rbac_denied : Str → Event
  finished : Event

-- classifyAPICallError, on the error's text.
unfoldable pub classify_api_call_error : Str → Hint
classify_api_call_error s =
    if contains s (str "i/o timeout")
    then tcp_timeout
    else if contains s (str "connection refused")
    then tcp_refused
    else if contains s (str "forbidden") || contains s (str "Forbidden")
    then rbac_missing
    else if contains s (str "Unauthorized") || contains s (str "401")
    then auth_failure
    else if contains s (str "x509") || contains s (str "certificate")
    then tls_error
    else if contains s (str "no such host")
    then dns_failure
    else unclassified

-- net.JoinHostPort
unfoldable pub join_host_port : Str → Str → Str
join_host_port host port =
    if any (λ c. c == 58) host then 91 ∷ (host ++ (93 ∷ 58 ∷ port)) else host ++ (58 ∷ port)

abbrev pub default_text : Str → Str → Str
default_text def v = if v == [] then def else v

abbrev pub default_timeout : ℕ → ℕ → ℕ
default_timeout def v = if v == 0 then def else v

module _ {C : Type 0} (net : Cluster C) where
  unfoldable pub config_event : Event
  config_event =
      if net.service_host == []
      then no_in_cluster_env
      else api_host net.service_host net.service_port

  abbrev pub dns_event : Str ⊎ List Str → Event
  dns_event (inl e) = dns_failed e
  dns_event (inr addrs) = dns_ok addrs

  abbrev pub first_address : Str ⊎ List Str → Option Str
  first_address (inl e) = none
  first_address (inr []) = none
  first_address (inr (a ∷ addrs)) = some a

  -- The host to dial: from the environment, else the first address that was resolved.
  abbrev pub dial_host : Option Str → Str
  dial_host none = net.service_host
  dial_host (some a) = if net.service_host == [] then a else net.service_host

  unfoldable pub tcp_event : ℕ → Str → Event
  tcp_event timeout addr =
      if addr == str ":"
      then tcp_skipped
      else if net.dial_tcp timeout addr
      then tcp_ok addr
      else tcp_failed addr

  abbrev pub discovery_event : Str ⊎ Str → Event
  discovery_event (inl e) = discovery_failed e (classify_api_call_error e)
  discovery_event (inr v) = discovery_ok v

  abbrev pub review_event : Str → Str ⊎ Bool → Event
  review_event verb (inl e) = sar_failed verb e
  review_event verb (inr allowed) = if allowed then rbac_allowed verb else rbac_denied verb

  abbrev pub rbac_event : Options C → C → Str → Event
  rbac_event opts clientset verb = review_event verb (
      net.review_access clientset opts.overall_timeout
        (record { namespace = opts.namespace; secret_name = opts.secret_name; verb = verb }))

  unfoldable pub clientset_events : Options C → Option C → List Event
  clientset_events opts none = clientset_skipped ∷ []
  clientset_events opts (some clientset) =
      discovery_event (net.server_version clientset)
      ∷ rbac_event opts clientset (str "get")
      ∷ rbac_event opts clientset (str "create")
      ∷ finished
      ∷ []

  -- The options with their defaults; 5 and 30 seconds, in nanoseconds.
  abbrev pub with_defaults : Options C → Str → Options C
  with_defaults opts sa = record opts {
    namespace = default_text (str "kasten-io") opts.namespace;
    secret_name = default_text (str "kasten-frs-helper-private-key") opts.secret_name;
    service_account_name = default_text sa opts.service_account_name;
    dial_timeout = default_timeout 5000000000 opts.dial_timeout;
    overall_timeout = default_timeout 30000000000 opts.overall_timeout;
  }

  unfoldable pub events : Options C → Str ⊎ List Str → List Event
  events opts resolved =
      started opts.namespace opts.secret_name opts.service_account_name
      ∷ config_event
      ∷ dns_event resolved
      ∷ tcp_event opts.dial_timeout
          (join_host_port (dial_host (first_address resolved)) net.service_port)
      ∷ clientset_events opts opts.clientset

  -- Run; `none` is the error for a missing logger.
  unfoldable pub run_preflight : Options C → Option (List Event)
  run_preflight opts =
      if not opts.has_logger
      then none
      else some (
          events (with_defaults opts (read_sa_name_from_token net.token_file)) (
            net.lookup_host (default_timeout 5000000000 opts.dial_timeout)
              (str "kubernetes.default.svc")))
