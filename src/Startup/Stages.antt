-- ===== src/Startup/Stages.antt =====
-- No failure keeps the preflight from running through.
use kasten_frs_web.Base.{
  nat_eq, text_eq, ◌⊎◌, inl, inr, ℕ, ◌≡◌, refl, Bool, true, false, Option, none, some, List, [],
  ◌∷◌, map, arith, Str, str,
}
use kasten_frs_web.Startup.{
  Options, Cluster, Event, started, no_in_cluster_env, api_host, dns_failed, dns_ok, tcp_skipped,
  tcp_failed, tcp_ok, clientset_skipped, discovery_failed, discovery_ok, sar_failed, rbac_allowed,
  rbac_denied, finished, config_event, dns_event, tcp_event, discovery_event, review_event, events,
  clientset_events, run_preflight,
}

-- The checks of the preflight.
pub data Stage : Type 0 where
  at_start : Stage
  at_config : Stage
  at_dns : Stage
  at_tcp : Stage
  at_clientset : Stage
  at_discovery : Stage
  at_rbac : Str → Stage
  at_end : Stage

-- The check that an event is the outcome of.
pub stage_of : Event → Stage
stage_of (started ns secret sa) = at_start
stage_of no_in_cluster_env = at_config
stage_of (api_host h p) = at_config
stage_of (dns_failed e) = at_dns
stage_of (dns_ok addrs) = at_dns
stage_of tcp_skipped = at_tcp
stage_of (tcp_failed a) = at_tcp
stage_of (tcp_ok a) = at_tcp
stage_of clientset_skipped = at_clientset
stage_of (discovery_failed e h) = at_discovery
stage_of (discovery_ok v) = at_discovery
stage_of (sar_failed verb e) = at_rbac verb
stage_of (rbac_allowed verb) = at_rbac verb
stage_of (rbac_denied verb) = at_rbac verb
stage_of finished = at_end

-- The checks that are made, with and without a clientset.
pub stages_for : {C : Type 0} → Option C → List Stage
stages_for none = at_start ∷ at_config ∷ at_dns ∷ at_tcp ∷ at_clientset ∷ []
stages_for (some c) =
    at_start
    ∷ at_config
    ∷ at_dns
    ∷ at_tcp
    ∷ at_discovery
    ∷ at_rbac (str "get")
    ∷ at_rbac (str "create")
    ∷ at_end
    ∷ []

module _ {C : Type 0} (net : Cluster C) where
  config-stage : stage_of (config_event net) ≡ at_config
  unfolding stage_of config_event
  config-stage = ground arith

  dns-stage : (r : Str ⊎ List Str) → stage_of (dns_event net r) ≡ at_dns
  unfolding stage_of
  dns-stage (inl e) = refl
  dns-stage (inr addrs) = refl

  tcp-stage : (timeout : ℕ) (addr : Str) → stage_of (tcp_event net timeout addr) ≡ at_tcp
  unfolding stage_of tcp_event
  tcp-stage timeout addr = ground arith

  discovery-stage : (r : Str ⊎ Str) → stage_of (discovery_event net r) ≡ at_discovery
  unfolding stage_of
  discovery-stage (inl e) = refl
  discovery-stage (inr v) = refl

  review-stage : (verb : Str) (r : Str ⊎ Bool) → stage_of (review_event net verb r) ≡ at_rbac verb
  unfolding stage_of
  review-stage verb (inl e) = refl
  review-stage verb (inr true) = refl
  review-stage verb (inr false) = refl

  clientset-stages :
      (opts : Options C) (o : Option C)
      → at_start ∷ at_config ∷ at_dns ∷ at_tcp ∷ map stage_of (clientset_events net opts o)
        ≡ stages_for o
  unfolding clientset_events stages_for stage_of
  clientset-stages opts none = refl
  clientset-stages opts (some c) = rw (discovery-stage (net.server_version c)) (
      rw (review-stage (str "get") (net.review_access c _ _))
        (rw (review-stage (str "create") (net.review_access c _ _)) refl))

  events-stages :
      (opts : Options C) (r : Str ⊎ List Str)
      → map stage_of (events net opts r) ≡ stages_for opts.clientset
  unfolding events stage_of
  events-stages opts r =
      rw config-stage (
        rw (dns-stage r)
          (rw (tcp-stage opts.dial_timeout _) (clientset-stages opts opts.clientset)))

  -- With a logger, Run makes all its checks in order, whatever fails: each has one outcome in the
  -- log, and without a clientset the log says so in place of the last ones.
  pub run_preflight-stages :
      (opts : Options C)
      → opts.has_logger ≡ true
      → (log : List Event) × (run_preflight net opts ≡ some log)
        × (map stage_of log ≡ stages_for opts.clientset)
  unfolding run_preflight
  run_preflight-stages opts h = simp h (_, refl, events-stages _ _)
