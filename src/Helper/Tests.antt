-- ===== src/Helper/Tests.antt =====
-- A run of the helper's start, in a cluster that cannot be reached but for its one Secret.
use kasten_frs_web.Base.{
  nat_eq, text_eq, inl, true, false, Option, none, some, [], Str, str, ◌≡◌, refl, inr, text_beq,
}
use kasten_frs_web.Base.Int.{pos}
use kasten_frs_web.Config.{checked, Config, config_from, load}
use kasten_frs_web.Config.Tests.{least_env, one_hour}
use kasten_frs_web.Helper.{run_helper, Started, client_options}
use kasten_frs_web.Helper.Starting.{IsWired, run_helper-IsWired}
use kasten_frs_web.K8s.Client.{KubeLib, Client, client_of_http, client_of_config, new_client}
use kasten_frs_web.KeyMgr.{Secret, SecretsApi}
use kasten_frs_web.KeyMgr.Tests.{
  one_secret, text_ssh, no_secret, one_secret_laws, text_laws, new_pair, new_manager, first_start,
}
use kasten_frs_web.Startup.{Cluster}
use kasten_frs_web.Std.Strconv.{parse_digits, parse_nat, parse_int}
use kasten_frs_web.Std.Strings.{split, is_space, trim_left_space, trim_space}

abbrev bare_kube : KubeLib Str Str
bare_kube = record {
  user_home_dir = [];
  in_cluster_config = some (str "cfg");
  build_config_from_flags = λ p. none;
  core_for_config = λ c. true;
  dynamic_for_config = λ c. true;
  config_host = λ c. [];
  http_client_for = λ c. some c;
}

abbrev cut_off : Cluster (Client Str Str)
cut_off = record {
  service_host = [];
  service_port = [];
  token_file = none;
  lookup_host = λ timeout host. inl (str "no such host");
  dial_tcp = λ timeout addr. false;
  server_version = λ c. inl (str "i/o timeout");
  review_access = λ c timeout review. inl (str "i/o timeout");
}

abbrev secrets_of : Str → SecretsApi (Option Secret)
secrets_of ns = one_secret

abbrev least_config : Config
least_config =
    config_from least_env (pos 8080) (pos 3600000000000) (pos 3600000000000) (pos 3600000000000)
      (pos 3600000000000) (pos 2222)

loaded : load one_hour least_env ≡ inr least_config
unfolding load checked parse_int parse_nat parse_digits split trim_space trim_left_space is_space
    text_beq
loaded = refl

abbrev bare_client : Client Str Str
bare_client = record {
  cfg = some (str "cfg");
  http = some (str "cfg");
  is_fake = false;
  host_base = str "https://kubernetes.default.svc";
}

connected : new_client bare_kube (client_options least_config) ≡ inr bare_client
unfolding new_client client_of_config client_of_http text_beq
connected = refl

run_helper-IsWired_example :
    (h : Started Str Str Str Str) × (run_helper one_hour least_env bare_kube cut_off text_ssh
        secrets_of no_secret
      ≡ (some new_pair, inr h))
    × IsWired one_hour least_env bare_kube cut_off text_ssh secrets_of text_laws
        (λ ns. one_secret_laws)
        (some new_pair)
        h
unfolding text_beq
run_helper-IsWired_example =
    run_helper-IsWired one_hour least_env bare_kube cut_off text_ssh secrets_of text_laws
      (λ ns. one_secret_laws) no_secret (some new_pair) least_config bare_client new_manager loaded
      connected (first_start (str "kasten-frs-helper-private-key")) (λ e. cc)
