-- ===== src/K8s/Tests.antt =====
-- Runs on two FileRecoverySessions: one that is ready, and one that failed before it had a service.
use mathlib.Core.List.{Perm}
use kasten_frs_web.Base.{
  ℕ, ◌≡◌, refl, ◌↔◌, ◌⊎◌, Bool, true, false, none, some, List, [], ◌∷◌, ◌++◌, map, arith,
  if◌then◌else◌, ◌==◌, text_beq, Str, str, length, All, Selected, nat_eq, text_eq, ◌+◌, Option, inr,
}
use kasten_frs_web.Base.Int.{pos}
use kasten_frs_web.K8s.{FrsRef, ObjectApi, FrsView, empty_view}
use kasten_frs_web.K8s.Client.{Reply, Client, do_k8s_request}
use kasten_frs_web.K8s.Client.Requests.{IsAnswered, do_k8s_request_iff}
use kasten_frs_web.K8s.Frs.{build_frs_view, view_of, list_frs, get_frs}
use kasten_frs_web.K8s.Frs.Listed.{NoOlder, IsShown, list_frs-views}
use kasten_frs_web.K8s.Frs.Views.{IsViewOf}
use kasten_frs_web.K8s.Frs.Writing.{FrSpec, NewFrs}
use kasten_frs_web.K8s.Sorting.{Ordered}
use kasten_frs_web.K8s.Waiting.{not_in_time, cancelled, WaitResult, Round, round, wait_for_ready}
use kasten_frs_web.K8s.Waiting.Verdicts.{
  wait_for_ready-ready, wait_for_ready_ends, wait_for_ready-unpublished,
}

-- An object: its name, its state, and whether its service coordinates are published.
abbrev Thing : Type 0
Thing = Str × Str × Bool

abbrev text_field : List Str → Thing → Str
text_field (a ∷ b ∷ []) (name, state, published) = if b == str "state" then state else []
text_field (a ∷ b ∷ c ∷ d ∷ []) (name, state, published) = if published then str "svc" else []
text_field _ t = []

abbrev things : ObjectApi Thing
things = record {
  get_namespace = λ t. str "prod";
  get_name = λ t. t.0;
  get_created = λ t. length t.0;
  get_label = λ k t. [];
  nested_string = text_field;
  nested_int = λ k t. if t.2 then pos 2222 else pos 0;
  parse_time = λ t. none;
}

abbrev ready : Thing
ready = (str "frs-a", str "Ready", true)

abbrev failed : Thing
failed = (str "frs-bb", str "Failed", false)

abbrev ref_b : FrsRef
ref_b = record { namespace = str "prod"; name = str "frs-bb" }

abbrev poll : Thing → ℕ → Round Thing
poll t now = record { answer = some t; now = now; done = false }

list_frs-views_example :
    (shown : List Thing) × (views : List FrsView) × Selected
      (IsShown things [] false 5)
      (ready ∷ failed ∷ [])
      shown
    × (list_frs things [] false 5 (some (ready ∷ failed ∷ [])) ≡ some views)
    × Perm views (map (view_of things) shown)
    × All (λ item. IsViewOf things item (view_of things item)) shown
    × Ordered NoOlder views
list_frs-views_example = list_frs-views things [] false 5 (ready ∷ failed ∷ [])

ready_result :
    wait_for_ready things ref_b 100 (poll ready 5 ∷ [])
    ≡ some (record { view = view_of things ready; error = none })
unfolding wait_for_ready round get_frs build_frs_view text_beq
ready_result = refl

wait_for_ready-ready_example :
    (item : Thing) × (view_of things ready ≡ view_of things item)
    × ((view_of things ready).connectable ≡ true)
    × ((view_of things ready).state ≡ str "Ready")
wait_for_ready-ready_example =
    wait_for_ready-ready things ref_b 100 (poll ready 5 ∷ [])
      (record { view = view_of things ready; error = none }) ready_result refl

wait_for_ready_ends_example :
    (r : WaitResult) × (wait_for_ready things ref_b 100
        ((poll failed 5 ∷ []) ++ (poll failed 101 ∷ []))
      ≡ some r)
wait_for_ready_ends_example =
    wait_for_ready_ends things ref_b 100 (poll failed 5 ∷ []) [] (poll failed 101) (omega arith)

failed_result :
    wait_for_ready things ref_b 100 (poll failed 101 ∷ [])
    ≡ some (record { view = empty_view; error = some not_in_time })
unfolding wait_for_ready round get_frs build_frs_view text_beq
failed_result = refl

wait_for_ready-unpublished_example :
    (empty_view ≡ empty_view)
    × ((some not_in_time ≡ some not_in_time) ⊎ (some not_in_time ≡ some cancelled))
unfolding text_beq
wait_for_ready-unpublished_example =
    wait_for_ready-unpublished things ref_b 100 (poll failed 101 ∷ [])
      (record { view = empty_view; error = some not_in_time }) ((failed, refl, refl), tt)
      failed_result

abbrev whole_spec : FrSpec
whole_spec = record {
  name = [];
  restore_point_name = str "rp";
  pvc_names = str "disk" ∷ [];
  ssh_user_public_key = str "ssh-ed25519 AAAA";
}

abbrev make : NewFrs → ℕ → Option Thing × ℕ
make f w = (some ready, w + 1)

-- A client whose server answers every request with 200 and the URL.
abbrev echo_client : Client Str Str
echo_client = record {
  cfg = none;
  http = some (str "h");
  is_fake = false;
  host_base = str "https://k8s";
}

abbrev new_url : Str → Str → Option Str
new_url method url = some url

abbrev send_url : Str → Str → Option Reply
send_url http url = some (record { status = 200; body = some url })

do_k8s_request_iff_example :
    (do_k8s_request new_url send_url echo_client (str "GET") (str "/a") ≡ inr (str "https://k8s/a"))
    ↔ IsAnswered new_url send_url echo_client (str "GET") (str "/a") (str "https://k8s/a")
do_k8s_request_iff_example =
    do_k8s_request_iff new_url send_url echo_client (str "GET") (str "/a") (str "https://k8s/a")
