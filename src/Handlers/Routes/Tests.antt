-- ===== src/Handlers/Routes/Tests.antt =====
-- The way of a request that connects to an FRS, by a session that was given out two seconds before.
use kasten_frs_web.Base.{
  nat_eq, text_eq, inr, ◌≡◌, refl, false, none, List, [], ◌∷◌, text_beq, Str, str, lookup,
}
use kasten_frs_web.Auth.{csrf_token}
use kasten_frs_web.Auth.Gate.{csrf_presented, gate, require_auth}
use kasten_frs_web.Auth.Gate.Meaning.{Admitted, gate_iff}
use kasten_frs_web.Auth.Tests.{operator, given, sessions, toy_mac, accepted}
use kasten_frs_web.Handlers.Routes.{
  to_connect, to_root_redirect, has_verb, pick, authed_matches, authed_route, open_matches,
  open_route, dispatch_behind, dispatch,
}
use kasten_frs_web.Handlers.Routes.Guarded.{Rightful, dispatch-Rightful}
use kasten_frs_web.Http.{Request, header, cookie, form_value}

abbrev pub connecting : Request
connecting = record {
  method = str "POST";
  path = str "/sessions/prod/frs-a/connect";
  headers = [];
  cookies = (str "sid", given.1) ∷ [];
  query = [];
  form = (str "csrf_token", csrf_token toy_mac sessions given.1) ∷ [];
  form_error = false;
}

abbrev pub connect_path : List Str
connect_path = str "sessions" ∷ str "prod" ∷ str "frs-a" ∷ str "connect" ∷ []

connecting-Admitted : Admitted toy_mac operator 9000000000 connecting
unfolding cookie lookup text_beq csrf_presented header form_value
connecting-Admitted = record {
  value = given.1;
  carried = refl;
  verified = accepted;
  token = λ u. refl;
}

connecting_passes : (V : Type 0) → gate {V = V} toy_mac operator 9000000000 connecting ≡ none
connecting_passes V = (gate_iff toy_mac operator 9000000000 connecting).1 connecting-Admitted

pub connecting_arrives :
    (V : Type 0)
    → dispatch {V = V} toy_mac operator 9000000000 connecting connect_path
      ≡ inr (to_connect (str "prod") (str "frs-a"))
unfolding dispatch dispatch_behind open_route open_matches authed_route authed_matches pick has_verb
    require_auth text_beq
connecting_arrives V = rw (connecting_passes V) refl

dispatch-Rightful_example :
    Rightful toy_mac operator 9000000000 connecting (to_connect (str "prod") (str "frs-a"))
dispatch-Rightful_example =
    dispatch-Rightful {V = Unit {0}} toy_mac operator 9000000000 connecting connect_path
      (to_connect (str "prod") (str "frs-a")) (connecting_arrives (Unit {0}))

-- A link that opens a session is not followed by GET: such a request is sent to the list.
link_path :
    (authed_route (str "GET") connect_path ≡ to_root_redirect)
    × (authed_route (str "POST") connect_path ≡ to_connect (str "prod") (str "frs-a"))
unfolding authed_route authed_matches pick has_verb text_beq
link_path = (refl, refl)
