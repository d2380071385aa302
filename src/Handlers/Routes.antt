-- ===== src/Handlers/Routes.antt =====
-- routes in internal/handlers/handlers.go: which handler a request reaches. net/http's ServeMux is
-- written out for these patterns and for the paths that it does not redirect (those that are clean,
-- and are not "/static"): a pattern for GET is one for HEAD too, the most specific pattern is taken,
-- and a path that only patterns of other methods match is answered with 405. A path is given as its
-- segments, unescaped: [] for "/", and a last segment [] for a slash at the end.
pub mod Guarded
pub mod Tests
use kasten_frs_web.Base.{
  nat_eq, text_eq, ◌||◌, Bool, List, [], ◌∷◌, ◌++◌, if◌then◌else◌, ◌==◌, Str, str, ℕ, ◌⊎◌, inl, inr,
  true, Option, none, some, map,
}
use kasten_frs_web.Auth.Gate.{Authenticator, require_auth}
use kasten_frs_web.Http.{Request, Response}

-- The handlers, with the wildcards of their patterns.
pub data Route : Type 0 where
  to_healthz to_readyz to_login_page to_login to_logout to_static : Route
  to_sessions to_browse to_download to_download_zip : Route
  to_connect to_session_delete : Str → Str → Route
  to_wizard to_wizard_namespaces to_wizard_vms to_wizard_create to_wizard_cancel : Route
  to_wizard_rps to_wizard_details : Str → Str → Route
  to_root_redirect to_not_allowed : Route

-- The methods that a pattern is for.
pub data Verb : Type 0 where
  reading posting any_method : Verb

unfoldable pub has_verb : Verb → Str → Bool
has_verb reading m = m == str "GET" || m == str "HEAD"
has_verb posting m = m == str "POST"
has_verb any_method m = true

-- The patterns that a path matches, with what stands behind them.
abbrev pub Matches : Type 0
Matches = List (Verb × Route)

-- The first of them for the method; no two of these are for one method.
unfoldable pub pick {ℓ} : {A : Type ℓ} → Str → A → List (Verb × A) → A
pick m fallback [] = fallback
pick m fallback ((verb, a) ∷ rest) =
    let later = pick m fallback rest in if has_verb verb m then a else later

-- The patterns with the segments of a path, without the two that end in a slash.
abbrev pub one_segment : Str → Matches
one_segment a =
    if a == str "sessions"
    then (reading, to_sessions) ∷ []
    else if a == str "browse"
    then (reading, to_browse) ∷ []
    else if a == str "download"
    then (reading, to_download) ∷ []
    else if a == str "download-zip"
    then (reading, to_download_zip) ∷ []
    else if a == str "wizard"
    then (reading, to_wizard) ∷ []
    else []

abbrev pub two_segments : Str → Str → Matches
two_segments a b =
    if a == str "wizard"
    then if b == str "namespaces"
      then (reading, to_wizard_namespaces) ∷ []
      else if b == str "vms"
      then (reading, to_wizard_vms) ∷ []
      else if b == str "create"
      then (posting, to_wizard_create) ∷ []
      else if b == str "cancel"
      then (posting, to_wizard_cancel) ∷ []
      else []
    else []

abbrev pub four_segments : Str → Str → Str → Str → Matches
four_segments a ns name d =
    if a == str "sessions"
    then if d == str "connect"
      then (posting, to_connect ns name) ∷ []
      else if d == str "delete"
      then (posting, to_session_delete ns name) ∷ []
      else []
    else []

abbrev pub five_segments : Str → Str → Str → Str → Str → Matches
five_segments a b ns name e =
    if a == str "wizard"
    then if b == str "vms"
      then if e == str "restorepoints" then (reading, to_wizard_rps ns name) ∷ [] else []
      else if b == str "rps"
      then if e == str "details" then (reading, to_wizard_details ns name) ∷ [] else []
      else []
    else []

unfoldable pub authed_matches : List Str → Matches
authed_matches [] = []
authed_matches (a ∷ []) = one_segment a
authed_matches (a ∷ b ∷ []) = two_segments a b
authed_matches (a ∷ b ∷ c ∷ []) = []
authed_matches (a ∷ b ∷ c ∷ d ∷ []) = four_segments a b c d
authed_matches (a ∷ b ∷ c ∷ d ∷ e ∷ []) = five_segments a b c d e
authed_matches (a ∷ b ∷ c ∷ d ∷ e ∷ f ∷ rest) = []

-- The mux behind the gate; its pattern "GET /" matches what no other does.
unfoldable pub authed_route : Str → List Str → Route
authed_route m path =
    pick m to_not_allowed (authed_matches path ++ ((reading, to_root_redirect) ∷ []))

-- The patterns of the outer mux but "/", which is for the gate.
abbrev pub open_segment : Str → Matches
open_segment a =
    if a == str "healthz"
    then (reading, to_healthz) ∷ []
    else if a == str "readyz"
    then (reading, to_readyz) ∷ []
    else if a == str "login"
    then (reading, to_login_page) ∷ (posting, to_login) ∷ []
    else if a == str "logout"
    then (posting, to_logout) ∷ (reading, to_logout) ∷ []
    else []

unfoldable pub open_matches : List Str → Matches
open_matches [] = []
open_matches (a ∷ []) = open_segment a
open_matches (a ∷ b ∷ path) = if a == str "static" then (any_method, to_static) ∷ [] else []

abbrev pub as_open : Verb × Route → Verb × Option Route
as_open (verb, route) = (verb, some route)

unfoldable pub open_route : Str → List Str → Option Route
open_route m path = pick m none (map as_open (open_matches path))

module _ {V : Type 0} (mac : Str → Str → Str) (a : Authenticator) (now : ℕ) where
  unfoldable pub dispatch_behind : Request → List Str → Option Route → Response V ⊎ Route
  dispatch_behind r path (some route) = inr route
  dispatch_behind r path none = require_auth mac a now r inl (inr (authed_route r.method path))

  -- What becomes of a request for a path: the gate's answer, or the handler that it reaches.
  unfoldable pub dispatch : Request → List Str → Response V ⊎ Route
  dispatch r path = dispatch_behind r path (open_route r.method path)
