-- ===== src/Handlers/Routes/Guarded.antt =====
-- Which handlers a request reaches without a session, and which only with a CSRF token.
use kasten_frs_web.Base.{
  nat_eq, text_eq, inl, inr, ◌||◌, ◌≡◌, refl, Bool, true, false, not, ◌&&◌, List, [], ◌∷◌, arith,
  Bool-cases, and_split, text_beq_iff, Str, str, all, ℕ, subst, ◌⊎◌, Option, none, some, ◌++◌, map,
  sym, text_beq,
}
use kasten_frs_web.Auth.{csrf_token}
use kasten_frs_web.Auth.Gate.{
  Authenticator, csrf_presented, gate, is_unsafe_method, denied_or, require_auth,
}
use kasten_frs_web.Auth.Gate.Meaning.{Admitted, gate_iff}
use kasten_frs_web.Handlers.Routes.{
  Route, to_healthz, to_readyz, to_login_page, to_login, to_logout, to_static, to_sessions,
  to_browse, to_download, to_download_zip, to_connect, to_session_delete, to_wizard,
  to_wizard_namespaces, to_wizard_vms, to_wizard_create, to_wizard_cancel, to_wizard_rps,
  to_wizard_details, to_root_redirect, to_not_allowed, Verb, reading, posting, any_method, has_verb,
  Matches, pick, authed_matches, authed_route, open_matches, as_open, open_route, dispatch_behind,
  dispatch,
}
use kasten_frs_web.Http.{Request, Response}

-- The handlers outside the gate.
unfoldable pub is_open : Route → Bool
is_open to_healthz = true
is_open to_readyz = true
is_open to_login_page = true
is_open to_login = true
is_open to_logout = true
is_open to_static = true
is_open to_sessions = false
is_open to_browse = false
is_open to_download = false
is_open to_download_zip = false
is_open (to_connect ns name) = false
is_open (to_session_delete ns name) = false
is_open to_wizard = false
is_open to_wizard_namespaces = false
is_open to_wizard_vms = false
is_open to_wizard_create = false
is_open to_wizard_cancel = false
is_open (to_wizard_rps ns name) = false
is_open (to_wizard_details ns name) = false
is_open to_root_redirect = false
is_open to_not_allowed = false

-- The handlers that dial, make or delete something.
unfoldable pub is_changing : Route → Bool
is_changing to_healthz = false
is_changing to_readyz = false
is_changing to_login_page = false
is_changing to_login = false
is_changing to_logout = false
is_changing to_static = false
is_changing to_sessions = false
is_changing to_browse = false
is_changing to_download = false
is_changing to_download_zip = false
is_changing (to_connect ns name) = true
is_changing (to_session_delete ns name) = true
is_changing to_wizard = false
is_changing to_wizard_namespaces = false
is_changing to_wizard_vms = false
is_changing to_wizard_create = true
is_changing to_wizard_cancel = true
is_changing (to_wizard_rps ns name) = false
is_changing (to_wizard_details ns name) = false
is_changing to_root_redirect = false
is_changing to_not_allowed = false

is_posting : Verb → Bool
is_posting reading = false
is_posting posting = true
is_posting any_method = false

abbrev is_proper : Verb × Route → Bool
is_proper (verb, route) = not (is_open route) && (not (is_changing route) || is_posting verb)

authed_matches-proper : (path : List Str) → all is_proper (authed_matches path) ≡ true
unfolding authed_matches all is_open is_changing is_posting
authed_matches-proper [] = refl
authed_matches-proper (a ∷ []) = ground arith
authed_matches-proper (a ∷ b ∷ []) = ground arith
authed_matches-proper (a ∷ b ∷ c ∷ []) = refl
authed_matches-proper (a ∷ b ∷ c ∷ d ∷ []) = ground arith
authed_matches-proper (a ∷ b ∷ c ∷ d ∷ e ∷ []) = ground arith
authed_matches-proper (a ∷ b ∷ c ∷ d ∷ e ∷ f ∷ rest) = refl

posting_verb :
    (verb : Verb) (m : Str) → is_posting verb ≡ true → has_verb verb m ≡ true → m ≡ str "POST"
unfolding is_posting has_verb
posting_verb reading m p h = cc
posting_verb posting m p h = (text_beq_iff m (str "POST")).0 h
posting_verb any_method m p h = cc

-- What is picked is no open handler, and a changing one only for POST.
IsProper : Str → Route → Type 0
IsProper m route = (is_open route ≡ false) × (is_changing route ≡ true → m ≡ str "POST")

pick-IsProper :
    (m : Str) (fallback : Route) (ms : Matches)
    → IsProper m fallback
    → all is_proper ms ≡ true
    → IsProper m (pick m fallback ms)
unfolding pick all IsProper
pick-IsProper m fallback [] f h = f
pick-IsProper m fallback ((verb, route) ∷ ms) f h =
    let (here, rest) = and_split (is_proper (verb, route)) (all is_proper ms) h in
    elim (Bool-cases (has_verb verb m)) [
      | inl y ↦ rw y (ground arith, λ c. posting_verb verb m (ground arith) y)
      | inr n ↦ rw n (pick-IsProper m fallback ms f rest)
    ]

all-append :
    (ms ns : Matches)
    → all is_proper ms ≡ true
    → all is_proper ns ≡ true
    → all is_proper (ms ++ ns) ≡ true
unfolding all
all-append [] ns h k = k
all-append (m ∷ ms) ns h k =
    let (here, rest) = and_split (is_proper m) (all is_proper ms) h in
    rw (here, all-append ms ns rest k) refl

authed_route-IsProper : (m : Str) (path : List Str) → IsProper m (authed_route m path)
unfolding authed_route IsProper is_open is_changing all is_posting
authed_route-IsProper m path =
    pick-IsProper m to_not_allowed (authed_matches path ++ ((reading, to_root_redirect) ∷ []))
      (refl, λ c. cc)
      (all-append (authed_matches path) ((reading, to_root_redirect) ∷ [])
        (authed_matches-proper path) refl)

-- An open handler changes nothing.
is_harmless : Option Route → Bool
is_harmless none = true
is_harmless (some route) = is_open route && not (is_changing route)

open_matches-harmless :
    (path : List Str) → all (λ e. is_harmless e.1) (map as_open (open_matches path)) ≡ true
unfolding open_matches all is_harmless is_open is_changing
open_matches-harmless [] = refl
open_matches-harmless (a ∷ []) = ground arith
open_matches-harmless (a ∷ b ∷ path) = ground arith

pick-harmless :
    (m : Str) (ms : List (Verb × Option Route))
    → all (λ e. is_harmless e.1) ms ≡ true
    → is_harmless (pick m none ms) ≡ true
unfolding pick all is_harmless
pick-harmless m [] h = refl
pick-harmless m ((verb, o) ∷ ms) h =
    let (here, rest) = and_split (is_harmless o) (all (λ e. is_harmless e.1) ms) h in
    elim (Bool-cases (has_verb verb m)) [
      | inl y ↦ rw y here
      | inr n ↦ rw n (pick-harmless m ms rest)
    ]

module _ (mac : Str → Str → Str) (a : Authenticator) (now : ℕ) where
  -- A request that reached a handler: an open one, which changes nothing, or by a session of the
  -- user's; and one that changes something came by POST, with the CSRF token of that session.
  unfoldable pub Rightful : Request → Route → Type 0
  Rightful r route =
      ((is_open route ≡ true) × (is_changing route ≡ false))
      ⊎ ((s : Admitted mac a now r) × (is_changing route ≡ true
            → (r.method ≡ str "POST") × (csrf_presented r ≡ csrf_token mac a.sessions s.value)))

posted : (m : Str) → m ≡ str "POST" → is_unsafe_method m ≡ true
unfolding is_unsafe_method text_beq
posted m e = subst (λ x. is_unsafe_method x ≡ true) (sym e) refl

module _ {V : Type 0} (mac : Str → Str → Str) (a : Authenticator) (now : ℕ) where
  behind-Rightful :
      (r : Request) (path : List Str) (g : Option (Response V)) (route : Route)
      → gate {V = V} mac a now r ≡ g
      → denied_or inl (inr (authed_route r.method path)) g ≡ inr route
      → Rightful mac a now r route
  unfolding Rightful IsProper
  behind-Rightful r path (some d) route e h = cc
  behind-Rightful r path none route e h =
      let s = (gate_iff mac a now r).0 e in
      let same : authed_route r.method path ≡ route = cc in
      let proper = subst (IsProper r.method) same (authed_route-IsProper r.method path) in
      inr (s, λ c. let post = proper.1 c in (post, s.token (posted r.method post)))

  dispatch_behind-Rightful :
      (r : Request) (path : List Str) (o : Option Route) (route : Route)
      → is_harmless o ≡ true
      → dispatch_behind {V = V} mac a now r path o ≡ inr route
      → Rightful mac a now r route
  unfolding dispatch_behind require_auth Rightful is_harmless
  dispatch_behind-Rightful r path (some q) route k h =
      let same : q ≡ route = cc in
      inl (
        subst (λ p. (is_open p ≡ true) × (is_changing p ≡ false)) same (ground arith, ground arith))
  dispatch_behind-Rightful r path none route k h = behind-Rightful r path _ route refl h

  -- Whatever its path, a request that reaches a handler reaches one of the open ones (health
  -- checks, login, logout, static files), which change nothing, or passed the gate; and one that
  -- reaches a handler which connects, deletes, creates or cancels came by POST with the CSRF token
  -- of its session.
  pub dispatch-Rightful :
      (r : Request) (path : List Str) (route : Route)
      → dispatch {V = V} mac a now r path ≡ inr route
      → Rightful mac a now r route
  unfolding dispatch open_route
  dispatch-Rightful r path route h =
      dispatch_behind-Rightful r path _ route
        (pick-harmless r.method _ (open_matches-harmless path)) h
