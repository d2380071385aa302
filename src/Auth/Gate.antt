-- ===== src/Auth/Gate.antt =====
-- internal/auth/auth.go: logging in, and the gate before every other page.
pub mod Meaning
use kasten_frs_web.Base.{
  ℕ, ◌+◌, ◌-◌, ◌/◌, Bool, true, not, ◌&&◌, ◌||◌, Option, none, some, List, [], ◌∷◌, ltb,
  if◌then◌else◌, ◌==◌, Str, str, nat_eq, text_eq,
}
use kasten_frs_web.Auth.{second, SessionStore, issue, verify, csrf_token, verify_csrf}
use kasten_frs_web.Base.Int.{ℤ, pos, negsuc}
use kasten_frs_web.Http.{
  Request, header, form_value, cookie, SetCookie, Response, see_other, http_error,
}

pub record Authenticator : Type 0 where
  pub username : Str
  pub password : Str
  pub sessions : SessionStore
  pub cookie_name : Str

-- The label of the counter that a login bumps.
pub data LoginResult : Type 0 where
  failure error success : LoginResult

-- int(d.Seconds())
abbrev pub whole_seconds : ℤ → ℤ
whole_seconds (pos n) = pos (n / second)
whole_seconds (negsuc n) = if ltb (n + 1) second then pos 0 else negsuc ((n + 1) / second - 1)

unfoldable pub is_unsafe_method : Str → Bool
is_unsafe_method m = m == str "POST" || m == str "PUT" || m == str "PATCH" || m == str "DELETE"

abbrev pub session_cookie : Authenticator → Str → SetCookie
session_cookie a value = record {
  name = a.cookie_name;
  value = value;
  path = str "/";
  max_age = whole_seconds a.sessions.ttl;
  http_only = true;
  secure = true;
  same_site_strict = true;
}

-- The token that an unsafe request presents: the header, or else the form field.
unfoldable pub csrf_presented : Request → Str
csrf_presented r =
    if header (str "X-CSRF-Token") r == []
    then form_value (str "csrf_token") r
    else header (str "X-CSRF-Token") r

-- Authenticator.CSRFToken.
pub csrf_token_of_request : (Str → Str → Str) → Authenticator → Request → Str
csrf_token_of_request mac a r = elim (cookie a.cookie_name r) [
  | none ↦ []
  | some c ↦ csrf_token mac a.sessions c
]

abbrev pub denied_or {ℓ} :
    {V : Type 0} {X : Type ℓ} → (Response V → X) → X → Option (Response V) → X
denied_or deny handler (some denied) = deny denied
denied_or deny handler none = handler

module _ {V : Type 0} (mac : Str → Str → Str) where
  abbrev pub logged_in : Authenticator → Option (Str × Str) → Response V × List LoginResult
  logged_in a none = (http_error 500 (str "internal"), error ∷ [])
  logged_in a (some (sid, value)) = (
    record (see_other {V = V} (str "/sessions")) { set_cookies = session_cookie a value ∷ [] },
    success ∷ [],
  )

  -- HandleLogin, given what rand.Read returns and the clock; with the counters that it bumps.
  pub handle_login : Authenticator → Option Str → ℕ → Request → Response V × List LoginResult
  handle_login a id_bytes now r =
      if r.form_error
      then (http_error 400 (str "bad form"), [])
      else if not (form_value (str "username") r == a.username)
          || not (form_value (str "password") r == a.password)
      then (http_error 401 (str "invalid credentials"), failure ∷ [])
      else logged_in a (issue mac a.sessions id_bytes now)

  -- RequireAuth's answer in place of the wrapped handler's: `none` hands the request on.
  abbrev pub gate_cookie : Authenticator → ℕ → Request → Option Str → Option (Response V)
  gate_cookie a now r none = some (see_other (str "/login"))
  gate_cookie a now r (some c) =
      if not (verify mac a.sessions now c)
      then some (see_other (str "/login"))
      else if is_unsafe_method r.method && not (verify_csrf mac a.sessions c (csrf_presented r))
      then some (http_error 403 (str "invalid or missing CSRF token"))
      else none

  pub gate : Authenticator → ℕ → Request → Option (Response V)
  gate a now r = gate_cookie a now r (cookie a.cookie_name r)

  -- RequireAuth around a handler whose result can be a plain response.
  unfoldable pub require_auth {ℓ} :
      {X : Type ℓ} → Authenticator → ℕ → Request → (Response V → X) → X → X
  require_auth a now r deny handler = denied_or deny handler (gate a now r)
