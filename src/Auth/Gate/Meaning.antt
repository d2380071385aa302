-- ===== src/Auth/Gate/Meaning.antt =====
-- Who passes the gate.
use kasten_frs_web.Base.{
  ℕ, ◌≡◌, refl, ◌↔◌, inl, inr, true, Option, none, some, arith, Bool-cases, Str, ◌+◌, ◌*◌, ◌/◌, ◌^◌,
  ◌<◌, ◌≤◌, ◌⊎◌, ◌≢◌, false, [], ◌∷◌, text_beq_iff, str, All,
}
use kasten_frs_web.Auth.{verify, csrf_token, issue}
use kasten_frs_web.Auth.Cookies.{verify-issue}
use kasten_frs_web.Auth.Csrf.{verify_csrf_iff}
use kasten_frs_web.Auth.Gate.{
  Authenticator, is_unsafe_method, csrf_presented, gate_cookie, gate, session_cookie, handle_login,
}
use kasten_frs_web.Base.Int.{pos, pos_part, neg_part, ◌≤ℤ◌}
use kasten_frs_web.Http.{Request, cookie, form_value}
use kasten_frs_web.Std.Base64.{IsByte}

module _ (mac : Str → Str → Str) where
  -- The request carries a cookie that Verify accepts, and an unsafe one the CSRF token of that cookie.
  pub record Admitted (a : Authenticator) (now : ℕ) (r : Request) : Type 0 where
    pub value : Str
    pub carried : cookie a.cookie_name r ≡ some value
    pub verified : verify mac a.sessions now value ≡ true
    pub token :
        is_unsafe_method r.method ≡ true → csrf_presented r ≡ csrf_token mac a.sessions value

module _ {V : Type 0} (mac : Str → Str → Str) where
  gate_admits :
      (a : Authenticator) (now : ℕ) (r : Request) (o : Option Str)
      → cookie a.cookie_name r ≡ o
      → gate_cookie {V = V} mac a now r o ≡ none
      → Admitted mac a now r
  gate_admits a now r none e h = cc
  gate_admits a now r (some c) e h = record {
    value = c;
    carried = e;
    verified = ground arith;
    token = λ u. (verify_csrf_iff mac a.sessions c (csrf_presented r)).0 (ground arith);
  }

  gate_of_Admitted :
      (a : Authenticator) (now : ℕ) (r : Request)
      → Admitted mac a now r
      → gate {V = V} mac a now r ≡ none
  unfolding gate
  gate_of_Admitted a now r h = elim (Bool-cases (is_unsafe_method r.method)) [
    | inr s ↦ rw (h.carried, h.verified, s)
    | inl u ↦ rw (
      h.carried,
      h.verified,
      u,
      (verify_csrf_iff mac a.sessions h.value (csrf_presented r)).1 (h.token u),
    )
  ]

  -- A request reaches the wrapped handler exactly if it carries a cookie that Verify accepts and,
  -- for an unsafe method, the CSRF token of that cookie.
  pub gate_iff :
      (a : Authenticator) (now : ℕ) (r : Request)
      → (gate {V = V} mac a now r ≡ none) ↔ Admitted mac a now r
  unfolding gate
  gate_iff a now r = (gate_admits a now r (cookie a.cookie_name r) refl, gate_of_Admitted a now r)

module _ (mac : Str → Str → Str) where
  issued_form :
      (a : Authenticator) (id_bytes : Str) (now : ℕ)
      → (value : Str) × (sid : Str) × (issue mac a.sessions (some id_bytes) now ≡ some (sid, value))
  unfolding issue
  issued_form a id_bytes now = (_, _, refl)

module _ (V : Type 0) (mac : Str → Str → Str) where
  -- A login with the configured name and password sets one cookie, and a request with a safe
  -- method that carries it passes the gate as long as the session's ttl is not over; the MAC, the
  -- random bytes and the time of issue being in the ranges that they have in the source.
  pub handle_login-gate :
      (a : Authenticator) (id_bytes : Str) (issued now : ℕ) (r q : Request)
      → ((key text : Str) → All IsByte (mac key text))
      → All IsByte id_bytes
      → issued < 2 ^ 63
      → r.form_error ≡ false
      → form_value (str "username") r ≡ a.username
      → form_value (str "password") r ≡ a.password
      → is_unsafe_method q.method ≡ false
      → (a.sessions.ttl ≤ℤ pos 0)
        ⊎ (now + neg_part a.sessions.ttl
            ≤ issued / 1000000000 * 1000000000 + pos_part a.sessions.ttl)
      → (value : Str) × ((handle_login {V = V} mac a (some id_bytes) issued r).0.set_cookies
          ≡ session_cookie a value ∷ [])
        × (cookie a.cookie_name q ≡ some value → gate {V = V} mac a now q ≡ none)
  unfolding handle_login
  handle_login-gate a id_bytes issued now r q bytes ids small fine user pass safe live =
      let (value, sid, made) = issued_form mac a id_bytes issued in
      (
        value,
        simp (fine, (text_beq_iff _ a.username).1 user, (text_beq_iff _ a.password).1 pass, made),
        λ carried. gate_of_Admitted mac a now q (record {
          value = value;
          carried = carried;
          verified =
              (verify-issue mac a.sessions id_bytes issued now sid value bytes ids small made).1
                live;
          token = λ u. cc;
        }),
      )

  -- Only a form that parsed and holds the configured name and password gets a cookie.
  pub handle_login-refused :
      (a : Authenticator) (id_bytes : Option Str) (now : ℕ) (r : Request)
      → (handle_login {V = V} mac a id_bytes now r).0.set_cookies ≢ []
      → (r.form_error ≡ false)
        × (form_value (str "username") r ≡ a.username)
        × (form_value (str "password") r ≡ a.password)
  unfolding handle_login
  handle_login-refused a id_bytes now r h = ground (
    arith,
    text_beq_iff (form_value (str "username") r) a.username,
    text_beq_iff (form_value (str "password") r) a.password,
  )
