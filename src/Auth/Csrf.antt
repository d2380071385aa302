-- ===== src/Auth/Csrf.antt =====
-- CSRF tokens: what VerifyCSRF accepts, and that the two uses of the secret do not meet.
use kasten_frs_web.Base.{
  ℕ, ◌+◌, ◌≤◌, ◌≡◌, refl, sym, ap, ◌≢◌, ◌↔◌, true, [], ◌∷◌, ◌++◌, arith, if◌then◌else◌, ◌==◌,
  text_beq_iff, eq_ne, Str, str, nat_eq, text_eq, ◌∙◌, some_eq, All,
}
use kasten_frs_web.Auth.{full_stop, SessionStore, sign_message, verify, csrf_token, verify_csrf}
use kasten_frs_web.Auth.Cookies.{Accepts, verify_iff}
use kasten_frs_web.Http.{cookie}
use kasten_frs_web.Std.Base64.{IsByte, decode}
use kasten_frs_web.Std.Base64.Roundtrip.{decode-encode}
use kasten_frs_web.Std.Strings.{join}
use kasten_frs_web.Std.Strings.Splitting.{Lacks}

module _ (mac : Str → Str → Str) where
  -- VerifyCSRF accepts exactly the token of that cookie.
  pub verify_csrf_iff :
      (s : SessionStore) (cookie token : Str)
      → (verify_csrf mac s cookie token ≡ true) ↔ (token ≡ csrf_token mac s cookie)
  unfolding verify_csrf
  verify_csrf_iff s cookie token =
      (λ h. sym ((text_beq_iff _ token).0 h), λ e. (text_beq_iff _ token).1 (sym e))

-- How many full stops a text holds.
stops : Str → ℕ
stops [] = 0
stops (c ∷ s) = (if c == full_stop then 1 else 0) + stops s

stops-append : (s t : Str) → stops (s ++ t) ≡ stops s + stops t
unfolding stops
stops-append [] t = omega arith
stops-append (c ∷ s) t = omega (arith, stops-append s t)

stops_of_Lacks : (s : Str) → Lacks full_stop s → stops s ≡ 0
unfolding stops
stops_of_Lacks [] h = refl
stops_of_Lacks (c ∷ s) h = rw (eq_ne c full_stop h.0) (omega (arith, stops_of_Lacks s h.1))

stops_joined : (id ts sig : Str) → 2 ≤ stops (join full_stop (id ∷ ts ∷ sig ∷ []))
unfolding join stops
stops_joined id ts sig = omega (
  arith,
  stops-append id (full_stop ∷ (ts ++ (full_stop ∷ sig))),
  stops-append ts (full_stop ∷ sig),
)

stops_message :
    (id ts : Str) → Lacks full_stop id → Lacks full_stop ts → stops (sign_message id ts) ≡ 1
unfolding stops
stops_message id ts h k =
    omega (arith, stops-append id (full_stop ∷ ts), stops_of_Lacks id h, stops_of_Lacks ts k)

-- The text behind a CSRF token of an accepted cookie is not one that a signature covers.
messages_disjoint :
    (cookie : Str)
    → 2 ≤ stops cookie
    → (id ts : Str) → Lacks full_stop id
    → Lacks full_stop ts
    → str "csrf:" ++ cookie ≢ id ++ (full_stop ∷ ts)
unfolding stops
messages_disjoint cookie many id ts h k e =
    omega (arith, ap stops e, stops-append (str "csrf:") cookie, stops_message id ts h k)

module _ (mac : Str → Str → Str) where
  stops_accepted :
      (s : SessionStore) (now : ℕ) (cookie : Str) → Accepts mac s now cookie → 2 ≤ stops cookie
  stops_accepted s now cookie a = omega (arith, ap stops a.joined, stops_joined a.id a.ts a.sig)

  -- Where the signature of an accepted cookie is the CSRF token of an accepted cookie, the same one
  -- or another, the HMAC has one value for two different texts under the secret: "csrf:" with the
  -- one cookie, and id and timestamp of the other, joined by a full stop. So as long as no such
  -- collision is known, no token serves as a signature, nor a signature as a token. The HMAC is
  -- made of bytes.
  pub signature_as_token :
      (s : SessionStore) (now later : ℕ) (cookie other : Str)
      → ((key message : Str) → All IsByte (mac key message))
      → verify mac s now cookie ≡ true
      → (a : Accepts mac s later other) → verify_csrf mac s cookie a.sig ≡ true
      → ((str "csrf:" ++ cookie) ≢ (a.id ++ (b'.' ∷ a.ts)))
        × (mac s.secret (str "csrf:" ++ cookie) ≡ mac s.secret (a.id ++ (b'.' ∷ a.ts)))
  unfolding csrf_token
  signature_as_token s now later cookie other bytes v a t = (
    messages_disjoint cookie (stops_accepted s now cookie ((verify_iff mac s now cookie).0 v)) a.id
        a.ts a.separate.0 a.separate.1.0,
    some_eq (
        sym (decode-encode _ (bytes s.secret (str "csrf:" ++ cookie)))
        ∙ ap decode (sym ((verify_csrf_iff mac s cookie a.sig).0 t))
        ∙ a.signed),
  )
