-- ===== src/Auth.antt =====
-- internal/auth/session.go: signed session cookies and CSRF tokens.
pub mod Age
pub mod Cookies
pub mod Csrf
pub mod Gate
pub mod Tests
use kasten_frs_web.Base.{
  ℕ, ◌+◌, ◌-◌, ◌*◌, ◌/◌, ◌^◌, Bool, false, not, ◌&&◌, Option, none, some, List, [], ◌∷◌, ◌++◌, ltb,
  if◌then◌else◌, ◌==◌, Str, str, length, nat_eq, text_eq,
}
use kasten_frs_web.Base.Int.{ℤ, pos, negsuc, ◌+ℤ◌, ltb_ℤ}
use kasten_frs_web.Http.{cookie}
use kasten_frs_web.Std.Base64.{encode, decode}
use kasten_frs_web.Std.Strconv.{format_int, parse_int}
use kasten_frs_web.Std.Strings.{split, join}

abbrev pub full_stop : ℕ
full_stop = b'.'

abbrev pub second : ℕ
second = 10 ^ 9

-- A SessionStore; durations are in nanoseconds.
pub record SessionStore : Type 0 where
  pub secret : Str
  pub ttl : ℤ

abbrev pub min_secret_bytes : ℕ
min_secret_bytes = 16

-- NewSessionStore; `none` is its panic.
unfoldable pub new_session_store : Str → ℤ → Option SessionStore
new_session_store secret ttl =
    if ltb (length secret) min_secret_bytes
    then none
    else some (record { secret = secret; ttl = ttl })

-- time.Unix(x, 0) as nanoseconds since the epoch.
abbrev pub seconds_to_ns : ℤ → ℤ
seconds_to_ns (pos n) = pos (n * second)
seconds_to_ns (negsuc n) = negsuc ((n + 1) * second - 1)

-- What the two HMACs are taken of.
abbrev pub sign_message : Str → Str → Str
sign_message id ts = id ++ (full_stop ∷ ts)

abbrev pub csrf_message : Str → Str
csrf_message cookie = str "csrf:" ++ cookie

-- s.clock().After(expiry), where a ttl that is not positive means no expiry.
unfoldable pub is_past : ℤ → ℤ → ℕ → Bool
is_past ttl issued now = ltb_ℤ (pos 0) ttl && ltb_ℤ (seconds_to_ns issued +ℤ ttl) (pos now)

-- HMAC-SHA256 of a message under a key.
module _ (mac : Str → Str → Str) where
  pub sign : SessionStore → Str → Str → Str
  sign s id ts = mac s.secret (sign_message id ts)

  -- Issue, given what rand.Read returned and the clock in nanoseconds: the session id and the cookie.
  pub issue : SessionStore → Option Str → ℕ → Option (Str × Str)
  issue s none now = none
  issue s (some id_bytes) now =
      let id = encode id_bytes in
      let ts = encode (format_int (pos (now / second))) in
      some (id, join full_stop (id ∷ ts ∷ encode (sign s id ts) ∷ []))

  -- The checks of the timestamp, once the signature is known to be right.
  abbrev pub check_issued : SessionStore → ℕ → Option ℤ → Bool
  check_issued s now none = false
  check_issued s now (some issued) = not (is_past s.ttl issued now)

  abbrev pub check_stamp : SessionStore → ℕ → Option Str → Bool
  check_stamp s now none = false
  check_stamp s now (some raw) = check_issued s now (parse_int raw)

  abbrev pub check_signature : SessionStore → ℕ → Str → Str → Option Str → Bool
  check_signature s now id ts none = false
  check_signature s now id ts (some got) =
      if got == sign s id ts then check_stamp s now (decode ts) else false

  pub verify_parts : SessionStore → ℕ → List Str → Bool
  verify_parts s now (id ∷ ts ∷ sig ∷ []) = check_signature s now id ts (decode sig)
  verify_parts s now _ = false

  pub verify : SessionStore → ℕ → Str → Bool
  unfolding verify_parts
  verify s now cookie = verify_parts s now (split full_stop cookie)

  pub csrf_token : SessionStore → Str → Str
  csrf_token s cookie = encode (mac s.secret (csrf_message cookie))

  pub verify_csrf : SessionStore → Str → Str → Bool
  unfolding csrf_token
  verify_csrf s cookie token = csrf_token s cookie == token
