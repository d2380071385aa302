-- ===== src/Auth/Tests.antt =====
-- Runs of logging in and of the gate, with a MAC of one byte.
use kasten_frs_web.Base.{
  ◌/◌, ◌%◌, ◌≡◌, refl, ◌+◌, ◌*◌, ◌≤◌, ◌⊎◌, inr, ◌≢◌, ◌↔◌, true, false, none, some, [], ◌∷◌, ◌++◌,
  arith, text_beq, Str, str, length, All, lookup,
}
use kasten_frs_web.Auth.{full_stop, SessionStore, sign, issue, verify, csrf_token, verify_csrf}
use kasten_frs_web.Auth.Age.{IsLive}
use kasten_frs_web.Auth.Cookies.{encode-Lacks, Accepts, verify_iff, verify-issue}
use kasten_frs_web.Auth.Csrf.{verify_csrf_iff, signature_as_token}
use kasten_frs_web.Auth.Gate.{Authenticator, is_unsafe_method, session_cookie, handle_login, gate}
use kasten_frs_web.Auth.Gate.Meaning.{Admitted, gate_iff, handle_login-gate, handle_login-refused}
use kasten_frs_web.Base.Int.{pos, ◌≤ℤ◌}
use kasten_frs_web.Http.{Request, form_value, cookie}
use kasten_frs_web.Std.Base64.{IsByte, encode}
use kasten_frs_web.Std.Base64.Roundtrip.{decode-encode}
use kasten_frs_web.Std.Strings.Splitting.{Lacks}
use kasten_frs_web.Std.Strconv.{parse_int, format_int}
use kasten_frs_web.Std.Strconv.Decimal.{format_int-IsByte, parse_int-format_int}
use kasten_frs_web.Std.Strings.{join}

abbrev pub toy_mac : Str → Str → Str
toy_mac key text = (length text % 256) ∷ []

toy_bytes : (key text : Str) → All IsByte (toy_mac key text)
toy_bytes key text = (omega arith, tt)

abbrev pub sessions : SessionStore
sessions = record { secret = str "0123456789abcdef"; ttl = pos 3600000000000 }

abbrev id_bytes : Str
id_bytes = 1 ∷ 2 ∷ 255 ∷ []

id_IsByte : All IsByte id_bytes
id_IsByte = (omega arith, (omega arith, (omega arith, tt)))

abbrev pub operator : Authenticator
operator = record {
  username = str "admin";
  password = str "secret";
  sessions = sessions;
  cookie_name = str "sid";
}

abbrev login : Request
login = record {
  method = str "POST";
  path = str "/login";
  headers = [];
  cookies = [];
  query = [];
  form = (str "username", str "admin") ∷ (str "password", str "secret") ∷ [];
  form_error = false;
}

abbrev visit : Str → Request
visit value = record {
  method = str "GET";
  path = str "/sessions";
  headers = [];
  cookies = (str "sid", value) ∷ [];
  query = [];
  form = [];
  form_error = false;
}

abbrev pub given : Str × Str
given = (
  encode id_bytes,
  join full_stop (
      encode id_bytes
      ∷ encode (format_int (pos 7))
      ∷ encode (toy_mac [] (encode id_bytes ++ (full_stop ∷ encode (format_int (pos 7)))))
      ∷ []),
)

verify_iff_example :
    (verify toy_mac sessions 9000000000 given.1 ≡ true)
    ↔ Accepts toy_mac sessions 9000000000 given.1
verify_iff_example = verify_iff toy_mac sessions 9000000000 given.1

issued_given : issue toy_mac sessions (some id_bytes) 7000000000 ≡ some given
unfolding issue sign
issued_given = refl

verify-issue_example : (verify toy_mac sessions 9000000000 given.1 ≡ true) ↔ (
    (sessions.ttl ≤ℤ pos 0)
    ⊎ (9000000000 + 0 ≤ 7000000000 / 1000000000 * 1000000000 + 3600000000000))
verify-issue_example =
    verify-issue toy_mac sessions id_bytes 7000000000 9000000000 given.0 given.1 toy_bytes id_IsByte
      (omega arith) issued_given

pub accepted : verify toy_mac sessions 9000000000 given.1 ≡ true
accepted =
    (verify-issue toy_mac sessions id_bytes 7000000000 9000000000 given.0 given.1 toy_bytes
        id_IsByte (omega arith) issued_given).1
      (inr (omega arith))

-- A MAC that is the same for all texts: a token of a cookie is the signature of that cookie.
abbrev flat_mac : Str → Str → Str
flat_mac key text = 1 ∷ []

flat_bytes : (key text : Str) → All IsByte (flat_mac key text)
flat_bytes key text = (omega arith, tt)

abbrev stamp : Str
stamp = encode (format_int (pos 7))

abbrev flat_cookie : Str
flat_cookie = join full_stop (str "a" ∷ stamp ∷ encode (1 ∷ []) ∷ [])

one_IsByte : All IsByte (1 ∷ [])
one_IsByte = (omega arith, tt)

parsed_seven : parse_int (format_int (pos 7)) ≡ some (pos 7)
parsed_seven = parse_int-format_int 7 (omega arith)

flat_separate : All (Lacks full_stop) (str "a" ∷ stamp ∷ encode (1 ∷ []) ∷ [])
flat_separate = (
  (λ e. omega (arith, e), tt),
  (encode-Lacks _ (format_int-IsByte 7), (encode-Lacks _ one_IsByte, tt)),
)

flat-IsLive : IsLive (pos 3600000000000) (pos 7) 9000000000
flat-IsLive = inr (omega arith)

abbrev flat_Accepts : Accepts flat_mac sessions 9000000000 flat_cookie
flat_Accepts = record {
  id = str "a";
  ts = stamp;
  sig = encode (1 ∷ []);
  raw = format_int (pos 7);
  issued = pos 7;
  joined = refl;
  separate = flat_separate;
  signed = decode-encode (1 ∷ []) one_IsByte;
  stamped = decode-encode _ (format_int-IsByte 7);
  parsed = parsed_seven;
  live = flat-IsLive;
}

flat_token_is : encode (1 ∷ []) ≡ csrf_token flat_mac sessions flat_cookie
unfolding csrf_token
flat_token_is = refl

flat_token : verify_csrf flat_mac sessions flat_cookie flat_Accepts.sig ≡ true
flat_token = (verify_csrf_iff flat_mac sessions flat_cookie _).1 flat_token_is

signature_as_token_example :
    ((str "csrf:" ++ flat_cookie) ≢ (flat_Accepts.id ++ (b'.' ∷ flat_Accepts.ts)))
    × (flat_mac sessions.secret (str "csrf:" ++ flat_cookie)
        ≡ flat_mac sessions.secret (flat_Accepts.id ++ (b'.' ∷ flat_Accepts.ts)))
signature_as_token_example =
    signature_as_token flat_mac sessions 9000000000 9000000000 flat_cookie flat_cookie flat_bytes
      ((verify_iff flat_mac sessions 9000000000 flat_cookie).1 flat_Accepts) flat_Accepts flat_token

gate_iff_example :
    (gate {V = Unit} toy_mac operator 9000000000 (visit given.1) ≡ none)
    ↔ Admitted toy_mac operator 9000000000 (visit given.1)
gate_iff_example = gate_iff toy_mac operator 9000000000 (visit given.1)

login_passes :
    (value : Str) × ((handle_login {V = Unit} toy_mac operator
        (some id_bytes)
        7000000000
        login).0.set_cookies
      ≡ session_cookie operator value ∷ [])
    × (cookie (str "sid") (visit given.1) ≡ some value
        → gate {V = Unit} toy_mac operator 9000000000 (visit given.1) ≡ none)
unfolding form_value lookup text_beq is_unsafe_method
login_passes =
    handle_login-gate Unit toy_mac operator id_bytes 7000000000 9000000000 login (visit given.1)
      toy_bytes id_IsByte (omega arith) refl refl refl refl (inr (omega arith))

handle_login-gate_example :
    (value : Str) × ((handle_login {V = Unit} toy_mac operator
        (some id_bytes)
        7000000000
        login).0.set_cookies
      ≡ session_cookie operator value ∷ [])
    × (cookie (str "sid") (visit given.1) ≡ some value
        → gate {V = Unit} toy_mac operator 9000000000 (visit given.1) ≡ none)
unfolding form_value lookup text_beq is_unsafe_method
handle_login-gate_example =
    handle_login-gate Unit toy_mac operator id_bytes 7000000000 9000000000 login (visit given.1)
      toy_bytes id_IsByte (omega arith) refl refl refl refl (inr (omega arith))

handle_login-refused_example :
    (login.form_error ≡ false)
    × (form_value (str "username") login ≡ operator.username)
    × (form_value (str "password") login ≡ operator.password)
handle_login-refused_example =
    handle_login-refused Unit toy_mac operator (some id_bytes) 7000000000 login
      (λ e. cc (e, login_passes.1))
