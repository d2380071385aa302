-- ===== src/Middleware.antt =====
-- internal/logging/logging.go and internal/server: the access log, recovery from panics, the security
-- headers, and the end of the server. A handler is what it writes, in order, and whether it panics.
-- Of a line of the access log, the query, the duration and the client are left out.
pub mod Recording
mod Tests
use kasten_frs_web.Base.{
  nat_eq, text_eq, ◌||◌, ℕ, ◌+◌, Bool, false, Option, none, some, List, [], ◌∷◌, ◌++◌,
  if◌then◌else◌, ◌==◌, Str, str, length, insert,
}
use kasten_frs_web.Http.{Request, header, Response}
use kasten_frs_web.Std.Paths.{base}

pub data Level : Type 0 where
  debug_level info_level warn_level error_level : Level

-- The level of logging.New; the text is lower-cased by strings.ToLower, which is a parameter.
unfoldable pub level_of : (Str → Str) → Str → Level
level_of to_lower level =
    if to_lower level == str "debug"
    then debug_level
    else if to_lower level == str "warn"
    then warn_level
    else if to_lower level == str "error"
    then error_level
    else info_level

-- What WithRequestID and WithSessionID put into a context.
pub record LogContext : Type 0 where
  pub request_id : Option Str
  pub session_id : Option Str

abbrev pub with_attr : Str → Option Str → List (Str × Str) → List (Str × Str)
with_attr name none attrs = attrs
with_attr name (some v) attrs = if v == [] then attrs else attrs ++ ((name, v) ∷ [])

-- FromContext: the attributes of the logger.
unfoldable pub from_context : LogContext → List (Str × Str) → List (Str × Str)
from_context ctx base =
    with_attr (str "session_id") ctx.session_id (with_attr (str "request_id") ctx.request_id base)

-- newRequestID, with what rand.Read gives (`none` is an error), hex.EncodeToString, and the time's
-- digits for an error.
unfoldable pub new_request_id : (Str → Str) → Str → Option Str → Str
new_request_id hex time_digits none = time_digits
new_request_id hex time_digits (some b) = hex b

-- A call of a handler on its ResponseWriter.
pub data Write : Type 0 where
  write_header : ℕ → Write
  write_body : Str → Write

pub record Written : Type 0 where
  pub writes : List Write
  pub panics : Bool

-- statusRecorder
pub record Recorder : Type 0 where
  pub status : ℕ
  pub written : ℕ

unfoldable pub record_write : Recorder → Write → Recorder
record_write r (write_header code) = record r { status = code }
record_write r (write_body b) = record r { written = r.written + length b }

unfoldable pub record_all : Recorder → List Write → Recorder
record_all r [] = r
record_all r (w ∷ writes) = record_all (record_write r w) writes

pub record AccessLine : Type 0 where
  pub request_id : Str
  pub method : Str
  pub path : Str
  pub status : ℕ
  pub bytes : ℕ

abbrev pub request_id_of : Str → Request → Str
request_id_of fresh r =
    if header (str "X-Request-Id") r == [] then fresh else header (str "X-Request-Id") r

abbrev pub is_probe : Str → Bool
is_probe path = path == str "/healthz" || path == str "/readyz"

-- AccessLog's line for a request, given a fresh id; there is none for a probe, nor after a panic.
unfoldable pub access_log : Str → Request → Written → Option AccessLine
access_log fresh r h =
    if is_probe r.path || h.panics
    then none
    else some (record {
      request_id = request_id_of fresh r;
      method = r.method;
      path = r.path;
      status = (record_all (record { status = 200; written = 0 }) h.writes).status;
      bytes = (record_all (record { status = 200; written = 0 }) h.writes).written;
    })

-- Recoverer: http.Error after a panic.
unfoldable pub recoverer : Written → Written
recoverer h =
    if h.panics
    then record {
      writes = h.writes ++ (write_header 500 ∷ write_body (str "internal error" ++ (10 ∷ [])) ∷ []);
      panics = false;
    }
    else h

-- What net/http sends: the first status that is written, or 200 with the first of the body.
unfoldable pub send_write : Option ℕ → Write → Option ℕ
send_write (some code) w = some code
send_write none (write_header code) = some code
send_write none (write_body b) = some 200

unfoldable pub send_all : Option ℕ → List Write → ℕ
send_all none [] = 200
send_all (some code) [] = code
send_all sent (w ∷ writes) = send_all (send_write sent w) writes

-- The headers that SecurityHeaders sets on every response.
abbrev pub security_headers : List (Str × Str)
security_headers =
    (str "Strict-Transport-Security", str "max-age=63072000; includeSubDomains")
    ∷ (str "X-Content-Type-Options", str "nosniff")
    ∷ (str "X-Frame-Options", str "DENY")
    ∷ (str "Referrer-Policy", str "strict-origin-when-cross-origin")
    ∷ (
      str "Content-Security-Policy",
      str "default-src 'self'; img-src 'self' data:; style-src 'self' 'unsafe-inline'; "
          ++ str "script-src 'self'; base-uri 'self'; form-action 'self'; frame-ancestors 'none'",
    )
    ∷ (str "Permissions-Policy", str "geolocation=(), microphone=(), camera=()")
    ∷ []

-- The headers of a response, each set after those before it; a header that is set again has its
-- last value.
unfoldable pub set_headers : List (Str × Str) → List (Str × Str) → List (Str × Str)
set_headers base [] = base
set_headers base ((name, value) ∷ more) = set_headers (insert name value base) more

-- SecurityHeaders around a handler.
unfoldable pub secured : {V : Type 0} → Response V → Response V
secured r = record r { headers = set_headers security_headers r.headers }

-- What server.Run's select finds: the context is done, with what Shutdown returns within its ten
-- seconds, or Serve has returned an error.
pub data Ending : Type 0 where
  context_done : Option Str → Ending
  serve_ended : Bool → Str → Ending

-- server.Run, by how it ends; the Boolean says that Serve's error is http.ErrServerClosed.
unfoldable pub run_server : Ending → Option Str
run_server (context_done e) = e
run_server (serve_ended is_closed e) = if is_closed then none else some e
