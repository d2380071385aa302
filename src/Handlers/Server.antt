-- ===== src/Handlers/Server.antt =====
-- What the handlers of internal/handlers share: the Server's parts and state, the pages, and the small
-- functions by which the handlers read a request and answer it. A handler runs to its end before the
-- next one starts; templates render without error.
-- newBrowseEntry's rows.
use kasten_frs_web.Base.{ℕ, Bool, Option, none, some, List, [], ◌∷◌, ◌++◌, Result, Str, str}
use kasten_frs_web.Auth.Gate.{Authenticator, csrf_token_of_request}
use kasten_frs_web.Base.Int.{ℤ}
use kasten_frs_web.Handlers.Watch.{WatchState, Watches}
use kasten_frs_web.Http.{view, Request, or_empty, query_value, cookie, Response}
use kasten_frs_web.K8s.{FrsRef, FrsView}
use kasten_frs_web.K8s.Frs.Writing.{FrSpec}
use kasten_frs_web.K8s.RestorePoints.{Vm, RestorePoint}
use kasten_frs_web.K8s.RestorePoints.Details.{VolumeArtifact}
use kasten_frs_web.SftpClient.{FileInfo}
use kasten_frs_web.SftpClient.Listing.{Entry}
use kasten_frs_web.SftpClient.Pool.{SessionKey, Handle, Pool, get}
use kasten_frs_web.Std.Strings.{slash, split_once}

pub record BrowseEntry : Type 0 where
  pub name : Str
  pub is_dir : Bool
  pub size : ℤ
  pub mod_time : ℕ
  pub click_path : Str
  pub is_symlink : Bool
  pub original_name : Str

pub record TarEntry : Type 0 where
  pub name : Str
  pub info : FileInfo
  pub content : Str

-- What the templates are given, less the user and the version. The texts are: of an error page its
-- title and message; of the others the state and the error shown, and the CSRF token.
pub data Page : Type 0 where
  error_page : Str → Str → Page
  missing_page : List Str → Page
  sessions_page : List FrsView → Str → Page
  preparing_page : FrsRef → Str → Str → Str → Page
  preparing_fragment : FrsRef → Str → Str → Str → Page
  browse_page : FrsRef → Str → List BrowseEntry → Str → Page
  file : Str → Page
  archive : List TarEntry → Page
  login_page : Page
  wizard_page : List Str → Str → Page
  namespaces_fragment : List Str → Page
  vms_fragment : List Vm → Page
  rps_fragment : List RestorePoint → Str → Page
  volumes_fragment : List VolumeArtifact → Str → Page

abbrev pub Reply : Type 0
Reply = Response Page

-- FRSProvider, over the state of the cluster; an error is its text.
pub record FrsProvider (W : Type 0) : Type 0 where
  pub list_all : List Str → W → Result Str (List FrsView) × W
  pub get_frs : FrsRef → W → Result Str FrsView × W
  pub create_frs : Str → FrSpec → W → Result Str FrsView × W
  pub delete_frs : Str → Str → W → Option Str × W
  pub lookup_source : FrsView → W → FrsView × W
  pub list_vms_of : List Str → W → Result Str (List Vm) × W
  pub list_namespaces : W → Result Str (List Str) × W
  pub list_points : Str → Str → W → Result Str (List RestorePoint) × W
  pub get_details : Str → Str → W → Result Str (List VolumeArtifact) × W

-- The pool's Client and the methods of a Session, the session given by its handle. Copying from a
-- reader gives the bytes copied and the error that stopped it.
pub record Sftp (W : Type 0) : Type 0 where
  pub dial : Str → Str → W → Result Str Handle × W
  pub list_dir : Handle → Str → W → Result Str (List Entry) × W
  pub stat : Handle → Str → W → Result Str FileInfo × W
  pub open_file : Handle → Str → W → Result Str ℕ × W
  pub copy : ℕ → W → (Str × Option Str) × W

-- The fields of Server that do not change, with the parts of the standard library that the handlers
-- call: the MAC of the session store, url.QueryEscape, url.PathEscape, tar.FileInfoHeader, which
-- refuses some files, and WriteHeader of the archive.
pub record Server (W : Type 0) : Type 0 where
  pub auth : Authenticator
  pub frs : FrsProvider W
  pub sftp : Sftp W
  pub frs_port : ℤ
  pub pub_key_pem : Str
  pub ns_whitelist : List Str
  pub frs_timeout : ℤ
  pub mac : Str → Str → Str
  pub query_escape : Str → Str
  pub path_escape : Str → Str
  pub tar_header : FileInfo → Option Str
  pub write_header : Str → FileInfo → W → Option Str × W

-- What the handlers change; `watchers` are the goroutines started by handleWizardCreate.
pub record State (W : Type 0) : Type 0 where
  pub pool : Pool
  pub watches : Watches
  pub watchers : List FrsRef
  pub world : W

abbrev pub html_header : List (Str × Str)
html_header = (str "Content-Type", str "text/html; charset=utf-8") ∷ []

abbrev pub render : ℕ → Page → Reply
render status page = record {
  status = status;
  headers = html_header;
  set_cookies = [];
  content = view page;
}

abbrev pub render_error : ℕ → Str → Str → Reply
render_error status title text = render status (error_page title text)

unfoldable pub parse_frs_query : Request → Option (FrsRef × Str)
parse_frs_query r = elim (split_once slash (query_value (str "frs") r)) [
  | none ↦ none
  | some (ns, name) ↦ some (record { namespace = ns; name = name }, query_value (str "path") r)
]

abbrev pub bad_query : Reply
bad_query = render_error 400 (str "Invalid frs query") (str "invalid frs query")

unfoldable pub user_id_from_cookie : Request → Str → Str
user_id_from_cookie r name = or_empty (cookie name r)

-- "/browse?frs=<ns>/<name>&path=<path>"
abbrev pub browse_url : FrsRef → Str → Str
browse_url ref path =
    str "/browse?frs=" ++ (ref.namespace ++ (slash ∷ (ref.name ++ (str "&path=" ++ path))))

abbrev pub session_expired : Reply
session_expired =
    render_error 401 (str "SFTP session expired")
      (str "Please return to FRS Sessions and re-click Browse")

module _ {W : Type 0} where
  abbrev pub in_world : {X : Type 0} → (W → X × W) → State W → X × State W
  in_world f s = ((f s.world).0, record s { world = (f s.world).1 })

  abbrev pub session_key : Server W → FrsRef → Request → SessionKey
  session_key srv ref r = record {
    user_session_id = user_id_from_cookie r srv.auth.cookie_name;
    frs = ref;
  }

  -- s.pool.Get of the request's session for an FRS.
  abbrev pub pool_get : Server W → FrsRef → ℕ → Request → State W → Option Handle × State W
  pool_get srv ref now r s = (
    (get (session_key srv ref r) now s.pool).0,
    record s { pool = (get (session_key srv ref r) now s.pool).1 },
  )

  abbrev pub page_token : Server W → Request → Str
  page_token srv r = csrf_token_of_request srv.mac srv.auth r

  unfoldable pub render_preparing : Server W → Request → FrsRef → WatchState → Reply
  render_preparing srv r ref ws =
      render 200 (preparing_page ref ws.state (or_empty ws.error) (page_token srv r))

  unfoldable pub render_preparing_body : Server W → Request → FrsRef → WatchState → Reply
  render_preparing_body srv r ref ws =
      render 200 (preparing_fragment ref ws.state (or_empty ws.error) (page_token srv r))
