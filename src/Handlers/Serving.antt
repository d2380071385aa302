-- ===== src/Handlers/Serving.antt =====
-- The server of internal/handlers/handlers.go as a whole: what a request is answered by, once routes
-- has found its handler, and the histories of a server that runs.
pub mod Quiet
pub mod Reads
pub mod Pooled
pub mod Histories
pub mod Frames
pub mod Apart
pub mod Headers
pub mod Secured
mod Tests
use kasten_frs_web.Base.{
  ℕ, Option, some, List, [], ◌∷◌, Str, str, ◌≡◌, ◌⊎◌, inl, inr, text_eq, nat_eq,
}
use kasten_frs_web.Auth.Gate.{handle_login}
use kasten_frs_web.Base.Int.{ℤ}
use kasten_frs_web.Handlers.Archive.{handle_download_zip}
use kasten_frs_web.Handlers.Browse.{handle_browse}
use kasten_frs_web.Handlers.Download.{handle_download}
use kasten_frs_web.Handlers.Routes.{
  Route, to_healthz, to_readyz, to_login_page, to_login, to_logout, to_static, to_sessions,
  to_browse, to_download, to_download_zip, to_connect, to_session_delete, to_wizard,
  to_wizard_namespaces, to_wizard_vms, to_wizard_create, to_wizard_cancel, to_wizard_rps,
  to_wizard_details, to_root_redirect, to_not_allowed, dispatch,
}
use kasten_frs_web.Handlers.Server.{Page, Reply, Server, State}
use kasten_frs_web.Handlers.Sessions.{
  handle_logout, handle_sessions, handle_connect, handle_session_delete,
}
use kasten_frs_web.Handlers.Wizard.{handle_wizard_create, handle_wizard_cancel, finish_watch}
use kasten_frs_web.Handlers.Wizard.Steps.{
  handle_login_page, handle_wizard_page, handle_wizard_namespaces, handle_wizard_vms,
  handle_wizard_rps, handle_wizard_volumes, start_background,
}
use kasten_frs_web.Http.{Request, Response, message, see_other, http_error}
use kasten_frs_web.K8s.{FrsRef, FrsView}
use kasten_frs_web.SftpClient.Pool.{new_pool}

abbrev pub healthy : Reply
healthy = record { status = 200; headers = []; set_cookies = []; content = message (str "ok") }

-- What the shim before the file server sets.
abbrev pub no_cache_headers : List (Str × Str)
no_cache_headers =
    (str "Cache-Control", str "no-store, no-cache, must-revalidate")
    ∷ (str "Pragma", str "no-cache")
    ∷ (str "Expires", str "0")
    ∷ []

-- What comes with a request from outside: the time, what rand.Read gives if the request logs in,
-- and the fuel of an archive.
pub record Moment : Type 0 where
  pub now : ℕ
  pub id_bytes : Option Str
  pub fuel : ℕ

-- http.FileServer over the embedded files, given the headers that are set before it.
abbrev pub FileServer : Type 0
FileServer = Request → List (Str × Str) → Reply

-- The state in which handlers.New leaves a server.
abbrev pub new_state : {W : Type 0} → ℤ → W → State W
new_state ttl w = record { pool = new_pool ttl; watches = []; watchers = []; world = w }

module _ {W : Type 0} (srv : Server W) (files : FileServer) where
  -- The handler behind a route; only an archive can run out of its fuel.
  unfoldable pub handle : Moment → Request → Route → State W → Option (Reply × State W)
  handle m r to_healthz s = some (healthy, s)
  handle m r to_readyz s = some (healthy, s)
  handle m r to_login_page s = some (handle_login_page, s)
  handle m r to_login s = some ((handle_login srv.mac srv.auth m.id_bytes m.now r).0, s)
  handle m r to_logout s = some (handle_logout srv, s)
  handle m r to_static s = some (files r no_cache_headers, s)
  handle m r to_sessions s = some (handle_sessions srv r s)
  handle m r to_browse s = some (handle_browse srv m.now r s)
  handle m r to_download s = some (handle_download srv m.now r s)
  handle m r to_download_zip s = handle_download_zip srv m.fuel m.now r s
  handle m r (to_connect ns name) s =
      some (handle_connect srv (record { namespace = ns; name = name }) m.now r s)
  handle m r (to_session_delete ns name) s =
      some (handle_session_delete srv (record { namespace = ns; name = name }) s)
  handle m r to_wizard s = some (handle_wizard_page srv r s)
  handle m r to_wizard_namespaces s = some (handle_wizard_namespaces srv r s)
  handle m r to_wizard_vms s = some (handle_wizard_vms srv r s)
  handle m r to_wizard_create s = some (handle_wizard_create srv m.now r s)
  handle m r to_wizard_cancel s = some (handle_wizard_cancel srv r s)
  handle m r (to_wizard_rps ns name) s = some (handle_wizard_rps srv ns name s)
  handle m r (to_wizard_details ns name) s = some (handle_wizard_volumes srv ns name s)
  handle m r to_root_redirect s = some (see_other (str "/sessions"), s)
  handle m r to_not_allowed s = some (http_error 405 (str "Method Not Allowed"), s)

  unfoldable pub serve_dispatched :
      Moment → Request → Response Page ⊎ Route → State W → Option (Reply × State W)
  serve_dispatched m r (inl denied) s = some (denied, s)
  serve_dispatched m r (inr route) s = handle m r route s

  -- A request for a path, given as its segments.
  unfoldable pub serve : Moment → Request → List Str → State W → Option (Reply × State W)
  serve m r path s = serve_dispatched m r (dispatch srv.mac srv.auth m.now r path) s

  -- What can happen to a server: it serves a request; the goroutine that watches an FRS ends; the
  -- sweeper has its ticks; and the cluster and the SFTP servers change by themselves.
  pub data Step (s : State W) (t : State W) : Type 0 where
    serves :
        (m : Moment) (r : Request) (path : List Str) (reply : Reply)
        → serve m r path s ≡ some (reply, t)
        → Step s t
    watch_ends :
        (ref : FrsRef) (v : FrsView) (e : Option Str) (now : ℕ)
        → t ≡ finish_watch srv ref v e now s
        → Step s t
    sweeps : (ticks : List ℕ) → t ≡ start_background srv ticks s → Step s t
    changes : (w : W) → t ≡ record s { world = w } → Step s t

  -- The states that a server can come to, with a pool of a ttl.
  pub data Reach (ttl : ℤ) : State W → Type 0 where
    here : (w : W) → Reach ttl (new_state ttl w)
    next : {s t : State W} → Reach ttl s → Step s t → Reach ttl t
