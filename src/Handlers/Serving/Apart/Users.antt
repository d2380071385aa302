-- ===== src/Handlers/Serving/Apart/Users.antt =====
-- The answers of the whole server to a user.
use kasten_frs_web.Base.{text_eq, sym, subst, ◌⊎◌, inl, inr, some, List, Str}
use kasten_frs_web.Handlers.Archive.{handle_download_zip}
use kasten_frs_web.Handlers.Browse.{handle_browse}
use kasten_frs_web.Handlers.Download.{handle_download}
use kasten_frs_web.Handlers.Routes.{
  Route, to_healthz, to_readyz, to_login_page, to_login, to_logout, to_static, to_sessions,
  to_browse, to_download, to_download_zip, to_connect, to_session_delete, to_wizard,
  to_wizard_namespaces, to_wizard_vms, to_wizard_create, to_wizard_cancel, to_wizard_rps,
  to_wizard_details, to_root_redirect, to_not_allowed,
}
use kasten_frs_web.Handlers.Server.{Page, Server, State, parse_frs_query, user_id_from_cookie}
use kasten_frs_web.Handlers.Serving.{Moment, FileServer, handle, serve_dispatched, serve}
use kasten_frs_web.Handlers.Serving.Apart.{
  IsOf, Alike, SameAnswer, user_of, Same, framed, if-Same, unchanged, browse_parsed-Same,
  download_parsed-Same, zip_parsed-Same, listed-Same,
}
use kasten_frs_web.Handlers.Serving.Apart.Posting.{
  connect_viewed-Same, deleted-Same, create_checked-Same, cancel_parsed-Same,
}
use kasten_frs_web.Handlers.Serving.Frames.{sessions_listed-Frames}
use kasten_frs_web.Handlers.Sessions.{handle_sessions, handle_connect, handle_session_delete}
use kasten_frs_web.Handlers.Wizard.{missing_of_request, handle_wizard_create, handle_wizard_cancel}
use kasten_frs_web.Handlers.Wizard.Steps.{
  handle_wizard_page, handle_wizard_namespaces, asked_namespaces, handle_wizard_vms,
  handle_wizard_rps, handle_wizard_volumes,
}
use kasten_frs_web.Http.{Request, Response}
use kasten_frs_web.K8s.{FrsRef}
use kasten_frs_web.SftpClient.Pool.{key_eq, Pool}
use kasten_frs_web.SftpClient.Pool.Agreeing.{Agrees}

module _ {W : Type 0} (srv : Server W) (files : FileServer) (r : Request) where
  handle_sessions-Same :
      (s : State W) (q : Pool)
      → Agrees (IsOf (user_of srv r)) s.pool q
      → Same srv r
          (some (handle_sessions srv r s))
          (some (handle_sessions srv r (record s { pool = q })))
  unfolding handle_sessions
  handle_sessions-Same s q g = framed srv r s q _ _ g (
      sessions_listed-Frames srv r _
        (record s { world = (srv.frs.list_all srv.ns_whitelist s.world).1 }) q)

  handle-Same :
      (m : Moment) (route : Route) (s : State W) (q : Pool)
      → Agrees (IsOf (user_of srv r)) s.pool q
      → Same srv r
          (handle srv files m r route s)
          (handle srv files m r route (record s { pool = q }))
  unfolding handle handle_browse handle_download handle_download_zip handle_connect
      handle_session_delete handle_wizard_page handle_wizard_namespaces handle_wizard_vms
      handle_wizard_create handle_wizard_cancel handle_wizard_rps handle_wizard_volumes
  handle-Same m to_healthz s q g = unchanged srv r _ s q g
  handle-Same m to_readyz s q g = unchanged srv r _ s q g
  handle-Same m to_login_page s q g = unchanged srv r _ s q g
  handle-Same m to_login s q g = unchanged srv r _ s q g
  handle-Same m to_logout s q g = unchanged srv r _ s q g
  handle-Same m to_static s q g = unchanged srv r _ s q g
  handle-Same m to_sessions s q g = handle_sessions-Same s q g
  handle-Same m to_browse s q g = browse_parsed-Same srv r m.now (parse_frs_query r) s q g
  handle-Same m to_download s q g = download_parsed-Same srv r m.now (parse_frs_query r) s q g
  handle-Same m to_download_zip s q g = zip_parsed-Same srv r m.fuel m.now (parse_frs_query r) s q g
  handle-Same m (to_connect ns name) s q g =
      let ref : FrsRef = record { namespace = ns; name = name } in
      connect_viewed-Same srv r ref m.now _ (record s { world = (srv.frs.get_frs ref s.world).1 }) q
        g
  handle-Same m (to_session_delete ns name) s q g =
      deleted-Same srv r _ _ (record s { world = (srv.frs.delete_frs ns name s.world).1 }) q g
  handle-Same m to_wizard s q g =
      listed-Same srv r _ _ _ (record s { world = (srv.frs.list_namespaces s.world).1 }) q g
  handle-Same m to_wizard_namespaces s q g =
      listed-Same srv r _ _ _ (record s { world = (srv.frs.list_namespaces s.world).1 }) q g
  handle-Same m to_wizard_vms s q g =
      listed-Same srv r _ _ _
        (record s { world = (srv.frs.list_vms_of (asked_namespaces srv r) s.world).1 }) q g
  handle-Same m to_wizard_create s q g =
      if-Same srv r r.form_error _ _ _ _ (unchanged srv r _ s q g)
        (create_checked-Same srv r m.now (missing_of_request r) s q g)
  handle-Same m to_wizard_cancel s q g =
      if-Same srv r r.form_error _ _ _ _ (unchanged srv r _ s q g)
        (cancel_parsed-Same srv r _ s q g)
  handle-Same m (to_wizard_rps ns name) s q g =
      listed-Same srv r _ _ _ (record s { world = (srv.frs.list_points ns name s.world).1 }) q g
  handle-Same m (to_wizard_details ns name) s q g =
      listed-Same srv r _ _ _ (record s { world = (srv.frs.get_details ns name s.world).1 }) q g
  handle-Same m to_root_redirect s q g = unchanged srv r _ s q g
  handle-Same m to_not_allowed s q g = unchanged srv r _ s q g

  dispatched-Same :
      (m : Moment) (d : Response Page ⊎ Route) (s : State W) (q : Pool)
      → Agrees (IsOf (user_of srv r)) s.pool q
      → Same srv r
          (serve_dispatched srv files m r d s)
          (serve_dispatched srv files m r d (record s { pool = q }))
  unfolding serve_dispatched
  dispatched-Same m (inl denied) s q g = unchanged srv r _ s q g
  dispatched-Same m (inr route) s q g = handle-Same m route s q g

  -- In two states that differ in the pool alone, where the pools have one entry for a key and agree
  -- on the sessions of the request's cookie, a request is answered alike, and the states after it
  -- again are such: what a user is answered does not depend on the sessions of other users.
  pub serve-SameAnswer :
      (m : Moment) (path : List Str) (s u : State W)
      → Alike (user_id_from_cookie r srv.auth.cookie_name) s u
      → SameAnswer
          (user_id_from_cookie r srv.auth.cookie_name)
          (serve srv files m r path s)
          (serve srv files m r path u)
  unfolding serve
  serve-SameAnswer m path s u a =
      subst (λ z. Same srv r (serve srv files m r path s) (serve srv files m r path z)) (sym a.rest)
        (dispatched-Same m _ s u.pool a.pools)
