-- ===== src/Handlers/Serving/Quiet/Handling.antt =====
-- The handlers behind the routes that change nothing leave it at that.
use kasten_frs_web.Base.{
  ℕ, refl, inl, inr, Bool, true, false, not, ◌&&◌, Option, none, some, [], if◌then◌else◌, Result,
  ok, err, Option-cases, ◌==◌, Str, str, nat_eq, text_eq, ◌≡◌,
}
use kasten_frs_web.Handlers.Archive.{
  Walk, walk_rec, root_or_slash, zip_stated, zip_pooled, zip_parsed, handle_download_zip,
}
use kasten_frs_web.Handlers.Browse.{
  handle_partial_ready, browse_session, browse_watched, browse_parsed, handle_browse,
}
use kasten_frs_web.Handlers.Download.{download_parsed, handle_download}
use kasten_frs_web.Handlers.Routes.{
  Route, to_healthz, to_readyz, to_login_page, to_login, to_logout, to_static, to_sessions,
  to_browse, to_download, to_download_zip, to_connect, to_session_delete, to_wizard,
  to_wizard_namespaces, to_wizard_vms, to_wizard_create, to_wizard_cancel, to_wizard_rps,
  to_wizard_details, to_root_redirect, to_not_allowed,
}
use kasten_frs_web.Handlers.Routes.Guarded.{is_changing}
use kasten_frs_web.Handlers.Server.{Page, Server, State, pool_get, Reply, parse_frs_query}
use kasten_frs_web.Handlers.Serving.{FileServer, Moment, handle}
use kasten_frs_web.Handlers.Serving.Quiet.{
  Moves, IsQuiet, stays, Moves-IsQuiet, got-IsQuiet, partial_watched-Moves, browse_pooled-Moves,
  download_pooled-Moves, ReadingKeeps, sessions_listed-Moves,
}
use kasten_frs_web.Handlers.Serving.Quiet.Walking.{walk_rec-Holds}
use kasten_frs_web.Handlers.Sessions.{handle_sessions}
use kasten_frs_web.Handlers.Watch.{WatchState}
use kasten_frs_web.Handlers.Wizard.Steps.{
  listed, handle_wizard_page, handle_wizard_namespaces, handle_wizard_vms, handle_wizard_rps,
  handle_wizard_volumes,
}
use kasten_frs_web.Http.{Request, query_value}
use kasten_frs_web.K8s.{FrsRef}
use kasten_frs_web.SftpClient.{FileInfo}
use kasten_frs_web.SftpClient.Listing.{mode_dir, has_bit}
use kasten_frs_web.SftpClient.Pool.{Handle}

module _ {W : Type 0} (srv : Server W) (files : FileServer) (Holds : W → Type 0)
    (k : ReadingKeeps srv Holds) where
  -- The state after an answer that is there.
  abbrev pub After : (State W → Type 0) → Option (Reply × State W) → Type 0
  After P none = Unit
  After P (some (reply, t)) = P t

  zip_stated-Moves :
      (fuel : ℕ) (sess : Handle) (ref : FrsRef) (root : Str) (answer : Result Str FileInfo)
      (s : State W)
      → Holds s.world
      → After (Moves srv Holds s) (zip_stated srv fuel sess ref root (answer, s))
  zip_stated-Moves fuel sess ref root (err e) s h = stays srv Holds s h
  zip_stated-Moves fuel sess ref root (ok info) s h =
      let is_dir = has_bit mode_dir info.mode in
      let begun : Walk W = record { written = []; failed = none; world = s.world } in
      elim (Option-cases (walk_rec srv sess fuel root root is_dir begun)) [
        | inl n ↦ rw n tt
        | inr (u, e) ↦
            rw e (u.world, walk_rec-Holds srv Holds k sess fuel root root is_dir begun u h e, refl)
      ]

  zip_pooled-Moves :
      (fuel : ℕ) (ref : FrsRef) (root : Str) (o : Option Handle) (s : State W)
      → Holds s.world
      → After (Moves srv Holds s) (zip_pooled srv fuel ref root (o, s))
  zip_pooled-Moves fuel ref root none s h = stays srv Holds s h
  zip_pooled-Moves fuel ref root (some sess) s h =
      zip_stated-Moves fuel sess ref root _
        (record s { world = (srv.sftp.stat sess root s.world).1 }) (k.stat sess root s.world h)

  module _ (now : ℕ) (r : Request) where
    abbrev Quiet : State W → State W → Type 0
    Quiet = IsQuiet srv Holds now r

    got-After :
        (ref : FrsRef) (s : State W) (o : Option (Reply × State W))
        → After (Moves srv Holds (pool_get srv ref now r s).1) o
        → After (Quiet s) o
    got-After ref s none h = tt
    got-After ref s (some (reply, t)) h = got-IsQuiet srv Holds now r ref s t h

    if-Quiet :
        (b : Bool) (s : State W) (x y : Reply × State W)
        → Quiet s x.1
        → Quiet s y.1
        → Quiet s (if b then x else y).1
    if-Quiet true s x y h k = h
    if-Quiet false s x y h k = k

    moved : (s t : State W) → Moves srv Holds s t → Quiet s t
    moved s t h = Moves-IsQuiet srv Holds now r s t h

    unchanged : (s : State W) → Holds s.world → Quiet s s
    unchanged s h = moved s s (stays srv Holds s h)

    zip_parsed-Quiet :
        (fuel : ℕ) (q : Option (FrsRef × Str)) (s : State W)
        → Holds s.world
        → After (Quiet s) (zip_parsed srv fuel r now q s)
    zip_parsed-Quiet fuel none s h = unchanged s h
    zip_parsed-Quiet fuel (some (ref, path)) s h =
        got-After ref s _
          (zip_pooled-Moves fuel ref (root_or_slash path) _ (pool_get srv ref now r s).1 h)

    download_parsed-Quiet :
        (q : Option (FrsRef × Str)) (s : State W)
        → Holds s.world
        → Quiet s (download_parsed srv r now q s).1
    download_parsed-Quiet none s h = unchanged s h
    download_parsed-Quiet (some (ref, path)) s h =
        got-IsQuiet srv Holds now r ref s _
          (download_pooled-Moves srv Holds k path _ (pool_get srv ref now r s).1 h)

    browse_session-Quiet :
        (ref : FrsRef) (path : Str) (s : State W)
        → Holds s.world
        → Quiet s (browse_session srv r ref path now s).1
    unfolding browse_session
    browse_session-Quiet ref path s h =
        got-IsQuiet srv Holds now r ref s _
          (browse_pooled-Moves srv Holds k r ref path _ (pool_get srv ref now r s).1 h)

    browse_watched-Quiet :
        (ref : FrsRef) (path : Str) (o : Option WatchState) (s : State W)
        → Holds s.world
        → Quiet s (browse_watched srv r ref path now o s).1
    browse_watched-Quiet ref path none s h = browse_session-Quiet ref path s h
    browse_watched-Quiet ref path (some ws) s h =
        if-Quiet (ws.done && not (ws.state == str "Ready")) s _ _ (unchanged s h)
          (browse_session-Quiet ref path s h)

    browse_parsed-Quiet :
        (q : Option (FrsRef × Str)) (s : State W)
        → Holds s.world
        → Quiet s (browse_parsed srv r now q s).1
    unfolding handle_partial_ready
    browse_parsed-Quiet none s h = unchanged s h
    browse_parsed-Quiet (some (ref, path)) s h =
        if-Quiet (query_value (str "partial") r == str "ready") s _ _
          (moved s _ (partial_watched-Moves srv Holds k r ref path _ s h))
          (browse_watched-Quiet ref path _ s h)

    listed-Quiet :
        {A : Type 0} (title : Str) (page : A → Page) (answer : Result Str A) (w : W) (s : State W)
        → Holds w
        → Quiet s (listed srv title page (answer, record s { world = w })).1
    listed-Quiet title page (ok a) w s h = moved s _ (w, h, refl)
    listed-Quiet title page (err e) w s h = moved s _ (w, h, refl)

    handle_browse-Quiet : (s : State W) → Holds s.world → Quiet s (handle_browse srv now r s).1
    unfolding handle_browse
    handle_browse-Quiet s h = browse_parsed-Quiet (parse_frs_query r) s h

    handle_download-Quiet : (s : State W) → Holds s.world → Quiet s (handle_download srv now r s).1
    unfolding handle_download
    handle_download-Quiet s h = download_parsed-Quiet (parse_frs_query r) s h

    handle_download_zip-Quiet :
        (fuel : ℕ) (s : State W)
        → Holds s.world
        → After (Quiet s) (handle_download_zip srv fuel now r s)
    unfolding handle_download_zip
    handle_download_zip-Quiet fuel s h = zip_parsed-Quiet fuel (parse_frs_query r) s h

    handle_sessions-Quiet : (s : State W) → Holds s.world → Quiet s (handle_sessions srv r s).1
    unfolding handle_sessions
    handle_sessions-Quiet s h =
        let w = (srv.frs.list_all srv.ns_whitelist s.world).1 in
        let (v, kept, e) =
          sessions_listed-Moves srv Holds k r (srv.frs.list_all srv.ns_whitelist s.world).0
            (record s { world = w }) (k.list_all srv.ns_whitelist s.world h) in
        moved s _ (v, kept, e)

  -- The handlers of the routes that change nothing.
  pub handle-IsQuiet :
      (m : Moment) (r : Request) (route : Route) (s : State W)
      → Holds s.world
      → is_changing route ≡ false
      → After (IsQuiet srv Holds m.now r s) (handle srv files m r route s)
  unfolding handle is_changing handle_wizard_page handle_wizard_namespaces handle_wizard_vms
      handle_wizard_rps handle_wizard_volumes
  handle-IsQuiet m r to_healthz s h c = unchanged m.now r s h
  handle-IsQuiet m r to_readyz s h c = unchanged m.now r s h
  handle-IsQuiet m r to_login_page s h c = unchanged m.now r s h
  handle-IsQuiet m r to_login s h c = unchanged m.now r s h
  handle-IsQuiet m r to_logout s h c = unchanged m.now r s h
  handle-IsQuiet m r to_static s h c = unchanged m.now r s h
  handle-IsQuiet m r to_sessions s h c = handle_sessions-Quiet m.now r s h
  handle-IsQuiet m r to_browse s h c = handle_browse-Quiet m.now r s h
  handle-IsQuiet m r to_download s h c = handle_download-Quiet m.now r s h
  handle-IsQuiet m r to_download_zip s h c = handle_download_zip-Quiet m.now r m.fuel s h
  handle-IsQuiet m r (to_connect ns name) s h c = cc
  handle-IsQuiet m r (to_session_delete ns name) s h c = cc
  handle-IsQuiet m r to_wizard s h c = listed-Quiet m.now r _ _ _ _ s (k.list_namespaces s.world h)
  handle-IsQuiet m r to_wizard_namespaces s h c =
      listed-Quiet m.now r _ _ _ _ s (k.list_namespaces s.world h)
  handle-IsQuiet m r to_wizard_vms s h c =
      listed-Quiet m.now r _ _ _ _ s (k.list_vms_of _ s.world h)
  handle-IsQuiet m r to_wizard_create s h c = cc
  handle-IsQuiet m r to_wizard_cancel s h c = cc
  handle-IsQuiet m r (to_wizard_rps ns name) s h c =
      listed-Quiet m.now r _ _ _ _ s (k.list_points ns name s.world h)
  handle-IsQuiet m r (to_wizard_details ns name) s h c =
      listed-Quiet m.now r _ _ _ _ s (k.get_details ns name s.world h)
  handle-IsQuiet m r to_root_redirect s h c = unchanged m.now r s h
  handle-IsQuiet m r to_not_allowed s h c = unchanged m.now r s h
