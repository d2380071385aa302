-- ===== src/Handlers/Sessions.antt =====
-- The handlers of handlers.go and sessions.go for the table of FRSes: showing it, connecting to an
-- FRS, deleting one, and logging out.
pub mod Effects
use kasten_frs_web.Base.{
  ℕ, true, not, Option, none, some, List, [], ◌∷◌, ◌++◌, if◌then◌else◌, Result, ok, err, Str, str,
  nat_eq, text_eq,
}
use kasten_frs_web.Auth.{full_stop}
use kasten_frs_web.Base.Int.{negsuc, beq_ℤ}
use kasten_frs_web.Handlers.Server.{
  Page, sessions_page, Reply, Server, State, render, render_error, browse_url, in_world,
  session_key, page_token,
}
use kasten_frs_web.Handlers.Watch.{watch_del}
use kasten_frs_web.Http.{Request, see_other}
use kasten_frs_web.K8s.{FrsRef, FrsView}
use kasten_frs_web.K8s.Frs.Writing.{delete_frs}
use kasten_frs_web.SftpClient.Pool.{Handle, store, close_all_for_frs}
use kasten_frs_web.Std.Strconv.{format_int}

-- handleLogout.
unfoldable pub handle_logout : {W : Type 0} → Server W → Reply
handle_logout srv = record (see_other {V = Page} (str "/login")) {
  set_cookies =
      record {
        name = srv.auth.cookie_name;
        value = [];
        path = str "/";
        max_age = negsuc 0;
        http_only = true;
        secure = true;
        same_site_strict = true;
      }
      ∷ [];
}

module _ {W : Type 0} (srv : Server W) where
  open srv use {frs, sftp, frs_port}

  -- enrichFRSContext.
  unfoldable pub enrich : List FrsView → State W → List FrsView × State W
  enrich [] s = ([], s)
  enrich (v ∷ vs) s =
      let (w, s1) = in_world (frs.lookup_source v) s in let (ws, s2) = enrich vs s1 in (w ∷ ws, s2)

  abbrev pub sessions_listed : Request → Result Str (List FrsView) × State W → Reply × State W
  sessions_listed r (err e, s) = (render_error 502 (str "Failed to list FRSes") e, s)
  sessions_listed r (ok views, s) =
      (render 200 (sessions_page (enrich views s).0 (page_token srv r)), (enrich views s).1)

  unfoldable pub handle_sessions : Request → State W → Reply × State W
  handle_sessions r s = sessions_listed r (in_world (frs.list_all srv.ns_whitelist) s)

  abbrev pub connect_dialled : FrsRef → ℕ → Request → Result Str Handle × State W → Reply × State W
  connect_dialled ref now r (err e, s) = (render_error 502 (str "SFTP connection failed") e, s)
  connect_dialled ref now r (ok sess, s) = (
    see_other (browse_url ref (str "/")),
    record s { pool = store (session_key srv ref r) sess now s.pool },
  )

  -- "%s.%s.svc.cluster.local:%d"
  abbrev pub service_addr : FrsView → Str
  service_addr v =
      v.service_name
      ++ (full_stop ∷ (v.service_ns ++ (str ".svc.cluster.local:" ++ format_int v.port)))

  abbrev pub connect_viewed : FrsRef → ℕ → Request → Result Str FrsView × State W → Reply × State W
  connect_viewed ref now r (err e, s) = (render_error 502 (str "Failed to query FRS") e, s)
  connect_viewed ref now r (ok v, s) =
      let dialled =
        connect_dialled ref now r (in_world (sftp.dial (service_addr v) v.host_key_sig) s) in
      if not (beq_ℤ v.port frs_port)
      then (
        render_error 400 (str "FRS port not permitted") (
            str "FRS reports port "
            ++ (format_int v.port
                ++ (str " but only " ++ (format_int frs_port ++ str " is allowed")))),
        s,
      )
      else dialled

  unfoldable pub handle_connect : FrsRef → ℕ → Request → State W → Reply × State W
  handle_connect ref now r s = connect_viewed ref now r (in_world (frs.get_frs ref) s)

  abbrev pub deleted : FrsRef → Option Str × State W → Reply × State W
  deleted ref (some e, s) = (render_error 502 (str "Failed to delete FRS") e, s)
  deleted ref (none, s) = (
    see_other (str "/sessions"),
    record s {
      pool = close_all_for_frs ref.namespace ref.name s.pool;
      watches = watch_del ref s.watches;
    },
  )

  unfoldable pub handle_session_delete : FrsRef → State W → Reply × State W
  handle_session_delete ref s = deleted ref (in_world (frs.delete_frs ref.namespace ref.name) s)
