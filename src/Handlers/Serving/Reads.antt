-- ===== src/Handlers/Serving/Reads.antt =====
-- What a request can do to the server, by what it carries.
use kasten_frs_web.Base.{
  ℕ, refl, inl, inr, true, some, Str, str, nat_eq, text_eq, ◌≡◌, subst, ◌⊎◌, List, Bool-cases,
}
use kasten_frs_web.Auth.{csrf_token}
use kasten_frs_web.Auth.Gate.{csrf_presented}
use kasten_frs_web.Auth.Gate.Meaning.{Admitted}
use kasten_frs_web.Handlers.Routes.{
  Route, to_healthz, to_readyz, to_login_page, to_login, to_logout, to_static, to_root_redirect,
  dispatch,
}
use kasten_frs_web.Handlers.Routes.Guarded.{is_open, is_changing, Rightful, dispatch-Rightful}
use kasten_frs_web.Handlers.Server.{Page, Server, State, Reply}
use kasten_frs_web.Handlers.Serving.{FileServer, Moment, handle, serve_dispatched, serve}
use kasten_frs_web.Handlers.Serving.Quiet.{IsQuiet, ReadingKeeps}
use kasten_frs_web.Handlers.Serving.Quiet.Handling.{After, handle-IsQuiet}
use kasten_frs_web.Http.{Request, Response}

module _ {W : Type 0} (srv : Server W) (files : FileServer) (Holds : W → Type 0)
    (k : ReadingKeeps srv Holds) where
  -- The handlers outside the gate.
  handle-open :
      (m : Moment) (r : Request) (route : Route) (s t : State W) (reply : Reply)
      → is_open route ≡ true
      → handle srv files m r route s ≡ some (reply, t)
      → t ≡ s
  unfolding handle is_open
  handle-open m r to_healthz s t reply o e = cc
  handle-open m r to_readyz s t reply o e = cc
  handle-open m r to_login_page s t reply o e = cc
  handle-open m r to_login s t reply o e = cc
  handle-open m r to_logout s t reply o e = cc
  handle-open m r to_static s t reply o e = cc
  handle-open m r to_root_redirect s t reply o e = cc
  handle-open m r route s t reply o e = cc

  -- What a request may have done: nothing; or, with a session of its own, what a page that only
  -- reads does; or it came by POST with the CSRF token of that session.
  pub MayDo : ℕ → Request → State W → State W → Type 0
  MayDo now r s t =
      (t ≡ s)
      ⊎ ((a : Admitted srv.mac srv.auth now r) × (IsQuiet srv Holds now r s t
            ⊎ ((r.method ≡ str "POST")
                × (csrf_presented r ≡ csrf_token srv.mac srv.auth.sessions a.value))))

  routed-MayDo :
      (m : Moment) (r : Request) (route : Route) (s t : State W) (reply : Reply)
      → Holds s.world
      → Rightful srv.mac srv.auth m.now r route
      → handle srv files m r route s ≡ some (reply, t)
      → MayDo m.now r s t
  unfolding MayDo Rightful
  routed-MayDo m r route s t reply h (inl (open', harmless)) e =
      inl (handle-open m r route s t reply open' e)
  routed-MayDo m r route s t reply h (inr (a, token)) e = elim (Bool-cases (is_changing route)) [
    | inl y ↦ inr (a, inr (token y))
    | inr n ↦ inr (
      a,
      inl (
          subst (After srv files Holds k (IsQuiet srv Holds m.now r s)) e
            (handle-IsQuiet srv files Holds k m r route s h n)),
    )
  ]

  dispatched-MayDo :
      (m : Moment) (r : Request) (path : List Str) (d : Response Page ⊎ Route) (s t : State W)
      (reply : Reply)
      → dispatch srv.mac srv.auth m.now r path ≡ d
      → Holds s.world
      → serve_dispatched srv files m r d s ≡ some (reply, t)
      → MayDo m.now r s t
  unfolding MayDo serve_dispatched
  dispatched-MayDo m r path (inl denied) s t reply d h e = inl (cc)
  dispatched-MayDo m r path (inr route) s t reply d h e =
      routed-MayDo m r route s t reply h (dispatch-Rightful srv.mac srv.auth m.now r path route d) e

  -- Where every call but dialling, creating and deleting keeps what holds of the cluster and the
  -- SFTP servers: a served request has changed nothing; or it carries a session that Verify accepts,
  -- and has kept what held, the watch map and the watchers, and the pool but for a Get of a session
  -- of its own; or it came by POST with the CSRF token of such a session.
  pub serve-MayDo :
      (m : Moment) (r : Request) (path : List Str) (s t : State W) (reply : Reply)
      → Holds s.world
      → serve srv files m r path s ≡ some (reply, t)
      → MayDo m.now r s t
  unfolding serve
  serve-MayDo m r path s t reply h e = dispatched-MayDo m r path _ s t reply refl h e
