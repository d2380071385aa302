-- ===== src/Handlers/Serving/Histories.antt =====
-- The sessions in the pool after any history of a server.
use kasten_frs_web.Base.{ℕ, ◌≡◌, refl, subst, ◌⊎◌, inl, inr, some, List, some_eq, Bool-cases, Str}
use kasten_frs_web.Base.Int.{ℤ}
use kasten_frs_web.Handlers.Routes.{Route, dispatch}
use kasten_frs_web.Handlers.Routes.Guarded.{is_changing, Rightful, dispatch-Rightful}
use kasten_frs_web.Handlers.Server.{Reply, Page, Server, State, session_key, pool_get}
use kasten_frs_web.Handlers.Serving.{
  here, next, Step, sweeps, Reach, Moment, FileServer, handle, serve_dispatched, serve, serves,
  watch_ends, changes,
}
use kasten_frs_web.Handlers.Serving.Pooled.{
  Dialled, AllDialled, quiet-AllDialled, changing-AllDialled,
}
use kasten_frs_web.Handlers.Serving.Quiet.{ReadingKeeps, IsQuiet}
use kasten_frs_web.Handlers.Serving.Quiet.Handling.{After, handle-IsQuiet}
use kasten_frs_web.Handlers.Wizard.{finish_watch}
use kasten_frs_web.Handlers.Wizard.Steps.{start_background}
use kasten_frs_web.Http.{Request, Response}
use kasten_frs_web.K8s.{FrsRef}
use kasten_frs_web.SftpClient.Pool.{Handle, new_pool}
use kasten_frs_web.SftpClient.Pool.Kept.{get-pooled}

module _ {W : Type 0} (srv : Server W) (files : FileServer) where
  always : ReadingKeeps srv (λ w. Unit {0})
  always = record {
    list_all = λ ns w h. tt;
    get_frs = λ ref w h. tt;
    lookup_source = λ v w h. tt;
    list_vms_of = λ ns w h. tt;
    list_namespaces = λ w h. tt;
    list_points = λ ns name w h. tt;
    get_details = λ ns name w h. tt;
    list_dir = λ x p w h. tt;
    stat = λ x p w h. tt;
    open_file = λ x p w h. tt;
    copy = λ reader w h. tt;
    write_header = λ name info w h. tt;
  }

  routed-AllDialled :
      (m : Moment) (r : Request) (route : Route) (s t : State W) (reply : Reply)
      → Rightful srv.mac srv.auth m.now r route
      → AllDialled srv s
      → handle srv files m r route s ≡ some (reply, t)
      → AllDialled srv t
  unfolding Rightful
  routed-AllDialled m r route s t reply rightful h e = elim (Bool-cases (is_changing route)) [
    | inr n ↦
        quiet-AllDialled srv m.now r s t
          (subst (After srv files (λ w. Unit {0}) always (IsQuiet srv (λ w. Unit {0}) m.now r s)) e
            (handle-IsQuiet srv files (λ w. Unit {0}) always m r route s tt n))
          h
    | inl y ↦ elim rightful [
      | inl (open', harmless) ↦ cc
      | inr (a, token) ↦ changing-AllDialled srv files m r route s t reply a (token y) y h e
    ]
  ]

  dispatched-AllDialled :
      (m : Moment) (r : Request) (path : List Str) (d : Response Page ⊎ Route) (s t : State W)
      (reply : Reply)
      → dispatch srv.mac srv.auth m.now r path ≡ d
      → AllDialled srv s
      → serve_dispatched srv files m r d s ≡ some (reply, t)
      → AllDialled srv t
  unfolding serve_dispatched
  dispatched-AllDialled m r path (inl denied) s t reply d h e =
      subst (λ x. AllDialled srv x.1) (some_eq e) h
  dispatched-AllDialled m r path (inr route) s t reply d h e =
      routed-AllDialled m r route s t reply
        (dispatch-Rightful srv.mac srv.auth m.now r path route d) h e

  Step-AllDialled : {s t : State W} → Step srv files s t → AllDialled srv s → AllDialled srv t
  unfolding serve finish_watch start_background
  Step-AllDialled (serves m r path reply e) h = dispatched-AllDialled m r path _ _ _ reply refl h e
  Step-AllDialled (watch_ends ref v e now q) h = rw q h
  Step-AllDialled (sweeps ticks q) h = rw q h
  Step-AllDialled (changes w q) h = rw q h

  Reach-AllDialled : {ttl : ℤ} {s : State W} → Reach srv files ttl s → AllDialled srv s
  unfolding new_pool
  Reach-AllDialled (here w) = tt
  Reach-AllDialled (next p st) = Step-AllDialled st (Reach-AllDialled p)

  -- Whatever has happened to the server: a session that the pool has for a request and an FRS was
  -- dialled for a POST that carried the same cookie, which Verify accepted, and the CSRF token of
  -- that cookie; and it was dialled to the service that the API server named for that FRS, with the
  -- host key that it gave, on the permitted port.
  pub pool_get-Dialled :
      (ttl : ℤ) (s : State W) (ref : FrsRef) (now : ℕ) (r : Request) (sess : Handle)
      → Reach srv files ttl s
      → (pool_get srv ref now r s).0 ≡ some sess
      → Dialled srv (session_key srv ref r) sess
  pool_get-Dialled ttl s ref now r sess reached e =
      get-pooled (Dialled srv) (session_key srv ref r) now sess s.pool (Reach-AllDialled reached) e
