-- ===== src/Handlers/Serving/Pooled.antt =====
-- Where the sessions in the pool of a running server come from.
use kasten_frs_web.Base.{
  text_eq, ℕ, ◌≡◌, refl, ap, inl, inr, true, Option, none, some, Result, ok, err, Bool-cases, Str,
  str, subst, Bool, false, List, [], ◌∷◌, if◌then◌else◌, some_eq, ◌==◌,
}
use kasten_frs_web.Auth.{csrf_token}
use kasten_frs_web.Auth.Gate.{csrf_presented}
use kasten_frs_web.Auth.Gate.Meaning.{Admitted}
use kasten_frs_web.Base.Int.{beq_ℤ}
use kasten_frs_web.Handlers.Routes.{
  Route, to_connect, to_session_delete, to_wizard_create, to_wizard_cancel,
}
use kasten_frs_web.Handlers.Routes.Guarded.{is_changing}
use kasten_frs_web.Handlers.Server.{Server, State, user_id_from_cookie, session_key, Reply}
use kasten_frs_web.Handlers.Serving.{Moment, FileServer, handle}
use kasten_frs_web.Handlers.Serving.Quiet.{IsQuiet}
use kasten_frs_web.Handlers.Sessions.{
  connect_dialled, service_addr, connect_viewed, handle_connect, deleted, handle_session_delete,
}
use kasten_frs_web.Handlers.Wizard.{
  created, create_checked, handle_wizard_create, cancelled_frs, cancel_parsed, handle_wizard_cancel,
}
use kasten_frs_web.Http.{Request}
use kasten_frs_web.K8s.{FrsRef, FrsView}
use kasten_frs_web.SftpClient.Pool.{SessionKey, Handle}
use kasten_frs_web.SftpClient.Pool.Kept.{
  AllPooled, store-AllPooled, get-AllPooled, close_all_for_frs-AllPooled,
}

module _ {W : Type 0} (srv : Server W) where
  -- A session for a key was dialled for a POST with the CSRF token of a session that Verify accepted,
  -- the user of the key; with the service of the key's FRS, and on the permitted port.
  pub record Dialled (key : SessionKey) (sess : Handle) : Type 0 where
    pub now : ℕ
    pub request : Request
    pub admitted : Admitted srv.mac srv.auth now request
    pub owner : key.user_session_id ≡ admitted.value
    pub posted : request.method ≡ str "POST"
    pub token : csrf_presented request ≡ csrf_token srv.mac srv.auth.sessions admitted.value
    pub world : W
    pub shown : FrsView
    pub viewed : (srv.frs.get_frs key.frs world).0 ≡ ok shown
    pub port : beq_ℤ shown.port srv.frs_port ≡ true
    pub dialled :
        (srv.sftp.dial
          (service_addr srv shown)
          shown.host_key_sig
          (srv.frs.get_frs key.frs world).1).0
        ≡ ok sess

  abbrev pub AllDialled : State W → Type 0
  AllDialled s = AllPooled Dialled s.pool

  pub quiet-AllDialled :
      (now : ℕ) (r : Request) (s t : State W)
      → IsQuiet srv (λ w. Unit {0}) now r s t
      → AllDialled s
      → AllDialled t
  quiet-AllDialled now r s t q h = elim q.pool [
    | inl e ↦ rw e h
    | inr (ref, e) ↦ rw e (get-AllPooled Dialled (session_key srv ref r) now s.pool h)
  ]

  module _ (now : ℕ) (r : Request) (a : Admitted srv.mac srv.auth now r)
      (posted' : r.method ≡ str "POST")
      (token' : csrf_presented r ≡ csrf_token srv.mac srv.auth.sessions a.value) where
    dialled_keeps :
        (ref : FrsRef) (w : W) (v : FrsView) (d : Result Str Handle) (s : State W)
        → (srv.frs.get_frs ref w).0 ≡ ok v
        → beq_ℤ v.port srv.frs_port ≡ true
        → (srv.sftp.dial (service_addr srv v) v.host_key_sig (srv.frs.get_frs ref w).1).0 ≡ d
        → AllDialled s
        → AllDialled (connect_dialled srv ref now r (d, s)).1
    unfolding user_id_from_cookie
    dialled_keeps ref w v (err e) s seen port' got h = h
    dialled_keeps ref w v (ok sess) s seen port' got h =
        store-AllPooled Dialled (session_key srv ref r) sess now s.pool
          (record {
            now = now;
            request = r;
            admitted = a;
            owner = rw a.carried refl;
            posted = posted';
            token = token';
            world = w;
            shown = v;
            viewed = seen;
            port = port';
            dialled = got;
          })
          h

    viewed_keeps :
        (ref : FrsRef) (w : W) (answer : Result Str FrsView) (s : State W)
        → (srv.frs.get_frs ref w).0 ≡ answer
        → (srv.frs.get_frs ref w).1 ≡ s.world
        → AllDialled s
        → AllDialled (connect_viewed srv ref now r (answer, s)).1
    viewed_keeps ref w (err e) s seen at h = h
    viewed_keeps ref w (ok v) s seen at h = elim (Bool-cases (beq_ℤ v.port srv.frs_port)) [
      | inr n ↦ rw n h
      | inl y ↦ rw y (
          dialled_keeps ref w v _
            (record s { world = (srv.sftp.dial (service_addr srv v) v.host_key_sig s.world).1 })
            seen y (ap (λ u. (srv.sftp.dial (service_addr srv v) v.host_key_sig u).0) at) h)
    ]

    handle_connect-AllDialled :
        (ref : FrsRef) (s : State W) → AllDialled s → AllDialled (handle_connect srv ref now r s).1
    unfolding handle_connect
    handle_connect-AllDialled ref s h =
        viewed_keeps ref s.world _ (record s { world = (srv.frs.get_frs ref s.world).1 }) refl refl
          h

  deleted-AllDialled :
      (ref : FrsRef) (answer : Option Str) (s : State W)
      → AllDialled s
      → AllDialled (deleted srv ref (answer, s)).1
  deleted-AllDialled ref (some e) s h = h
  deleted-AllDialled ref none s h =
      close_all_for_frs-AllPooled Dialled ref.namespace ref.name s.pool h

  cancelled-AllDialled :
      (ref : FrsRef) (answer : Option Str) (s : State W)
      → AllDialled s
      → AllDialled (cancelled_frs srv ref (answer, s)).1
  cancelled-AllDialled ref (some e) s h = h
  cancelled-AllDialled ref none s h = h

  created-AllDialled :
      (now : ℕ) (answer : Result Str FrsView) (s : State W)
      → AllDialled s
      → AllDialled (created srv now (answer, s)).1
  created-AllDialled now (err e) s h = h
  created-AllDialled now (ok v) s h = h

  if-AllDialled :
      (b : Bool) (x y : Reply × State W)
      → AllDialled x.1
      → AllDialled y.1
      → AllDialled (if b then x else y).1
  if-AllDialled true x y h k = h
  if-AllDialled false x y h k = k

  handle_wizard_create-AllDialled :
      (now : ℕ) (r : Request) (missing : List Str) (s : State W)
      → AllDialled s
      → AllDialled (create_checked srv now r missing s).1
  handle_wizard_create-AllDialled now r (x ∷ xs) s h = h
  handle_wizard_create-AllDialled now r [] s h =
      if-AllDialled (srv.pub_key_pem == []) _ _ h (created-AllDialled now _ _ h)

  handle_wizard_cancel-AllDialled :
      (r : Request) (q : Option (Str × Str)) (s : State W)
      → AllDialled s
      → AllDialled (cancel_parsed srv r q s).1
  handle_wizard_cancel-AllDialled r none s h = h
  handle_wizard_cancel-AllDialled r (some (ns, name)) s h = cancelled-AllDialled _ _ _ h

  -- The handlers of the routes that change something.
  pub changing-AllDialled :
      (files : FileServer) (m : Moment) (r : Request) (route : Route) (s t : State W)
      (reply : Reply) (a : Admitted srv.mac srv.auth m.now r)
      → (r.method ≡ str "POST") × (csrf_presented r ≡ csrf_token srv.mac srv.auth.sessions a.value)
      → is_changing route ≡ true
      → AllDialled s
      → handle srv files m r route s ≡ some (reply, t)
      → AllDialled t
  unfolding handle is_changing handle_wizard_create handle_wizard_cancel handle_session_delete
  changing-AllDialled files m r (to_connect ns name) s t reply a (post, tok) c h e =
      subst (λ x. AllDialled x.1) (some_eq e) (handle_connect-AllDialled m.now r a post tok _ s h)
  changing-AllDialled files m r (to_session_delete ns name) s t reply a post c h e =
      subst (λ x. AllDialled x.1) (some_eq e) (deleted-AllDialled _ _ _ h)
  changing-AllDialled files m r to_wizard_create s t reply a post c h e =
      subst (λ x. AllDialled x.1) (some_eq e)
        (if-AllDialled r.form_error _ _ h (handle_wizard_create-AllDialled m.now r _ s h))
  changing-AllDialled files m r to_wizard_cancel s t reply a post c h e =
      subst (λ x. AllDialled x.1) (some_eq e)
        (if-AllDialled r.form_error _ _ h (handle_wizard_cancel-AllDialled r _ s h))
  changing-AllDialled files m r route s t reply a post c h e = cc
