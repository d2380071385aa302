-- ===== src/Handlers/Sessions/Effects.antt =====
-- What connecting to an FRS and deleting one do to the pool and to the watch map.
use kasten_frs_web.Base.{
  text_eq, ◌≡◌, none, some, if◌then◌else◌, ◌==◌, Unique, lookup, ℕ, refl, ◌∙◌, inl, inr, true,
  false, Option, Result, ok, err, Bool-cases, eq_refl, Str, Bool, ◌&&◌,
}
use kasten_frs_web.Base.Int.{beq_ℤ}
use kasten_frs_web.Handlers.Server.{Server, State, Reply, in_world, session_key}
use kasten_frs_web.Handlers.Sessions.{
  handle_session_delete, connect_dialled, service_addr, connect_viewed, handle_connect, deleted,
}
use kasten_frs_web.Handlers.Watch.{watch_get}
use kasten_frs_web.Handlers.Watch.Eviction.{watch_get-del}
use kasten_frs_web.Http.{Request}
use kasten_frs_web.K8s.{ref_eq, FrsRef, FrsView, ref_beq}
use kasten_frs_web.SftpClient.Pool.{key_eq, SessionKey, Handle, store, PoolEntry}
use kasten_frs_web.SftpClient.Pool.Lookup.{lookup-close_all_for_frs}

same_ref :
    (k : SessionKey) (ref : FrsRef) (o : Option PoolEntry)
    → (if k.frs.namespace == ref.namespace && k.frs.name == ref.name then none else o)
      ≡ (if k.frs == ref then none else o)
unfolding ref_beq
same_ref k ref o = refl

module _ {W : Type 0} where
  -- What a deletion has to leave, by the API server's answer.
  abbrev pub DeleteEffect : FrsRef → State W → Option Str → Reply × State W → Type 0
  DeleteEffect ref s none (reply, t) =
      ((k : SessionKey)
        → lookup k t.pool.entries ≡ (if k.frs == ref then none else lookup k s.pool.entries))
      × (watch_get ref t.watches ≡ none)
      × (reply.status ≡ 303)
  DeleteEffect ref s (some e) (reply, t) =
      (t.pool ≡ s.pool) × (t.watches ≡ s.watches) × (reply.status ≡ 502)

  deleted-effect :
      (srv : Server W) (ref : FrsRef) (s : State W) (answer : Option Str) (w : W)
      → Unique s.pool.entries
      → DeleteEffect ref s answer (deleted srv ref (answer, record s { world = w }))
  deleted-effect srv ref s (some e) w u = (refl, refl, refl)
  deleted-effect srv ref s none w u = (
    λ k.
        lookup-close_all_for_frs k ref.namespace ref.name s.pool u
        ∙ same_ref k ref (lookup k s.pool.entries),
    rw (watch_get-del ref ref s.watches, eq_refl ref) refl,
    refl,
  )

  -- Deleting an FRS, where the pool has one entry for a key: if the API server does it, no user
  -- has a session with that FRS in the pool, every other session stays as it is, and the watch map
  -- has no entry for the FRS. If the API server refuses, pool and watch map are untouched.
  pub handle_session_delete-effects :
      (srv : Server W) (ref : FrsRef) (s : State W)
      → Unique s.pool.entries
      → DeleteEffect ref s
          (srv.frs.delete_frs ref.namespace ref.name s.world).0
          (handle_session_delete srv ref s)
  unfolding handle_session_delete
  handle_session_delete-effects srv ref s u = deleted-effect srv ref s _ _ u

  abbrev pub DialEffect :
      Server W → FrsRef → ℕ → Request → State W → Result Str Handle → Reply × State W → Type 0
  DialEffect srv ref now r s (err e) (reply, t) = (t.pool ≡ s.pool) × (reply.status ≡ 502)
  DialEffect srv ref now r s (ok sess) (reply, t) =
      (t.pool ≡ store (session_key srv ref r) sess now s.pool) × (reply.status ≡ 303)

  -- What connecting does once GetFRS has answered, by the port and the answer to the dialling.
  abbrev pub PortEffect :
      Server W → FrsRef → ℕ → Request → State W → FrsView → Bool → Reply × State W → Type 0
  PortEffect srv ref now r s v false (reply, t) = (t ≡ s) × (reply.status ≡ 400)
  PortEffect srv ref now r s v true o =
      DialEffect srv ref now r s (srv.sftp.dial (service_addr srv v) v.host_key_sig s.world).0 o

  abbrev pub ConnectEffect :
      Server W → FrsRef → ℕ → Request → State W → Result Str FrsView → Reply × State W → Type 0
  ConnectEffect srv ref now r s (err e) (reply, t) = (t ≡ s) × (reply.status ≡ 502)
  ConnectEffect srv ref now r s (ok v) o =
      PortEffect srv ref now r s v (beq_ℤ v.port srv.frs_port) o

  dial-effect :
      (srv : Server W) (ref : FrsRef) (now : ℕ) (r : Request) (s : State W) (d : Result Str Handle)
      (w : W)
      → DialEffect srv ref now r s d (connect_dialled srv ref now r (d, record s { world = w }))
  dial-effect srv ref now r s (err e) w = (refl, refl)
  dial-effect srv ref now r s (ok sess) w = (refl, refl)

  connect-effect :
      (srv : Server W) (ref : FrsRef) (now : ℕ) (r : Request) (answer : Result Str FrsView)
      (s : State W)
      → ConnectEffect srv ref now r s answer (connect_viewed srv ref now r (answer, s))
  connect-effect srv ref now r (err e) s = (refl, refl)
  connect-effect srv ref now r (ok v) s = elim (Bool-cases (beq_ℤ v.port srv.frs_port)) [
    | inr f ↦ rw f (refl, refl)
    | inl t ↦ rw t (dial-effect srv ref now r s _ _)
  ]

  -- Connecting dials, and stores a session for the user, only if the FRS can be read and its port
  -- is the permitted one; every refusal leaves the pool as it was.
  pub handle_connect-effects :
      (srv : Server W) (ref : FrsRef) (now : ℕ) (r : Request) (s : State W)
      → let (answer, s1) = in_world (srv.frs.get_frs ref) s in
        ConnectEffect srv ref now r s1 answer (handle_connect srv ref now r s)
  unfolding handle_connect
  handle_connect-effects srv ref now r s =
      connect-effect srv ref now r (srv.frs.get_frs ref s.world).0
        (record s { world = (srv.frs.get_frs ref s.world).1 })
