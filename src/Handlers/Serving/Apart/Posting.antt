-- ===== src/Handlers/Serving/Apart/Posting.antt =====
-- The handlers that change something do it alike for two pools that agree on a user's sessions.
use kasten_frs_web.Base.{
  text_eq, refl, Option, none, some, Str, ℕ, not, List, [], ◌∷◌, Result, ok, err, ◌==◌,
}
use kasten_frs_web.Base.Int.{beq_ℤ}
use kasten_frs_web.Handlers.Server.{Server, State, session_key}
use kasten_frs_web.Handlers.Serving.Apart.{IsOf, user_of, Same, if-Same, unchanged}
use kasten_frs_web.Handlers.Sessions.{connect_dialled, service_addr, connect_viewed, deleted}
use kasten_frs_web.Handlers.Wizard.{create_checked, cancelled_frs, cancel_parsed, created}
use kasten_frs_web.Http.{Request}
use kasten_frs_web.K8s.{FrsRef, FrsView}
use kasten_frs_web.SftpClient.Pool.{key_eq, Pool, Handle}
use kasten_frs_web.SftpClient.Pool.Agreeing.{Agrees, store-Agrees, close_all_for_frs-Agrees}

module _ {W : Type 0} (srv : Server W) (r : Request) where
  connect_dialled-Same :
      (ref : FrsRef) (now : ℕ) (answer : Result Str Handle) (s : State W) (q : Pool)
      → Agrees (IsOf (user_of srv r)) s.pool q
      → Same srv r
          (some (connect_dialled srv ref now r (answer, s)))
          (some (connect_dialled srv ref now r (answer, record s { pool = q })))
  connect_dialled-Same ref now (err e) s q g = unchanged srv r _ s q g
  connect_dialled-Same ref now (ok sess) s q g = (
    refl,
    record {
      rest = refl;
      pools = store-Agrees (IsOf (user_of srv r)) (session_key srv ref r) sess now s.pool q g;
    },
  )

  pub connect_viewed-Same :
      (ref : FrsRef) (now : ℕ) (answer : Result Str FrsView) (s : State W) (q : Pool)
      → Agrees (IsOf (user_of srv r)) s.pool q
      → Same srv r
          (some (connect_viewed srv ref now r (answer, s)))
          (some (connect_viewed srv ref now r (answer, record s { pool = q })))
  connect_viewed-Same ref now (err e) s q g = unchanged srv r _ s q g
  connect_viewed-Same ref now (ok v) s q g =
      if-Same srv r (not (beq_ℤ v.port srv.frs_port)) _ _ _ _ (unchanged srv r _ s q g) (
        connect_dialled-Same ref now _
          (record s { world = (srv.sftp.dial (service_addr srv v) v.host_key_sig s.world).1 }) q g)

  pub deleted-Same :
      (ref : FrsRef) (answer : Option Str) (s : State W) (q : Pool)
      → Agrees (IsOf (user_of srv r)) s.pool q
      → Same srv r
          (some (deleted srv ref (answer, s)))
          (some (deleted srv ref (answer, record s { pool = q })))
  deleted-Same ref (some e) s q g = unchanged srv r _ s q g
  deleted-Same ref none s q g = (
    refl,
    record {
      rest = refl;
      pools = close_all_for_frs-Agrees (IsOf (user_of srv r)) ref.namespace ref.name s.pool q g;
    },
  )

  created-Same :
      (now : ℕ) (answer : Result Str FrsView) (s : State W) (q : Pool)
      → Agrees (IsOf (user_of srv r)) s.pool q
      → Same srv r
          (some (created srv now (answer, s)))
          (some (created srv now (answer, record s { pool = q })))
  created-Same now (err e) s q g = unchanged srv r _ s q g
  created-Same now (ok v) s q g = (refl, record { rest = refl; pools = g })

  pub create_checked-Same :
      (now : ℕ) (missing : List Str) (s : State W) (q : Pool)
      → Agrees (IsOf (user_of srv r)) s.pool q
      → Same srv r
          (some (create_checked srv now r missing s))
          (some (create_checked srv now r missing (record s { pool = q })))
  create_checked-Same now (x ∷ xs) s q g = unchanged srv r _ s q g
  create_checked-Same now [] s q g =
      if-Same srv r (srv.pub_key_pem == []) _ _ _ _ (unchanged srv r _ s q g)
        (created-Same now _ _ q g)

  cancelled-Same :
      (ref : FrsRef) (answer : Option Str) (s : State W) (q : Pool)
      → Agrees (IsOf (user_of srv r)) s.pool q
      → Same srv r
          (some (cancelled_frs srv ref (answer, s)))
          (some (cancelled_frs srv ref (answer, record s { pool = q })))
  cancelled-Same ref (some e) s q g = unchanged srv r _ s q g
  cancelled-Same ref none s q g = (refl, record { rest = refl; pools = g })

  pub cancel_parsed-Same :
      (o : Option (Str × Str)) (s : State W) (q : Pool)
      → Agrees (IsOf (user_of srv r)) s.pool q
      → Same srv r
          (some (cancel_parsed srv r o s))
          (some (cancel_parsed srv r o (record s { pool = q })))
  cancel_parsed-Same none s q g = unchanged srv r _ s q g
  cancel_parsed-Same (some (ns, name)) s q g = cancelled-Same _ _ _ q g
