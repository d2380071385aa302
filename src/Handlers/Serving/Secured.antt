-- ===== src/Handlers/Serving/Secured.antt =====
-- The security headers of every answer.
use kasten_frs_web.Base.{
  text_eq, nat_eq, ℕ, refl, inl, inr, not, Option, none, some, List, [], ◌∷◌, Result, ok, err,
  Option-cases, ◌==◌, Str, str, all,
}
use kasten_frs_web.Base.Int.{beq_ℤ}
use kasten_frs_web.Handlers.Archive.{walk_rec, root_or_slash, zip_stated, zip_pooled, zip_parsed}
use kasten_frs_web.Handlers.Server.{Reply, Page, Server, State, browse_url, pool_get}
use kasten_frs_web.Handlers.Serving.Headers.{
  is_compatible, AllCompatible, if-Compatible, rendered, redirected,
}
use kasten_frs_web.Handlers.Sessions.{connect_dialled, connect_viewed, deleted}
use kasten_frs_web.Handlers.Wizard.{created, create_checked, cancelled_frs, cancel_parsed}
use kasten_frs_web.Handlers.Wizard.Steps.{listed}
use kasten_frs_web.Http.{Request}
use kasten_frs_web.K8s.{FrsRef, FrsView}
use kasten_frs_web.SftpClient.{FileInfo}
use kasten_frs_web.SftpClient.Listing.{mode_dir, has_bit}
use kasten_frs_web.SftpClient.Pool.{Handle}

module _ {W : Type 0} (srv : Server W) where
  connect_dialled-Compatible :
      (ref : FrsRef) (now : ℕ) (r : Request) (answer : Result Str Handle) (s : State W)
      → AllCompatible (connect_dialled srv ref now r (answer, s)).0
  connect_dialled-Compatible ref now r (err e) s = rendered
  connect_dialled-Compatible ref now r (ok sess) s = redirected (browse_url ref (str "/"))

  connect_viewed-Compatible :
      (ref : FrsRef) (now : ℕ) (r : Request) (answer : Result Str FrsView) (s : State W)
      → AllCompatible (connect_viewed srv ref now r (answer, s)).0
  connect_viewed-Compatible ref now r (err e) s = rendered
  connect_viewed-Compatible ref now r (ok v) s =
      if-Compatible (not (beq_ℤ v.port srv.frs_port)) _ _ rendered
        (connect_dialled-Compatible ref now r _ _)

  deleted-Compatible :
      (ref : FrsRef) (answer : Option Str) (s : State W)
      → AllCompatible (deleted srv ref (answer, s)).0
  deleted-Compatible ref (some e) s = rendered
  deleted-Compatible ref none s = redirected (str "/sessions")

  created-Compatible :
      (now : ℕ) (answer : Result Str FrsView) (s : State W)
      → AllCompatible (created srv now (answer, s)).0
  created-Compatible now (err e) s = rendered
  created-Compatible now (ok v) s = redirected (browse_url v.ref (str "/"))

  create_checked-Compatible :
      (now : ℕ) (r : Request) (missing : List Str) (s : State W)
      → AllCompatible (create_checked srv now r missing s).0
  create_checked-Compatible now r (x ∷ xs) s = rendered
  create_checked-Compatible now r [] s =
      if-Compatible (srv.pub_key_pem == []) _ _ rendered (created-Compatible now _ _)

  cancelled-Compatible :
      (ref : FrsRef) (answer : Option Str) (s : State W)
      → AllCompatible (cancelled_frs srv ref (answer, s)).0
  cancelled-Compatible ref (some e) s = rendered
  cancelled-Compatible ref none s = redirected (str "/wizard")

  cancel_parsed-Compatible :
      (r : Request) (o : Option (Str × Str)) (s : State W)
      → AllCompatible (cancel_parsed srv r o s).0
  cancel_parsed-Compatible r none s = rendered
  cancel_parsed-Compatible r (some (ns, name)) s = cancelled-Compatible _ _ _

  listed-Compatible :
      {A : Type 0} (title : Str) (page : A → Page) (answer : Result Str A) (s : State W)
      → AllCompatible (listed srv title page (answer, s)).0
  listed-Compatible title page (ok a) s = rendered
  listed-Compatible title page (err e) s = rendered

  abbrev Maybe : Option (Reply × State W) → Type 0
  Maybe none = Unit
  Maybe (some x) = AllCompatible x.0

  zip_stated-Compatible :
      (fuel : ℕ) (sess : Handle) (ref : FrsRef) (root : Str) (answer : Result Str FileInfo)
      (s : State W)
      → Maybe (zip_stated srv fuel sess ref root (answer, s))
  unfolding all is_compatible
  zip_stated-Compatible fuel sess ref root (err e) s = rendered
  zip_stated-Compatible fuel sess ref root (ok info) s =
      elim (Option-cases (
        walk_rec srv sess fuel root root (has_bit mode_dir info.mode)
          (record { written = []; failed = none; world = s.world }))) [
            | inl n ↦ rw n tt
            | inr (u, e) ↦ rw e refl
          ]

  zip_parsed-Compatible :
      (fuel now : ℕ) (r : Request) (o : Option (FrsRef × Str)) (s : State W)
      → Maybe (zip_parsed srv fuel r now o s)
  zip_parsed-Compatible fuel now r none s = rendered
  zip_parsed-Compatible fuel now r (some (ref, path)) s =
      zip_pooled-Compatible (root_or_slash path) (pool_get srv ref now r s).0
        (pool_get srv ref now r s).1
    where
      zip_pooled-Compatible :
          (root : Str) (o : Option Handle) (t : State W)
          → Maybe (zip_pooled srv fuel ref root (o, t))
      zip_pooled-Compatible root none t = rendered
      zip_pooled-Compatible root (some sess) t = zip_stated-Compatible fuel sess ref root _ _
