-- ===== src/Handlers/Serving/Frames.antt =====
-- What the handlers do with the pool beside what they take from it: nothing, but for connecting and
-- deleting.
use kasten_frs_web.Base.{
  text_eq, ℕ, ◌≡◌, refl, ap, inl, inr, Bool, true, false, not, ◌||◌, Option, none, some, List, [],
  ◌∷◌, if◌then◌else◌, Result, ok, err, Option-cases, ◌==◌, Str, str,
}
use kasten_frs_web.Handlers.Archive.{walk_rec, zip_stated, zip_pooled}
use kasten_frs_web.Handlers.Browse.{
  not_ready, partial_viewed, partial_query, partial_watched, browse_listed, browse_viewed,
  browse_pooled,
}
use kasten_frs_web.Handlers.Download.{download_opened, download_pooled}
use kasten_frs_web.Handlers.Server.{Reply, sessions_page, Server, State, render, page_token}
use kasten_frs_web.Handlers.Sessions.{enrich, sessions_listed}
use kasten_frs_web.Handlers.Watch.{WatchState}
use kasten_frs_web.Http.{Request}
use kasten_frs_web.K8s.{FrsRef, FrsView}
use kasten_frs_web.SftpClient.{FileInfo}
use kasten_frs_web.SftpClient.Listing.{mode_dir, has_bit, Entry}
use kasten_frs_web.SftpClient.Pool.{key_eq, Handle, Pool}

module _ {W : Type 0} (srv : Server W) where
  -- Two runs of a handler whose states differ in the pool alone, which it leaves.
  abbrev pub Frames : State W → Pool → Reply × State W → Reply × State W → Type 0
  Frames s q x y = (x.0 ≡ y.0) × (x.1.pool ≡ s.pool) × (y.1 ≡ record x.1 { pool = q })

  pub if-Frames :
      (b : Bool) (s : State W) (q : Pool) (x x' y y' : Reply × State W)
      → Frames s q x y
      → Frames s q x' y'
      → Frames s q (if b then x else x') (if b then y else y')
  if-Frames true s q x x' y y' h k = h
  if-Frames false s q x x' y y' h k = k

  enrich-Frames :
      (vs : List FrsView) (s : State W) (q : Pool)
      → ((enrich srv vs s).0 ≡ (enrich srv vs (record s { pool = q })).0)
        × ((enrich srv vs s).1.pool ≡ s.pool)
        × ((enrich srv vs (record s { pool = q })).1 ≡ record (enrich srv vs s).1 { pool = q })
  unfolding enrich
  enrich-Frames [] s q = (refl, refl, refl)
  enrich-Frames (v ∷ vs) s q =
      let (e, p, t) =
        enrich-Frames vs (record s { world = (srv.frs.lookup_source v s.world).1 }) q in
      (ap (λ l. (srv.frs.lookup_source v s.world).0 ∷ l) e, p, t)

  pub sessions_listed-Frames :
      (r : Request) (answer : Result Str (List FrsView)) (s : State W) (q : Pool)
      → Frames s q
          (sessions_listed srv r (answer, s))
          (sessions_listed srv r (answer, record s { pool = q }))
  sessions_listed-Frames r (err e) s q = (refl, refl, refl)
  sessions_listed-Frames r (ok vs) s q =
      let (e, p, t) = enrich-Frames vs s q in
      (ap (λ l. render 200 (sessions_page l (page_token srv r))) e, p, t)

  partial_viewed-Frames :
      (r : Request) (ref : FrsRef) (path : Str) (answer : Result Str FrsView) (s : State W)
      (q : Pool)
      → Frames s q
          (partial_viewed srv r ref path (answer, s))
          (partial_viewed srv r ref path (answer, record s { pool = q }))
  unfolding not_ready
  partial_viewed-Frames r ref path (err e) s q = (refl, refl, refl)
  partial_viewed-Frames r ref path (ok v) s q =
      if-Frames (v.state == str "Ready") s q _ _ _ _ (refl, refl, refl)
        (if-Frames (v.state == str "Failed") s q _ _ _ _ (refl, refl, refl) (refl, refl, refl))

  partial_query-Frames :
      (r : Request) (ref : FrsRef) (path : Str) (s : State W) (q : Pool)
      → Frames s q
          (partial_query srv r ref path s)
          (partial_query srv r ref path (record s { pool = q }))
  unfolding partial_query
  partial_query-Frames r ref path s q =
      partial_viewed-Frames r ref path _ (record s { world = (srv.frs.get_frs ref s.world).1 }) q

  pub partial_watched-Frames :
      (r : Request) (ref : FrsRef) (path : Str) (o : Option WatchState) (s : State W) (q : Pool)
      → Frames s q
          (partial_watched srv r ref path o s)
          (partial_watched srv r ref path o (record s { pool = q }))
  partial_watched-Frames r ref path none s q = partial_query-Frames r ref path s q
  partial_watched-Frames r ref path (some ws) s q =
      if-Frames (ws.state == str "Ready") s q _ _ _ _ (refl, refl, refl)
        (if-Frames (ws.state == str "Failed" || ws.state == str "Timeout") s q _ _ _ _
          (refl, refl, refl) (partial_query-Frames r ref path s q))

  browse_viewed-Frames :
      (r : Request) (ref : FrsRef) (answer : Result Str FrsView) (s : State W) (q : Pool)
      → Frames s q
          (browse_viewed srv r ref (answer, s))
          (browse_viewed srv r ref (answer, record s { pool = q }))
  browse_viewed-Frames r ref (err e) s q = (refl, refl, refl)
  browse_viewed-Frames r ref (ok v) s q =
      if-Frames (not (v.state == str "Ready")) s q _ _ _ _ (refl, refl, refl) (refl, refl, refl)

  browse_listed-Frames :
      (r : Request) (ref : FrsRef) (path : Str) (answer : Result Str (List Entry)) (s : State W)
      (q : Pool)
      → Frames s q
          (browse_listed srv r ref path (answer, s))
          (browse_listed srv r ref path (answer, record s { pool = q }))
  browse_listed-Frames r ref path (err e) s q = (refl, refl, refl)
  browse_listed-Frames r ref path (ok es) s q = (refl, refl, refl)

  pub browse_pooled-Frames :
      (r : Request) (ref : FrsRef) (path : Str) (o : Option Handle) (s : State W) (q : Pool)
      → Frames s q
          (browse_pooled srv r ref path (o, s))
          (browse_pooled srv r ref path (o, record s { pool = q }))
  browse_pooled-Frames r ref path none s q =
      browse_viewed-Frames r ref _ (record s { world = (srv.frs.get_frs ref s.world).1 }) q
  browse_pooled-Frames r ref path (some sess) s q =
      browse_listed-Frames r ref path _
        (record s { world = (srv.sftp.list_dir sess path s.world).1 }) q

  download_opened-Frames :
      (sess : Handle) (path : Str) (answer : Result Str ℕ) (s : State W) (q : Pool)
      → Frames s q
          (download_opened srv sess path (answer, s))
          (download_opened srv sess path (answer, record s { pool = q }))
  download_opened-Frames sess path (err e) s q = (refl, refl, refl)
  download_opened-Frames sess path (ok reader) s q = (refl, refl, refl)

  pub download_pooled-Frames :
      (path : Str) (o : Option Handle) (s : State W) (q : Pool)
      → Frames s q
          (download_pooled srv path (o, s))
          (download_pooled srv path (o, record s { pool = q }))
  download_pooled-Frames path none s q = (refl, refl, refl)
  download_pooled-Frames path (some sess) s q =
      download_opened-Frames sess path _
        (record s { world = (srv.sftp.open_file sess path s.world).1 }) q

  -- Answers that may be missing.
  abbrev pub FramesMaybe :
      State W → Pool → Option (Reply × State W) → Option (Reply × State W) → Type 0
  FramesMaybe s q none none = Unit
  FramesMaybe s q (some x) (some y) = Frames s q x y
  FramesMaybe s q none (some y) = ⊥
  FramesMaybe s q (some x) none = ⊥

  zip_stated-Frames :
      (fuel : ℕ) (sess : Handle) (ref : FrsRef) (root : Str) (answer : Result Str FileInfo)
      (s : State W) (q : Pool)
      → FramesMaybe s q
          (zip_stated srv fuel sess ref root (answer, s))
          (zip_stated srv fuel sess ref root (answer, record s { pool = q }))
  zip_stated-Frames fuel sess ref root (err e) s q = (refl, refl, refl)
  zip_stated-Frames fuel sess ref root (ok info) s q =
      elim (Option-cases (
        walk_rec srv sess fuel root root (has_bit mode_dir info.mode)
          (record { written = []; failed = none; world = s.world }))) [
            | inl n ↦ rw n tt
            | inr (u, e) ↦ rw e (refl, refl, refl)
          ]

  pub zip_pooled-Frames :
      (fuel : ℕ) (ref : FrsRef) (root : Str) (o : Option Handle) (s : State W) (q : Pool)
      → FramesMaybe s q
          (zip_pooled srv fuel ref root (o, s))
          (zip_pooled srv fuel ref root (o, record s { pool = q }))
  zip_pooled-Frames fuel ref root none s q = (refl, refl, refl)
  zip_pooled-Frames fuel ref root (some sess) s q =
      zip_stated-Frames fuel sess ref root _
        (record s { world = (srv.sftp.stat sess root s.world).1 }) q
