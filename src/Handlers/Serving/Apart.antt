-- ===== src/Handlers/Serving/Apart.antt =====
-- Users are kept apart: what a user is answered does not depend on the sessions of others.
pub mod Posting
pub mod Users
use kasten_frs_web.Base.{
  text_eq, ◌≡◌, refl, sym, subst, Bool, true, false, Option, none, some, if◌then◌else◌, Str, ℕ, not,
  ◌&&◌, Result, ok, err, ◌==◌, str,
}
use kasten_frs_web.Handlers.Archive.{root_or_slash, zip_pooled, zip_parsed}
use kasten_frs_web.Handlers.Browse.{
  handle_partial_ready, browse_pooled, browse_session, browse_watched, browse_parsed,
}
use kasten_frs_web.Handlers.Download.{download_pooled, download_parsed}
use kasten_frs_web.Handlers.Server.{
  Reply, Server, State, user_id_from_cookie, Page, session_key, pool_get,
}
use kasten_frs_web.Handlers.Serving.Frames.{
  Frames, FramesMaybe, partial_watched-Frames, browse_pooled-Frames, download_pooled-Frames,
  zip_pooled-Frames,
}
use kasten_frs_web.Handlers.Watch.{WatchState}
use kasten_frs_web.Handlers.Wizard.Steps.{listed}
use kasten_frs_web.Http.{Request, query_value}
use kasten_frs_web.K8s.{FrsRef}
use kasten_frs_web.SftpClient.Pool.{key_eq, SessionKey, Pool, Handle, get}
use kasten_frs_web.SftpClient.Pool.Agreeing.{Agrees, get-Agrees}

-- The keys of a user's sessions.
abbrev pub IsOf : Str → SessionKey → Type 0
IsOf user k = k.user_session_id ≡ user

module _ {W : Type 0} (user : Str) where
  -- Two states of a server that a user cannot tell apart: but for the pool they are the same, and the
  -- pools agree on the user's sessions.
  pub record Alike (s u : State W) : Type 0 where
    pub rest : u ≡ record s { pool = u.pool }
    pub pools : Agrees (IsOf user) s.pool u.pool

  -- The same answer, with states that the user again cannot tell apart.
  abbrev pub SameAnswer : Option (Reply × State W) → Option (Reply × State W) → Type 0
  SameAnswer none none = Unit
  SameAnswer (some (a, s)) (some (b, u)) = (a ≡ b) × Alike s u
  SameAnswer none (some y) = ⊥
  SameAnswer (some x) none = ⊥

module _ {W : Type 0} (srv : Server W) (r : Request) where
  abbrev pub user_of : Str
  user_of = user_id_from_cookie r srv.auth.cookie_name

  abbrev pub Same : Option (Reply × State W) → Option (Reply × State W) → Type 0
  Same = SameAnswer user_of

  pub framed :
      (s : State W) (q : Pool) (x y : Reply × State W)
      → Agrees (IsOf user_of) s.pool q
      → Frames srv s q x y
      → Same (some x) (some y)
  framed s q (a, t) (b, u) g (e, p, w) = (
    e,
    subst (Alike user_of t) (sym w)
        (record { rest = refl; pools = subst (λ z. Agrees (IsOf user_of) z q) (sym p) g }),
  )

  framed_maybe :
      (s : State W) (q : Pool) (x y : Option (Reply × State W))
      → Agrees (IsOf user_of) s.pool q
      → FramesMaybe srv s q x y
      → Same x y
  framed_maybe s q none none g f = tt
  framed_maybe s q (some x) (some y) g f = framed s q x y g f
  framed_maybe s q none (some y) g f = f
  framed_maybe s q (some x) none g f = f

  pub if-Same :
      (b : Bool) (x x' y y' : Reply × State W)
      → Same (some x) (some y)
      → Same (some x') (some y')
      → Same (some (if b then x else x')) (some (if b then y else y'))
  if-Same true x x' y y' h k = h
  if-Same false x x' y y' h k = k

  pub unchanged :
      (a : Reply) (s : State W) (q : Pool)
      → Agrees (IsOf user_of) s.pool q
      → Same (some (a, s)) (some (a, record s { pool = q }))
  unchanged a s q g = (refl, record { rest = refl; pools = g })

  -- A handler that takes the request's session for an FRS from the pool.
  got :
      (ref : FrsRef) (now : ℕ) (s : State W) (q : Pool)
      (f : Option Handle → State W → Option (Reply × State W))
      → Agrees (IsOf user_of) s.pool q
      → ((o : Option Handle) (t : State W) (p : Pool)
          → FramesMaybe srv t p (f o t) (f o (record t { pool = p })))
      → let u = record s { pool = q } in
        Same
          (f (pool_get srv ref now r s).0 (pool_get srv ref now r s).1)
          (f (pool_get srv ref now r u).0 (pool_get srv ref now r u).1)
  got ref now s q f g frames =
      let key = session_key srv ref r in
      let (same, g') = get-Agrees (IsOf user_of) key now s.pool q refl g in
      let t = (pool_get srv ref now r s).1 in
      let p = (get key now q).1 in
      subst (λ o. Same (f (get key now s.pool).0 t) (f o (record t { pool = p }))) same
        (framed_maybe t p _ _ g' (frames (get key now s.pool).0 t p))

  browse_session-Same :
      (ref : FrsRef) (path : Str) (now : ℕ) (s : State W) (q : Pool)
      → Agrees (IsOf user_of) s.pool q
      → Same
          (some (browse_session srv r ref path now s))
          (some (browse_session srv r ref path now (record s { pool = q })))
  unfolding browse_session
  browse_session-Same ref path now s q g =
      got ref now s q (λ o t. some (browse_pooled srv r ref path (o, t))) g
        (browse_pooled-Frames srv r ref path)

  browse_watched-Same :
      (ref : FrsRef) (path : Str) (now : ℕ) (o : Option WatchState) (s : State W) (q : Pool)
      → Agrees (IsOf user_of) s.pool q
      → Same
          (some (browse_watched srv r ref path now o s))
          (some (browse_watched srv r ref path now o (record s { pool = q })))
  browse_watched-Same ref path now none s q g = browse_session-Same ref path now s q g
  browse_watched-Same ref path now (some ws) s q g =
      if-Same (ws.done && not (ws.state == str "Ready")) _ _ _ _ (unchanged _ s q g)
        (browse_session-Same ref path now s q g)

  pub browse_parsed-Same :
      (now : ℕ) (o : Option (FrsRef × Str)) (s : State W) (q : Pool)
      → Agrees (IsOf user_of) s.pool q
      → Same
          (some (browse_parsed srv r now o s))
          (some (browse_parsed srv r now o (record s { pool = q })))
  unfolding handle_partial_ready
  browse_parsed-Same now none s q g = unchanged _ s q g
  browse_parsed-Same now (some (ref, path)) s q g =
      if-Same (query_value (str "partial") r == str "ready") _ _ _ _
        (framed s q _ _ g (partial_watched-Frames srv r ref path _ s q))
        (browse_watched-Same ref path now _ s q g)

  pub download_parsed-Same :
      (now : ℕ) (o : Option (FrsRef × Str)) (s : State W) (q : Pool)
      → Agrees (IsOf user_of) s.pool q
      → Same
          (some (download_parsed srv r now o s))
          (some (download_parsed srv r now o (record s { pool = q })))
  download_parsed-Same now none s q g = unchanged _ s q g
  download_parsed-Same now (some (ref, path)) s q g =
      got ref now s q (λ o t. some (download_pooled srv path (o, t))) g
        (download_pooled-Frames srv path)

  pub zip_parsed-Same :
      (fuel now : ℕ) (o : Option (FrsRef × Str)) (s : State W) (q : Pool)
      → Agrees (IsOf user_of) s.pool q
      → Same (zip_parsed srv fuel r now o s) (zip_parsed srv fuel r now o (record s { pool = q }))
  zip_parsed-Same fuel now none s q g = unchanged _ s q g
  zip_parsed-Same fuel now (some (ref, path)) s q g =
      got ref now s q (λ o t. zip_pooled srv fuel ref (root_or_slash path) (o, t)) g
        (zip_pooled-Frames srv fuel ref (root_or_slash path))

  pub listed-Same :
      {A : Type 0} (title : Str) (page : A → Page) (answer : Result Str A) (s : State W) (q : Pool)
      → Agrees (IsOf user_of) s.pool q
      → Same
          (some (listed srv title page (answer, s)))
          (some (listed srv title page (answer, record s { pool = q })))
  listed-Same title page (ok a) s q g = unchanged _ s q g
  listed-Same title page (err e) s q g = unchanged _ s q g
