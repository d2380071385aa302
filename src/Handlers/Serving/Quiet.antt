-- ===== src/Handlers/Serving/Quiet.antt =====
-- What the handlers behind the routes that change nothing leave of the server's state.
pub mod Walking
pub mod Handling
use kasten_frs_web.Base.{
  ℕ, ◌≡◌, refl, ◌⊎◌, inl, inr, Bool, true, false, not, ◌||◌, Option, none, some, List, [], ◌∷◌,
  if◌then◌else◌, Result, ok, err, ◌==◌, Str, str, nat_eq, text_eq,
}
use kasten_frs_web.Handlers.Browse.{
  partial_viewed, partial_query, partial_watched, browse_listed, browse_viewed, browse_pooled,
}
use kasten_frs_web.Handlers.Download.{download_opened, download_pooled}
use kasten_frs_web.Handlers.Server.{Server, State, session_key, pool_get, Reply}
use kasten_frs_web.Handlers.Sessions.{enrich, sessions_listed}
use kasten_frs_web.Handlers.Watch.{WatchState}
use kasten_frs_web.Http.{Request}
use kasten_frs_web.K8s.{FrsRef, FrsView}
use kasten_frs_web.SftpClient.{FileInfo}
use kasten_frs_web.SftpClient.Listing.{Entry}
use kasten_frs_web.SftpClient.Pool.{Handle, get}

module _ {W : Type 0} (srv : Server W) (Holds : W → Type 0) where
  open srv use {frs, sftp}

  -- What holds of the cluster and the SFTP servers is kept by every call but those that connect,
  -- make an object or delete one.
  pub record ReadingKeeps : Type 0 where
    pub list_all : (ns : List Str) (w : W) → Holds w → Holds (frs.list_all ns w).1
    pub get_frs : (ref : FrsRef) (w : W) → Holds w → Holds (frs.get_frs ref w).1
    pub lookup_source : (v : FrsView) (w : W) → Holds w → Holds (frs.lookup_source v w).1
    pub list_vms_of : (ns : List Str) (w : W) → Holds w → Holds (frs.list_vms_of ns w).1
    pub list_namespaces : (w : W) → Holds w → Holds (frs.list_namespaces w).1
    pub list_points : (ns name : Str) (w : W) → Holds w → Holds (frs.list_points ns name w).1
    pub get_details : (ns name : Str) (w : W) → Holds w → Holds (frs.get_details ns name w).1
    pub list_dir : (h : Handle) (p : Str) (w : W) → Holds w → Holds (sftp.list_dir h p w).1
    pub stat : (h : Handle) (p : Str) (w : W) → Holds w → Holds (sftp.stat h p w).1
    pub open_file : (h : Handle) (p : Str) (w : W) → Holds w → Holds (sftp.open_file h p w).1
    pub copy : (reader : ℕ) (w : W) → Holds w → Holds (sftp.copy reader w).1
    pub write_header :
        (name : Str) (info : FileInfo) (w : W) → Holds w → Holds (srv.write_header name info w).1

  -- Only the cluster and the SFTP servers have changed.
  abbrev pub Moves : State W → State W → Type 0
  Moves s t = (w : W) × Holds w × (t ≡ record s { world = w })

  -- Watch map and watchers are as they were, and the pool too, but for a Get of a session of the
  -- user's.
  pub record IsQuiet (now : ℕ) (r : Request) (s t : State W) : Type 0 where
    pub watches : t.watches ≡ s.watches
    pub watchers : t.watchers ≡ s.watchers
    pub pool :
        (t.pool ≡ s.pool) ⊎ ((ref : FrsRef) × (t.pool ≡ (get (session_key srv ref r) now s.pool).1))
    pub world : Holds t.world

  pub stays : (s : State W) → Holds s.world → Moves s s
  stays s h = (s.world, h, refl)

  pub if-Moves :
      (b : Bool) (s : State W) (x y : Reply × State W)
      → Moves s x.1
      → Moves s y.1
      → Moves s (if b then x else y).1
  if-Moves true s x y h k = h
  if-Moves false s x y h k = k

  pub Moves-IsQuiet : (now : ℕ) (r : Request) (s t : State W) → Moves s t → IsQuiet now r s t
  Moves-IsQuiet now r s t (w, h, e) =
      rw e (record { watches = refl; watchers = refl; pool = inl refl; world = h })

  pub got-IsQuiet :
      (now : ℕ) (r : Request) (ref : FrsRef) (s t : State W)
      → Moves (pool_get srv ref now r s).1 t
      → IsQuiet now r s t
  got-IsQuiet now r ref s t (w, h, e) =
      rw e (record { watches = refl; watchers = refl; pool = inr (ref, refl); world = h })

  module _ (k : ReadingKeeps) where
    open k use {get_frs, list_dir, stat, open_file, copy, write_header, lookup_source}

    enrich-Moves : (vs : List FrsView) (s : State W) → Holds s.world → Moves s (enrich srv vs s).1
    unfolding enrich
    enrich-Moves [] s h = stays s h
    enrich-Moves (v ∷ vs) s h =
        enrich-Moves vs (record s { world = (frs.lookup_source v s.world).1 })
          (lookup_source v s.world h)

    pub sessions_listed-Moves :
        (r : Request) (answer : Result Str (List FrsView)) (s : State W)
        → Holds s.world
        → Moves s (sessions_listed srv r (answer, s)).1
    sessions_listed-Moves r (err e) s h = stays s h
    sessions_listed-Moves r (ok vs) s h = enrich-Moves vs s h

    not_ready-Moves :
        (r : Request) (ref : FrsRef) (path : Str) (answer : Result Str FrsView) (s : State W)
        → Holds s.world
        → Moves s (partial_viewed srv r ref path (answer, s)).1
    not_ready-Moves r ref path (err e) s h = stays s h
    not_ready-Moves r ref path (ok v) s h =
        if-Moves (v.state == str "Ready") s _ _ (stays s h)
          (if-Moves (v.state == str "Failed") s _ _ (stays s h) (stays s h))

    partial_query-Moves :
        (r : Request) (ref : FrsRef) (path : Str) (s : State W)
        → Holds s.world
        → Moves s (partial_query srv r ref path s).1
    unfolding partial_query
    partial_query-Moves r ref path s h =
        not_ready-Moves r ref path _ (record s { world = (frs.get_frs ref s.world).1 })
          (get_frs ref s.world h)

    pub partial_watched-Moves :
        (r : Request) (ref : FrsRef) (path : Str) (o : Option WatchState) (s : State W)
        → Holds s.world
        → Moves s (partial_watched srv r ref path o s).1
    partial_watched-Moves r ref path none s h = partial_query-Moves r ref path s h
    partial_watched-Moves r ref path (some ws) s h =
        if-Moves (ws.state == str "Ready") s _ _ (stays s h) (
          if-Moves (ws.state == str "Failed" || ws.state == str "Timeout") s _ _ (stays s h)
            (partial_query-Moves r ref path s h))

    browse_viewed-Moves :
        (r : Request) (ref : FrsRef) (answer : Result Str FrsView) (s : State W)
        → Holds s.world
        → Moves s (browse_viewed srv r ref (answer, s)).1
    browse_viewed-Moves r ref (err e) s h = stays s h
    browse_viewed-Moves r ref (ok v) s h =
        if-Moves (not (v.state == str "Ready")) s _ _ (stays s h) (stays s h)

    browse_listed-Moves :
        (r : Request) (ref : FrsRef) (path : Str) (answer : Result Str (List Entry)) (s : State W)
        → Holds s.world
        → Moves s (browse_listed srv r ref path (answer, s)).1
    browse_listed-Moves r ref path (err e) s h = stays s h
    browse_listed-Moves r ref path (ok es) s h = stays s h

    pub browse_pooled-Moves :
        (r : Request) (ref : FrsRef) (path : Str) (o : Option Handle) (s : State W)
        → Holds s.world
        → Moves s (browse_pooled srv r ref path (o, s)).1
    browse_pooled-Moves r ref path none s h =
        browse_viewed-Moves r ref _ (record s { world = (frs.get_frs ref s.world).1 })
          (get_frs ref s.world h)
    browse_pooled-Moves r ref path (some sess) s h =
        browse_listed-Moves r ref path _ (record s { world = (sftp.list_dir sess path s.world).1 })
          (list_dir sess path s.world h)

    download_opened-Moves :
        (sess : Handle) (path : Str) (answer : Result Str ℕ) (s : State W)
        → Holds s.world
        → Moves s (download_opened srv sess path (answer, s)).1
    download_opened-Moves sess path (err e) s h = stays s h
    download_opened-Moves sess path (ok reader) s h =
        (_, copy reader _ (stat sess path s.world h), refl)

    pub download_pooled-Moves :
        (path : Str) (o : Option Handle) (s : State W)
        → Holds s.world
        → Moves s (download_pooled srv path (o, s)).1
    download_pooled-Moves path none s h = stays s h
    download_pooled-Moves path (some sess) s h =
        download_opened-Moves sess path _
          (record s { world = (sftp.open_file sess path s.world).1 })
          (open_file sess path s.world h)
