-- ===== src/Handlers/Serving/Headers.antt =====
-- The headers that the handlers set.
use kasten_frs_web.Base.{
  text_eq, nat_eq, ℕ, ◌≡◌, refl, Bool, true, false, not, ◌&&◌, ◌||◌, Option, none, some, List,
  if◌then◌else◌, Result, ok, err, ◌==◌, text_beq, Str, str, all, lookup,
}
use kasten_frs_web.Handlers.Browse.{
  empty_reply, ready_reply, is_htmx, not_ready, partial_viewed, partial_query, partial_watched,
  handle_partial_ready, browse_listed, query_failed, browse_viewed, browse_pooled, browse_session,
  browse_watched, browse_parsed,
}
use kasten_frs_web.Handlers.Download.{
  download_headers, download_opened, download_pooled, download_parsed,
}
use kasten_frs_web.Handlers.Server.{
  Reply, Server, State, html_header, render_preparing, render_preparing_body,
}
use kasten_frs_web.Handlers.Sessions.{sessions_listed}
use kasten_frs_web.Handlers.Watch.{WatchState}
use kasten_frs_web.Http.{Request, query_value, see_other}
use kasten_frs_web.K8s.{FrsRef, FrsView}
use kasten_frs_web.Middleware.{security_headers}
use kasten_frs_web.SftpClient.{FileInfo}
use kasten_frs_web.SftpClient.Listing.{Entry}
use kasten_frs_web.SftpClient.Pool.{Handle}

-- A header that SecurityHeaders does not set, or sets to the same value.
unfoldable pub is_compatible : Str × Str → Bool
unfolding lookup text_beq
is_compatible (name, value) = elim (lookup name security_headers) [
  | none ↦ true
  | some safe ↦ safe == value
]

abbrev pub AllCompatible : Reply → Type 0
AllCompatible reply = all is_compatible reply.headers ≡ true

pub if-Compatible :
    {W : Type 0} (b : Bool) (x y : Reply × State W)
    → AllCompatible x.0
    → AllCompatible y.0
    → AllCompatible (if b then x else y).0
if-Compatible true x y h k = h
if-Compatible false x y h k = k

if_reply-Compatible :
    (b : Bool) (x y : Reply)
    → AllCompatible x
    → AllCompatible y
    → AllCompatible (if b then x else y)
if_reply-Compatible true x y h k = h
if_reply-Compatible false x y h k = k

pub rendered : all is_compatible html_header ≡ true
unfolding all is_compatible
rendered = refl

pub redirected : (url : Str) → AllCompatible (see_other url)
unfolding all is_compatible
redirected url = refl

module _ {W : Type 0} (srv : Server W) where
  ready-Compatible : (ref : FrsRef) (path : Str) → AllCompatible (ready_reply srv ref path)
  unfolding all is_compatible
  ready-Compatible ref path = refl

  empty-Compatible : AllCompatible (empty_reply html_header)
  unfolding all is_compatible
  empty-Compatible = refl

  pub sessions_listed-Compatible :
      (r : Request) (answer : Result Str (List FrsView)) (s : State W)
      → AllCompatible (sessions_listed srv r (answer, s)).0
  sessions_listed-Compatible r (err e) s = rendered
  sessions_listed-Compatible r (ok vs) s = rendered

  not_ready-Compatible :
      (r : Request) (ref : FrsRef) (s : State W) → AllCompatible (not_ready srv r ref s)
  unfolding not_ready render_preparing
  not_ready-Compatible r ref s = if_reply-Compatible (is_htmx srv r) _ _ empty-Compatible (rendered)

  partial_viewed-Compatible :
      (r : Request) (ref : FrsRef) (path : Str) (answer : Result Str FrsView) (s : State W)
      → AllCompatible (partial_viewed srv r ref path (answer, s)).0
  unfolding render_preparing_body
  partial_viewed-Compatible r ref path (err e) s = not_ready-Compatible r ref s
  partial_viewed-Compatible r ref path (ok v) s =
      if-Compatible (v.state == str "Ready") _ _ (ready-Compatible ref path)
        (if-Compatible (v.state == str "Failed") _ _ (rendered) (not_ready-Compatible r ref s))

  partial_watched-Compatible :
      (r : Request) (ref : FrsRef) (path : Str) (o : Option WatchState) (s : State W)
      → AllCompatible (partial_watched srv r ref path o s).0
  unfolding partial_query render_preparing_body
  partial_watched-Compatible r ref path none s = partial_viewed-Compatible r ref path _ _
  partial_watched-Compatible r ref path (some ws) s =
      if-Compatible (ws.state == str "Ready") _ _ (ready-Compatible ref path) (
        if-Compatible (ws.state == str "Failed" || ws.state == str "Timeout") _ _ (rendered)
          (partial_viewed-Compatible r ref path _ _))

  query_failed-Compatible :
      (r : Request) (ref : FrsRef) (e : Str) (o : Option WatchState)
      → AllCompatible (query_failed srv r ref e o)
  unfolding render_preparing
  query_failed-Compatible r ref e none = rendered
  query_failed-Compatible r ref e (some ws) = rendered

  browse_viewed-Compatible :
      (r : Request) (ref : FrsRef) (answer : Result Str FrsView) (s : State W)
      → AllCompatible (browse_viewed srv r ref (answer, s)).0
  unfolding render_preparing
  browse_viewed-Compatible r ref (err e) s = query_failed-Compatible r ref e _
  browse_viewed-Compatible r ref (ok v) s =
      if-Compatible (not (v.state == str "Ready")) _ _ (rendered) (redirected _)

  browse_listed-Compatible :
      (r : Request) (ref : FrsRef) (path : Str) (answer : Result Str (List Entry)) (s : State W)
      → AllCompatible (browse_listed srv r ref path (answer, s)).0
  browse_listed-Compatible r ref path (err e) s = rendered
  browse_listed-Compatible r ref path (ok es) s = rendered

  browse_pooled-Compatible :
      (r : Request) (ref : FrsRef) (path : Str) (o : Option Handle) (s : State W)
      → AllCompatible (browse_pooled srv r ref path (o, s)).0
  browse_pooled-Compatible r ref path none s = browse_viewed-Compatible r ref _ _
  browse_pooled-Compatible r ref path (some sess) s = browse_listed-Compatible r ref path _ _

  browse_watched-Compatible :
      (r : Request) (ref : FrsRef) (path : Str) (now : ℕ) (o : Option WatchState) (s : State W)
      → AllCompatible (browse_watched srv r ref path now o s).0
  unfolding browse_session render_preparing
  browse_watched-Compatible r ref path now none s = browse_pooled-Compatible r ref path _ _
  browse_watched-Compatible r ref path now (some ws) s =
      if-Compatible (ws.done && not (ws.state == str "Ready")) _ _ (rendered)
        (browse_pooled-Compatible r ref path _ _)

  pub browse_parsed-Compatible :
      (r : Request) (now : ℕ) (o : Option (FrsRef × Str)) (s : State W)
      → AllCompatible (browse_parsed srv r now o s).0
  unfolding handle_partial_ready
  browse_parsed-Compatible r now none s = rendered
  browse_parsed-Compatible r now (some (ref, path)) s =
      if-Compatible (query_value (str "partial") r == str "ready") _ _
        (partial_watched-Compatible r ref path _ s) (browse_watched-Compatible r ref path now _ s)

  file-Compatible :
      (path : Str) (info : Result Str FileInfo)
      → all is_compatible (download_headers srv path info) ≡ true
  unfolding all is_compatible
  file-Compatible path (err e) = refl
  file-Compatible path (ok info) = refl

  download_opened-Compatible :
      (sess : Handle) (path : Str) (answer : Result Str ℕ) (s : State W)
      → AllCompatible (download_opened srv sess path (answer, s)).0
  download_opened-Compatible sess path (err e) s = rendered
  download_opened-Compatible sess path (ok reader) s = file-Compatible path _

  download_pooled-Compatible :
      (path : Str) (o : Option Handle) (s : State W)
      → AllCompatible (download_pooled srv path (o, s)).0
  download_pooled-Compatible path none s = rendered
  download_pooled-Compatible path (some sess) s = download_opened-Compatible sess path _ _

  pub download_parsed-Compatible :
      (r : Request) (now : ℕ) (o : Option (FrsRef × Str)) (s : State W)
      → AllCompatible (download_parsed srv r now o s).0
  download_parsed-Compatible r now none s = rendered
  download_parsed-Compatible r now (some (ref, path)) s = download_pooled-Compatible path _ _
