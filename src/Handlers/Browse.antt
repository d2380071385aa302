-- ===== src/Handlers/Browse.antt =====
-- handleBrowse and handlePartialReady of internal/handlers/handlers.go.
pub mod Polling
use kasten_frs_web.Base.{
  ℕ, Bool, true, false, not, ◌&&◌, ◌||◌, Option, none, some, List, [], ◌∷◌, ◌++◌, map,
  if◌then◌else◌, Result, ok, err, ◌==◌, Str, str, nat_eq, text_eq,
}
use kasten_frs_web.Handlers.Paths.{join_leaf}
use kasten_frs_web.Handlers.Server.{
  BrowseEntry, browse_page, Reply, Server, State, html_header, render, render_error,
  parse_frs_query, bad_query, browse_url, in_world, pool_get, page_token, render_preparing,
  render_preparing_body,
}
use kasten_frs_web.Handlers.Watch.{WatchState, watch_get}
use kasten_frs_web.Http.{Request, header, query_value, nothing, see_other}
use kasten_frs_web.K8s.{FrsRef, FrsView, empty_view}
use kasten_frs_web.SftpClient.Listing.{
  mode_symlink, has_bit, Entry, entry_info, entry_name, entry_is_dir, entry_mode, resolved_path_of,
}
use kasten_frs_web.SftpClient.Pool.{Handle}
use kasten_frs_web.Std.Strings.{slash}

unfoldable pub new_browse_entry : Entry → Str → BrowseEntry
new_browse_entry e parent = record {
  name = entry_name e;
  is_dir = entry_is_dir e;
  size = (entry_info e).size;
  mod_time = (entry_info e).mod_time;
  click_path =
      if resolved_path_of e == [] then join_leaf parent (entry_name e) else resolved_path_of e;
  is_symlink = has_bit mode_symlink (entry_mode e);
  original_name = entry_name e;
}

abbrev pub pending_state : FrsRef → WatchState
pending_state ref = record {
  state = str "Pending";
  view = record empty_view { ref = ref };
  error = none;
  done = false;
  created_at = none;
}

-- A state made up from what the API server says of the FRS.
abbrev pub state_of_view : Str → FrsView → WatchState
state_of_view state v = record {
  state = state;
  view = v;
  error = none;
  done = true;
  created_at = none;
}

abbrev pub empty_reply : List (Str × Str) → Reply
empty_reply headers = record {
  status = 204;
  headers = headers;
  set_cookies = [];
  content = nothing;
}

module _ {W : Type 0} (srv : Server W) where
  open srv use {frs, sftp}

  abbrev pub ready_reply : FrsRef → Str → Reply
  ready_reply ref path =
      empty_reply ((str "HX-Redirect", browse_url ref (srv.query_escape path)) ∷ html_header)

  abbrev pub is_htmx : Request → Bool
  is_htmx r = header (str "HX-Request") r == str "true"

  unfoldable pub not_ready : Request → FrsRef → State W → Reply
  not_ready r ref s =
      if is_htmx r
      then empty_reply html_header
      else render_preparing srv r ref
          (elim (watch_get ref s.watches) [ none ↦ pending_state ref | some ws ↦ ws ])

  abbrev pub partial_viewed :
      Request → FrsRef → Str → Result Str FrsView × State W → Reply × State W
  partial_viewed r ref path (err e, s) = (not_ready r ref s, s)
  partial_viewed r ref path (ok v, s) =
      if v.state == str "Ready"
      then (ready_reply ref path, s)
      else if v.state == str "Failed"
      then (render_preparing_body srv r ref (state_of_view (str "Failed") v), s)
      else (not_ready r ref s, s)

  unfoldable pub partial_query : Request → FrsRef → Str → State W → Reply × State W
  partial_query r ref path s = partial_viewed r ref path (in_world (frs.get_frs ref) s)

  abbrev pub partial_watched :
      Request → FrsRef → Str → Option WatchState → State W → Reply × State W
  partial_watched r ref path none s = partial_query r ref path s
  partial_watched r ref path (some ws) s =
      if ws.state == str "Ready"
      then (ready_reply ref path, s)
      else if ws.state == str "Failed" || ws.state == str "Timeout"
      then (render_preparing_body srv r ref ws, s)
      else partial_query r ref path s

  unfoldable pub handle_partial_ready : Request → FrsRef → Str → State W → Reply × State W
  handle_partial_ready r ref path s = partial_watched r ref path (watch_get ref s.watches) s

  abbrev pub browse_listed :
      Request → FrsRef → Str → Result Str (List Entry) × State W → Reply × State W
  browse_listed r ref path (err e, s) = (render_error 404 (str "Failed to list directory") e, s)
  browse_listed r ref path (ok entries, s) = (
    render 200
        (browse_page ref path (map (λ e. new_browse_entry e path) entries) (page_token srv r)),
    s,
  )

  abbrev pub query_failed : Request → FrsRef → Str → Option WatchState → Reply
  query_failed r ref e none = render_error 502 (str "Failed to query FRS") e
  query_failed r ref e (some ws) = render_preparing srv r ref ws

  abbrev pub browse_viewed : Request → FrsRef → Result Str FrsView × State W → Reply × State W
  browse_viewed r ref (err e, s) = (query_failed r ref e (watch_get ref s.watches), s)
  browse_viewed r ref (ok v, s) =
      if not (v.state == str "Ready")
      then (render_preparing srv r ref (state_of_view v.state v), s)
      else (
        see_other (str "/sessions/" ++ (ref.namespace ++ (slash ∷ (ref.name ++ str "/connect")))),
        s,
      )

  abbrev pub browse_pooled : Request → FrsRef → Str → Option Handle × State W → Reply × State W
  browse_pooled r ref path (none, s) = browse_viewed r ref (in_world (frs.get_frs ref) s)
  browse_pooled r ref path (some sess, s) =
      browse_listed r ref path (in_world (sftp.list_dir sess path) s)

  unfoldable pub browse_session : Request → FrsRef → Str → ℕ → State W → Reply × State W
  browse_session r ref path now s = browse_pooled r ref path (pool_get srv ref now r s)

  abbrev pub browse_watched :
      Request → FrsRef → Str → ℕ → Option WatchState → State W → Reply × State W
  browse_watched r ref path now none s = browse_session r ref path now s
  browse_watched r ref path now (some ws) s =
      if ws.done && not (ws.state == str "Ready")
      then (render_preparing srv r ref ws, s)
      else browse_session r ref path now s

  abbrev pub browse_parsed : Request → ℕ → Option (FrsRef × Str) → State W → Reply × State W
  browse_parsed r now none s = (bad_query, s)
  browse_parsed r now (some (ref, path)) s =
      if query_value (str "partial") r == str "ready"
      then handle_partial_ready r ref path s
      else browse_watched r ref path now (watch_get ref s.watches) s

  unfoldable pub handle_browse : ℕ → Request → State W → Reply × State W
  handle_browse now r s = browse_parsed r now (parse_frs_query r) s
