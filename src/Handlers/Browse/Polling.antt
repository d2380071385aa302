-- ===== src/Handlers/Browse/Polling.antt =====
-- What the polling endpoint of the preparing page may answer.
use kasten_frs_web.Base.{
  ◌≡◌, inl, inr, true, ◌||◌, Option, none, some, Result, ok, err, Bool-cases, ◌==◌, Str, str,
  nat_eq, text_eq,
}
use kasten_frs_web.Handlers.Browse.{
  is_htmx, not_ready, partial_viewed, partial_query, partial_watched, handle_partial_ready,
}
use kasten_frs_web.Handlers.Server.{
  Page, preparing_fragment, Server, State, in_world, render_preparing_body,
}
use kasten_frs_web.Handlers.Watch.{WatchState, watch_get}
use kasten_frs_web.Http.{message, view, Request, Content, nothing}
use kasten_frs_web.K8s.{FrsRef, FrsView}

-- What htmx may put into the wrapper: nothing, or the fragment of the preparing page.
abbrev pub IsFragment : Content Page → Type 0
IsFragment nothing = Unit
IsFragment (message text) = ⊥
IsFragment (view (preparing_fragment ref state e token)) = Unit
IsFragment (view _) = ⊥

module _ {W : Type 0} (srv : Server W) (r : Request) (htmx : is_htmx srv r ≡ true) where
  not_ready-IsFragment : (ref : FrsRef) (s : State W) → IsFragment (not_ready srv r ref s).content
  unfolding not_ready
  not_ready-IsFragment ref s = rw htmx tt

  partial_viewed-IsFragment :
      (ref : FrsRef) (path : Str) (o : Result Str FrsView × State W)
      → IsFragment (partial_viewed srv r ref path o).0.content
  unfolding render_preparing_body
  partial_viewed-IsFragment ref path (err e, s) = not_ready-IsFragment ref s
  partial_viewed-IsFragment ref path (ok v, s) = elim (Bool-cases (v.state == str "Ready")) [
    | inl t ↦ rw t tt
    | inr f ↦ rw f (elim (Bool-cases (v.state == str "Failed")) [
      | inl t ↦ rw t tt
      | inr g ↦ rw g (not_ready-IsFragment ref s)
    ])
  ]

  partial_query-IsFragment :
      (ref : FrsRef) (path : Str) (s : State W)
      → IsFragment (partial_query srv r ref path s).0.content
  unfolding partial_query
  partial_query-IsFragment ref path s =
      partial_viewed-IsFragment ref path (in_world (srv.frs.get_frs ref) s)

  partial_watched-IsFragment :
      (ref : FrsRef) (path : Str) (ws : Option WatchState) (s : State W)
      → IsFragment (partial_watched srv r ref path ws s).0.content
  unfolding render_preparing_body
  partial_watched-IsFragment ref path none s = partial_query-IsFragment ref path s
  partial_watched-IsFragment ref path (some ws) s = elim (Bool-cases (ws.state == str "Ready")) [
    | inl t ↦ rw t tt
    | inr f ↦ rw f (elim (Bool-cases (ws.state == str "Failed" || ws.state == str "Timeout")) [
      | inl t ↦ rw t tt
      | inr g ↦ rw g (partial_query-IsFragment ref path s)
    ])
  ]

  -- To a request of htmx, the polling endpoint never answers with a whole page.
  pub handle_partial_ready-IsFragment :
      (ref : FrsRef) (path : Str) (s : State W)
      → IsFragment (handle_partial_ready srv r ref path s).0.content
  unfolding handle_partial_ready
  handle_partial_ready-IsFragment ref path s =
      partial_watched-IsFragment ref path (watch_get ref s.watches) s
