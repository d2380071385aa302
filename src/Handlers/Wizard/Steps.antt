-- ===== src/Handlers/Wizard/Steps.antt =====
-- The GET handlers of internal/handlers/wizard.go, by which the wizard asks what there is to restore;
-- handleLoginPage, and StartBackground. Log lines are left out.
use kasten_frs_web.Base.{
  nat_eq, text_eq, Result, ok, err, ℕ, ◌≡◌, refl, not, List, [], ◌∷◌, if◌then◌else◌, ◌==◌, Str, str,
  insert,
}
use kasten_frs_web.Base.Int.{pos}
use kasten_frs_web.Handlers.Server.{
  Reply, namespaces_fragment, Page, login_page, wizard_page, vms_fragment, rps_fragment,
  volumes_fragment, Server, State, render, render_error, in_world, page_token,
}
use kasten_frs_web.Handlers.Watch.{run_sweeper}
use kasten_frs_web.Http.{Request, query_value}
use kasten_frs_web.K8s.RestorePoints.{keys_of}
use kasten_frs_web.K8s.Sorting.{sort_slice}
use kasten_frs_web.Std.Strings.Order.{text_ltb}

-- The names of the fields, sorted; their order in the form does not matter.
unfoldable pub keys_once : List (Str × Str) → List (Str × Unit {0}) → List (Str × Unit {0})
keys_once [] m = m
keys_once ((k, v) ∷ form) m = keys_once form (insert k tt m)

-- formKeys
unfoldable pub form_keys : Request → List Str
form_keys r = if r.form_error then [] else sort_slice text_ltb (keys_of (keys_once r.form []))

-- handleLoginPage
abbrev pub handle_login_page : Reply
handle_login_page = render 200 login_page

module _ {W : Type 0} (srv : Server W) where
  open srv use {frs}

  -- What a list is made into, or the page for its error.
  abbrev pub listed : {A : Type 0} → Str → (A → Page) → Result Str A × State W → Reply × State W
  listed title page (err e, s) = (render_error 502 title e, s)
  listed title page (ok a, s) = (render 200 (page a), s)

  unfoldable pub handle_wizard_page : Request → State W → Reply × State W
  handle_wizard_page r s =
      listed (str "Failed to list namespaces") (λ names. wizard_page names (page_token srv r))
        (in_world frs.list_namespaces s)

  unfoldable pub handle_wizard_namespaces : Request → State W → Reply × State W
  handle_wizard_namespaces r s =
      listed (str "Failed to list namespaces") namespaces_fragment (in_world frs.list_namespaces s)

  -- The namespaces that handleWizardVMs asks for.
  abbrev pub asked_namespaces : Request → List Str
  asked_namespaces r =
      if not (query_value (str "ns") r == [])
      then query_value (str "ns") r ∷ []
      else srv.ns_whitelist

  unfoldable pub handle_wizard_vms : Request → State W → Reply × State W
  handle_wizard_vms r s =
      listed (str "Failed to list VMs") vms_fragment
        (in_world (frs.list_vms_of (asked_namespaces r)) s)

  -- The two handlers with wildcards in their patterns.
  unfoldable pub handle_wizard_rps : Str → Str → State W → Reply × State W
  handle_wizard_rps ns name s =
      listed (str "Failed to list RestorePoints") (λ points. rps_fragment points name)
        (in_world (frs.list_points ns name) s)

  unfoldable pub handle_wizard_volumes : Str → Str → State W → Reply × State W
  handle_wizard_volumes ns name s =
      listed (str "Failed to list volumes") (λ volumes. volumes_fragment volumes name)
        (in_world (frs.get_details ns name) s)

  -- StartBackground: the sweeper, with the ticks until the context is done.
  unfoldable pub start_background : List ℕ → State W → State W
  start_background ticks s = record s { watches = run_sweeper (pos 3600000000000) ticks s.watches }

  -- An answer that changed nothing of the helper's own state, and is 200 exactly if the API server
  -- gave no error, else 502.
  pub IsReadOnly : {A : Type 0} → Result Str A × W → State W → Reply × State W → Type 0
  IsReadOnly (answer, w) s (reply, t) =
      (t ≡ record s { world = w }) × (reply.status ≡ (elim answer [ ok a ↦ 200 | err e ↦ 502 ]))

  listed-IsReadOnly :
      {A : Type 0} (title : Str) (page : A → Page) (answer : Result Str A) (w : W) (s : State W)
      → IsReadOnly (answer, w) s (listed title page (answer, record s { world = w }))
  unfolding IsReadOnly
  listed-IsReadOnly title page (ok a) w s = (refl, refl)
  listed-IsReadOnly title page (err e) w s = (refl, refl)

  -- The wizard's GET handlers change neither the pool, the watch map nor the watchers, and answer
  -- with 200, or with 502 if the API server gave an error.
  pub wizard_steps-IsReadOnly :
      (r : Request) (ns name : Str) (s : State W)
      → IsReadOnly (frs.list_namespaces s.world) s (handle_wizard_page r s)
        × IsReadOnly (frs.list_namespaces s.world) s (handle_wizard_namespaces r s)
        × IsReadOnly (frs.list_vms_of (asked_namespaces r) s.world) s (handle_wizard_vms r s)
        × IsReadOnly (frs.list_points ns name s.world) s (handle_wizard_rps ns name s)
        × IsReadOnly (frs.get_details ns name s.world) s (handle_wizard_volumes ns name s)
  unfolding handle_wizard_page handle_wizard_namespaces handle_wizard_vms handle_wizard_rps
      handle_wizard_volumes
  wizard_steps-IsReadOnly r ns name s = (
    listed-IsReadOnly _ _ _ _ s,
    listed-IsReadOnly _ _ _ _ s,
    listed-IsReadOnly _ _ _ _ s,
    listed-IsReadOnly _ _ _ _ s,
    listed-IsReadOnly _ _ _ _ s,
  )
