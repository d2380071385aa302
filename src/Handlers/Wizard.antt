-- ===== src/Handlers/Wizard.antt =====
-- The wizard's POST handlers of internal/handlers/wizard.go, and the goroutine that watches a new
-- FRS. The text of the page for a form that cannot be read stands for what ParseForm says. A
-- goroutine's end is a step of its own: it comes when WaitForReady has returned.
pub mod Creation
pub mod Steps
use kasten_frs_web.Base.{
  ℕ, false, Option, none, some, List, [], ◌∷◌, ◌++◌, if◌then◌else◌, Result, ok, err, ◌==◌, Str, str,
  length, nat_eq, text_eq,
}
use kasten_frs_web.Handlers.Server.{
  missing_page, Reply, Server, State, render, render_error, browse_url, in_world,
}
use kasten_frs_web.Handlers.Watch.{WatchState, watch_set, watch_del, watch_finished}
use kasten_frs_web.Http.{Request, form_value, values, see_other}
use kasten_frs_web.K8s.{FrsRef, FrsView}
use kasten_frs_web.K8s.Frs.Writing.{FrSpec}
use kasten_frs_web.Std.Strings.{slash, split_once}

-- The names of the required fields that are empty. The page says of each, in words of its own, what
-- it stands for.
unfoldable pub missing_fields : Str → Str → Str → List Str → List Str
missing_fields vm_ns vm_name rp_name pvc_names =
    (if vm_ns == [] then str "vmNs" ∷ [] else [])
    ++ ((if vm_name == [] then str "vmName" ∷ [] else [])
        ++ ((if rp_name == [] then str "rpName" ∷ [] else [])
            ++ (if length pvc_names == 0 then str "pvcNames" ∷ [] else [])))

unfoldable pub missing_of_request : Request → List Str
missing_of_request r =
    missing_fields (form_value (str "vmNs") r) (form_value (str "vmName") r)
      (form_value (str "rpName") r) (values (str "pvcNames") r.form)

abbrev pub initial_watch : FrsView → WatchState
initial_watch v = record {
  state = str "Pending";
  view = v;
  error = none;
  done = false;
  created_at = none;
}

module _ {W : Type 0} (srv : Server W) where
  open srv use {frs, pub_key_pem}

  abbrev pub spec_of_request : Request → FrSpec
  spec_of_request r = record {
    name = [];
    restore_point_name = form_value (str "rpName") r;
    pvc_names = values (str "pvcNames") r.form;
    ssh_user_public_key = pub_key_pem;
  }

  abbrev pub created : ℕ → Result Str FrsView × State W → Reply × State W
  created now (err e, s) = (render_error 502 (str "Failed to create FRS") e, s)
  created now (ok v, s) = (
    see_other (browse_url v.ref (str "/")),
    record s {
      watches = watch_set v.ref (initial_watch v) now s.watches;
      watchers = v.ref ∷ s.watchers;
    },
  )

  abbrev pub create_checked : ℕ → Request → List Str → State W → Reply × State W
  create_checked now r (m ∷ ms) s = (render 400 (missing_page (m ∷ ms)), s)
  create_checked now r [] s =
      let made =
        created now (in_world (frs.create_frs (form_value (str "vmNs") r) (spec_of_request r)) s) in
      if pub_key_pem == []
      then (
        render_error 500 (str "No SSH public key")
            (str "helper did not load an SSH public key at startup"),
        s,
      )
      else made

  unfoldable pub handle_wizard_create : ℕ → Request → State W → Reply × State W
  handle_wizard_create now r s =
      if r.form_error
      then (render_error 400 (str "Bad form data") (str "malformed form"), s)
      else create_checked now r (missing_of_request r) s

  -- The end of the goroutine for an FRS, WaitForReady having returned the view and the error.
  unfoldable pub finish_watch : FrsRef → FrsView → Option Str → ℕ → State W → State W
  finish_watch ref v e now s = record s { watches = watch_finished ref v e now s.watches }

  abbrev pub cancelled_frs : FrsRef → Option Str × State W → Reply × State W
  cancelled_frs ref (some e, s) = (render_error 502 (str "Failed to cancel") e, s)
  cancelled_frs ref (none, s) =
      (see_other (str "/wizard"), record s { watches = watch_del ref s.watches })

  abbrev pub cancel_parsed : Request → Option (Str × Str) → State W → Reply × State W
  cancel_parsed r none s =
      (render_error 400 (str "Bad frs parameter") (form_value (str "frs") r), s)
  cancel_parsed r (some (ns, name)) s =
      cancelled_frs (record { namespace = ns; name = name }) (in_world (frs.delete_frs ns name) s)

  unfoldable pub handle_wizard_cancel : Request → State W → Reply × State W
  handle_wizard_cancel r s =
      if r.form_error
      then (render_error 400 (str "Bad form data") (str "malformed form"), s)
      else cancel_parsed r (split_once slash (form_value (str "frs") r)) s
