-- ===== src/Handlers/Wizard/Creation.antt =====
-- What the wizard records of the FRSes that it creates.
use kasten_frs_web.Base.{
  text_eq, nat_eq, ℕ, ◌≡◌, refl, ◌≢◌, ◌↔◌, ◌⊎◌, inl, inr, false, Option, none, some, List, [], ◌∷◌,
  ok, Bool-cases, ◌==◌, eq_refl, eq_ne, Str, str, text_beq, text_beq_iff, arith, length, ◌≤◌,
  Result, err, if◌then◌else◌, ne_of_eq_false,
}
use kasten_frs_web.Handlers.Server.{Reply, Server, State, browse_url}
use kasten_frs_web.Handlers.Watch.{WatchState, watch_get, stamped, watch_outcome, watch_finished}
use kasten_frs_web.Handlers.Watch.Eviction.{watch_get-set, watch_get-del}
use kasten_frs_web.Handlers.Wizard.{
  missing_fields, missing_of_request, initial_watch, created, create_checked, handle_wizard_create,
  finish_watch, handle_wizard_cancel,
}
use kasten_frs_web.Http.{Request, form_value, values, see_other}
use kasten_frs_web.K8s.{ref_eq, FrsRef, FrsView}
use kasten_frs_web.Std.Strings.{slash, split_once}

-- No field is reported missing exactly if all of them are filled in.
pub missing_fields_iff :
    (vm_ns vm_name rp_name : Str) (pvc_names : List Str)
    → (missing_fields vm_ns vm_name rp_name pvc_names ≡ [])
      ↔ ((vm_ns ≢ []) × (vm_name ≢ []) × (rp_name ≢ []) × (pvc_names ≢ []))
unfolding missing_fields text_beq
missing_fields_iff [] vm_name rp_name pvc_names = (λ h. cc, λ h. elim (h.0 refl) [ ])
missing_fields_iff (a ∷ xs) [] rp_name pvc_names = (λ h. cc, λ h. elim (h.1 refl) [ ])
missing_fields_iff (a ∷ xs) (b ∷ ys) [] pvc_names = (λ h. cc, λ h. elim (h.2 refl) [ ])
missing_fields_iff (a ∷ xs) (b ∷ ys) (c ∷ zs) [] = (λ h. cc, λ h. elim (h.3 refl) [ ])
missing_fields_iff (a ∷ xs) (b ∷ ys) (c ∷ zs) (p ∷ ps) = (
  λ h. (λ e. cc, λ e. cc, λ e. cc, λ e. cc),
  λ h. rw (eq_ne (length (p ∷ ps)) 0 (λ e. omega arith)) refl,
)

ready_outcome :
    (v : FrsView) (e : Option Str) → ((watch_outcome v e).state ≡ str "Ready") ↔ (e ≡ none)
unfolding watch_outcome
ready_outcome v none = (λ h. refl, λ h. refl)
ready_outcome v (some x) = elim (Bool-cases (v.state == str "Failed")) [
  | inl t ↦ rw t (λ h. cc, λ h. cc)
  | inr f ↦ rw f (λ h. cc, λ h. cc)
]

module _ {W : Type 0} (srv : Server W) where
  -- A form that can be read and has a namespace, a VM, a restore point and a claim, while the key is
  -- loaded.
  pub record IsComplete (r : Request) : Type 0 where
    pub readable : r.form_error ≡ false
    pub vm_ns : form_value (str "vmNs") r ≢ []
    pub vm_name : form_value (str "vmName") r ≢ []
    pub rp_name : form_value (str "rpName") r ≢ []
    pub claims : values (str "pvcNames") r.form ≢ []
    pub key : srv.pub_key_pem ≢ []

  -- What is sent to the API server for such a form.
  abbrev pub asked : Request → State W → Result Str FrsView × W
  asked r s =
      srv.frs.create_frs (form_value (str "vmNs") r)
        (record {
          name = [];
          restore_point_name = form_value (str "rpName") r;
          pvc_names = values (str "pvcNames") r.form;
          ssh_user_public_key = srv.pub_key_pem;
        })
        s.world

  -- The entry that stands for an FRS that was just created.
  abbrev pub pending : ℕ → FrsView → WatchState
  pending now v = record {
    state = str "Pending";
    view = v;
    error = none;
    done = false;
    created_at = some now;
  }

  -- What follows from the API server's answer: an error page, and nothing but the cluster has
  -- changed; or the browser is sent to the page of the new FRS, which alone is entered in the watch
  -- map, as pending from now on, and has one watcher more.
  abbrev pub CreateEffect : ℕ → State W → Result Str FrsView × W → Reply × State W → Type 0
  CreateEffect now s (err e, w) (reply, t) = (reply.status ≡ 502) × (t ≡ record s { world = w })
  CreateEffect now s (ok v, w) (reply, t) =
      (reply ≡ see_other (browse_url v.ref (str "/")))
      × ((j : FrsRef)
          → watch_get j t.watches
            ≡ (if v.ref == j then some (pending now v) else watch_get j s.watches))
      × (t.watchers ≡ v.ref ∷ s.watchers)
      × (t.pool ≡ s.pool)
      × (t.world ≡ w)

  created-CreateEffect :
      (now : ℕ) (s : State W) (a : Result Str FrsView × W)
      → CreateEffect now s a (created srv now (a.0, record s { world = a.1 }))
  created-CreateEffect now s (err e, w) = (refl, refl)
  created-CreateEffect now s (ok v, w) =
      (refl, λ j. watch_get-set j v.ref (initial_watch v) now s.watches, refl, refl, refl)

  complete_of :
      (r : Request)
      → r.form_error ≡ false
      → missing_of_request r ≡ []
      → srv.pub_key_pem ≢ []
      → IsComplete r
  unfolding missing_of_request
  complete_of r f m k =
      let h = (missing_fields_iff _ _ _ _).0 m in
      record { readable = f; vm_ns = h.0; vm_name = h.1; rp_name = h.2; claims = h.3; key = k }

  none_missing : (r : Request) → IsComplete r → missing_of_request r ≡ []
  unfolding missing_of_request
  none_missing r c = (missing_fields_iff _ _ _ _).1 (c.vm_ns, c.vm_name, c.rp_name, c.claims)

  -- A form that is not complete is answered with an error page, and nothing changes: no FRS is
  -- asked for. A complete one is sent to the API server as a spec of its own; if the server
  -- refuses, the answer is an error page, and pool, watch map and watchers stay as they are; if it
  -- makes the FRS, the browser is sent to the page of that FRS, the watch map has it as pending
  -- from now on and every other FRS as before, and one watcher more is started.
  pub handle_wizard_create-effects :
      (now : ℕ) (r : Request) (s : State W)
      → ((¬ IsComplete r)
          × (400 ≤ (handle_wizard_create srv now r s).0.status)
          × ((handle_wizard_create srv now r s).1 ≡ s))
        ⊎ (IsComplete r × CreateEffect now s (asked r s) (handle_wizard_create srv now r s))
  unfolding handle_wizard_create
  handle_wizard_create-effects now r s = elim (Bool-cases r.form_error) [
    | inl t ↦ inl (λ c. cc (t, c.readable), simp t (omega arith), simp t refl)
    | inr f ↦ simp f (checked (missing_of_request r) refl f)
  ]
    where
      keyed :
          missing_of_request r ≡ []
          → r.form_error ≡ false
          → ((¬ IsComplete r)
              × (400 ≤ (create_checked srv now r [] s).0.status)
              × ((create_checked srv now r [] s).1 ≡ s))
            ⊎ (IsComplete r × CreateEffect now s (asked r s) (create_checked srv now r [] s))
      keyed m f = elim (Bool-cases (srv.pub_key_pem == [])) [
        | inl y ↦
            inl (λ c. c.key ((text_beq_iff srv.pub_key_pem []).0 y), rw y (omega arith), rw y refl)
        | inr n ↦ inr (
          complete_of r f m (ne_of_eq_false srv.pub_key_pem [] n),
          rw n (created-CreateEffect now s (asked r s)),
        )
      ]

      checked :
          (ms : List Str)
          → missing_of_request r ≡ ms
          → r.form_error ≡ false
          → ((¬ IsComplete r)
              × (400 ≤ (create_checked srv now r ms s).0.status)
              × ((create_checked srv now r ms s).1 ≡ s))
            ⊎ (IsComplete r × CreateEffect now s (asked r s) (create_checked srv now r ms s))
      checked [] m f = keyed m f
      checked (x ∷ xs) m f = inl (λ c. cc (none_missing r c, m), omega arith, refl)

  -- When the wait for an FRS ends, the watch map has it as done, and as Ready exactly if the wait
  -- ended without an error; what it has of other FRSes is as it was.
  pub finish_watch-outcome :
      (ref j : FrsRef) (v : FrsView) (e : Option Str) (now : ℕ) (s : State W)
      → (watch_get ref (finish_watch srv ref v e now s).watches
          ≡ some (stamped now (watch_outcome v e)))
        × (((watch_outcome v e).state ≡ str "Ready") ↔ (e ≡ none))
        × (ref ≢ j → watch_get j (finish_watch srv ref v e now s).watches ≡ watch_get j s.watches)
  unfolding finish_watch watch_finished
  finish_watch-outcome ref j v e now s = (
    rw (watch_get-set ref ref (watch_outcome v e) now s.watches, eq_refl ref) refl,
    ready_outcome v e,
    λ n. rw (watch_get-set j ref (watch_outcome v e) now s.watches, eq_ne ref j n) refl,
  )

  -- A cancellation that the API server accepts takes the FRS out of the watch map, but if the
  -- watcher of the FRS ends after it, the entry is there again.
  pub handle_wizard_cancel-revived :
      (r : Request) (ns name : Str) (s : State W) (v : FrsView) (e : Option Str) (now : ℕ)
      → r.form_error ≡ false
      → split_once slash (form_value (str "frs") r) ≡ some (ns, name)
      → (srv.frs.delete_frs ns name s.world).0 ≡ none
      → let ref : FrsRef = record { namespace = ns; name = name } in
        let t = (handle_wizard_cancel srv r s).1 in
        (watch_get ref t.watches ≡ none)
        × (watch_get ref (finish_watch srv ref v e now t).watches
            ≡ some (stamped now (watch_outcome v e)))
  unfolding handle_wizard_cancel
  handle_wizard_cancel-revived r ns name s v e now f p d =
      let ref : FrsRef = record { namespace = ns; name = name } in
      (
        simp (f, p, d, watch_get-del ref ref s.watches, eq_refl ref) refl,
        (finish_watch-outcome ref ref v e now (handle_wizard_cancel srv r s).1).0,
      )
