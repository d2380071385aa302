-- ===== src/K8s/Frs/Views.antt =====
-- What a view says of its object.
use kasten_frs_web.Base.{
  ◌≡◌, ◌≢◌, ◌↔◌, ◌⊎◌, true, Option, some, [], arith, ok, text_beq_iff, Str, str, refl, sym, ap,
  none, ok-injective, Bool, false, List, ◌∷◌, inl, inr, Bool-cases, ne_of_eq_false, ◌==◌, text_eq,
}
use kasten_frs_web.Base.Int.{pos, ℤ}
use kasten_frs_web.K8s.{FrsRef, ObjectApi, FrsView}
use kasten_frs_web.K8s.Frs.{
  is_terminal_state, service_name_of, service_ns_of, port_of, expiry_of, view_of, get_frs, is_zero,
  is_published, build_frs_view, if_connectable,
}

-- The terminal states are three, and every other state is active.
pub is_terminal_state_iff :
    (s : Str)
    → (is_terminal_state s ≡ true)
      ↔ ((s ≡ str "Failed") ⊎ (s ≡ str "Succeeded") ⊎ (s ≡ str "Terminated"))
unfolding is_terminal_state
is_terminal_state_iff s = ground (
  arith,
  text_beq_iff s (str "Failed"),
  text_beq_iff s (str "Succeeded"),
  text_beq_iff s (str "Terminated"),
)

is_zero_iff : (n : ℤ) → (is_zero n ≡ true) ↔ (n ≡ pos 0)
is_zero_iff n = ground arith

module _ {O : Type 0} (api : ObjectApi O) where
  -- An object is connectable exactly if all three of its service coordinates are published.
  pub is_published_iff :
      (item : O)
      → (is_published api item ≡ true) ↔ (
          (service_name_of api item ≢ [])
          × (service_ns_of api item ≢ [])
          × (port_of api item ≢ pos 0))
  is_published_iff item = ground (
    arith,
    text_beq_iff (service_name_of api item) [],
    text_beq_iff (service_ns_of api item) [],
    is_zero_iff (port_of api item),
  )

  if_connectable_iff :
      (ref : FrsRef) (p : FrsView × Bool) (v : FrsView)
      → (if_connectable ref p ≡ ok v) ↔ ((v ≡ p.0) × (p.1 ≡ true))
  if_connectable_iff ref (w, true) v = (λ h. (sym (ok-injective h), refl), λ (e, t). ap ok (sym e))
  if_connectable_iff ref (w, false) v = (λ h. cc, λ (e, t). cc)

  build_frs_view-connectable :
      (item : O) → (build_frs_view api item).1 ≡ (view_of api item).connectable
  unfolding build_frs_view
  build_frs_view-connectable item = refl

  -- GetFRS gives a view exactly of an object that can be connected to.
  pub get_frs_iff :
      (ref : FrsRef) (answer : Option O) (v : FrsView)
      → (get_frs api ref answer ≡ ok v)
        ↔ ((item : O) × (answer ≡ some item) × (v ≡ view_of api item) × (v.connectable ≡ true))
  unfolding get_frs
  get_frs_iff ref none v = (λ h. cc, λ h. cc h.1)
  get_frs_iff ref (some item) v = (
    λ h.
        let (e, t) = (if_connectable_iff ref (build_frs_view api item) v).0 h in
        (item, refl, e, cc (build_frs_view-connectable item)),
    λ (x, a, e, c).
        (if_connectable_iff ref (build_frs_view api item) v).1
          (cc, cc (build_frs_view-connectable x)),
  )

  abbrev sftp_path : Str → List Str
  sftp_path name = str "status" ∷ str "transports" ∷ str "sftp" ∷ name ∷ []

  abbrev service_text : Str → O → Str
  service_text name item = api.nested_string (sftp_path name) item

  abbrev expiry_text : O → Str
  expiry_text item = api.nested_string (str "status" ∷ str "expiryTime" ∷ []) item

  expiry_of-text :
      (item : O)
      → ((expiry_text item ≡ []) × (expiry_of api item ≡ none))
        ⊎ ((expiry_text item ≢ []) × (expiry_of api item ≡ api.parse_time (expiry_text item)))
  expiry_of-text item = elim (Bool-cases (expiry_text item == [])) [
    | inl y ↦ inl ((text_beq_iff _ _).0 y, rw y refl)
    | inr n ↦ inr (ne_of_eq_false (expiry_text item) [] n, rw n refl)
  ]

  -- A view of an object, field by field. It can be connected to exactly if the three coordinates of
  -- the service are published, and is terminal exactly in the three terminal states; its source is
  -- not filled in.
  pub record IsViewOf (item : O) (v : FrsView) : Type 0 where
    pub named : v.ref ≡ record { namespace = api.get_namespace item; name = api.get_name item }
    pub service : v.service_name ≡ service_text (str "serviceName") item
    pub service_ns : v.service_ns ≡ service_text (str "serviceNamespace") item
    pub port : v.port ≡ api.nested_int (sftp_path (str "portNumber")) item
    pub host_key : v.host_key_sig ≡ service_text (str "hostKeySignature") item
    pub in_state : v.state ≡ api.nested_string (str "status" ∷ str "state" ∷ []) item
    pub made : v.created_at ≡ api.get_created item
    pub expires :
        ((expiry_text item ≡ []) × (v.expiry_time ≡ none))
        ⊎ ((expiry_text item ≢ []) × (v.expiry_time ≡ api.parse_time (expiry_text item)))
    pub connects :
        (v.connectable ≡ true) ↔ ((v.service_name ≢ []) × (v.service_ns ≢ []) × (v.port ≢ pos 0))
    pub ends :
        (v.terminal ≡ true)
        ↔ ((v.state ≡ str "Failed") ⊎ (v.state ≡ str "Succeeded") ⊎ (v.state ≡ str "Terminated"))
    pub no_source :
        (v.source_app ≡ []) × (v.source_app_ns ≡ []) × (v.restore_point_created_at ≡ none)

  pub view_of-IsViewOf : (item : O) → IsViewOf item (view_of api item)
  unfolding build_frs_view
  view_of-IsViewOf item = record {
    named = refl;
    service = refl;
    service_ns = refl;
    port = refl;
    host_key = refl;
    in_state = refl;
    made = refl;
    expires = expiry_of-text item;
    connects = is_published_iff item;
    ends = is_terminal_state_iff _;
    no_source = (refl, refl, refl);
  }
