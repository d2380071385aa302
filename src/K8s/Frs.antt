-- ===== src/K8s/Frs.antt =====
-- internal/k8s/frs.go: building, listing, reading and deleting FileRecoverySessions.
pub mod Views
pub mod Source
pub mod Writing
pub mod Allowed
pub mod Listed
use kasten_frs_web.Base.{
  ℕ, ◌+◌, Bool, true, false, not, ◌&&◌, ◌||◌, Option, none, some, List, ◌∷◌, map, ltb,
  if◌then◌else◌, Result, ok, err, ◌==◌, Str, str, length, keep, any, nat_eq, text_eq, [],
}
use kasten_frs_web.Base.Int.{ℤ, pos_part, neg_part}
use kasten_frs_web.K8s.{FrsRef, ObjectApi, FrsView}
use kasten_frs_web.K8s.Sorting.{sort_slice}

unfoldable pub is_terminal_state : Str → Bool
is_terminal_state s = s == str "Failed" || s == str "Succeeded" || s == str "Terminated"

unfoldable pub is_active_state : Str → Bool
is_active_state s = not (is_terminal_state s)

pub data FrsError : Type 0 where
  api_error : FrsError
  not_connectable : FrsRef → FrsError

abbrev sftp_field : Str → List Str
sftp_field name = str "status" ∷ str "transports" ∷ str "sftp" ∷ name ∷ []

abbrev pub is_zero : ℤ → Bool
is_zero n = pos_part n + neg_part n == 0

-- The whitelist: an empty one lets every namespace through.
unfoldable pub is_allowed : List Str → Str → Bool
is_allowed namespaces ns = not (ltb 0 (length namespaces) && not (any (λ n. n == ns) namespaces))

abbrev pub is_over : ℕ → Option ℕ → Bool
is_over now none = false
is_over now (some t) = ltb t now

-- What GetFRS makes of buildFRSView's two results.
abbrev pub if_connectable : FrsRef → FrsView × Bool → Result FrsError FrsView
if_connectable ref (v, true) = ok v
if_connectable ref (v, false) = err (not_connectable ref)

abbrev pub newer : FrsView → FrsView → Bool
newer a b = ltb b.created_at a.created_at

module _ {O : Type 0} (api : ObjectApi O) where
  open api use {get_namespace, get_name, get_created, nested_string, nested_int, parse_time}

  abbrev pub service_name_of : O → Str
  service_name_of item = nested_string (sftp_field (str "serviceName")) item

  abbrev pub service_ns_of : O → Str
  service_ns_of item = nested_string (sftp_field (str "serviceNamespace")) item

  abbrev pub port_of : O → ℤ
  port_of item = nested_int (sftp_field (str "portNumber")) item

  abbrev pub state_of : O → Str
  state_of item = nested_string (str "status" ∷ str "state" ∷ []) item

  abbrev pub expiry_of : O → Option ℕ
  expiry_of item =
      let text = nested_string (str "status" ∷ str "expiryTime" ∷ []) item in
      if text == [] then none else parse_time text

  abbrev pub is_published : O → Bool
  is_published item =
      not (service_name_of item == [] || service_ns_of item == [] || is_zero (port_of item))

  -- buildFRSView: the view, and whether it can be connected to.
  unfoldable pub build_frs_view : O → FrsView × Bool
  build_frs_view item = (
    record {
      ref = record { namespace = get_namespace item; name = get_name item };
      service_name = service_name_of item;
      service_ns = service_ns_of item;
      port = port_of item;
      host_key_sig = nested_string (sftp_field (str "hostKeySignature")) item;
      expiry_time = expiry_of item;
      state = state_of item;
      created_at = get_created item;
      source_app = [];
      source_app_ns = [];
      restore_point_created_at = none;
      connectable = is_published item;
      terminal = is_terminal_state (state_of item);
    },
    is_published item,
  )

  -- Which items listFRS keeps.
  unfoldable pub is_listed : List Str → Bool → ℕ → O → Bool
  is_listed namespaces include_terminal now item =
      is_allowed namespaces (get_namespace item)
      && (include_terminal
          || (is_active_state (state_of item) && not (is_over now (expiry_of item))))

  abbrev pub view_of : O → FrsView
  view_of item = (build_frs_view item).0

  -- listFRS, given the API server's answer (`none`: an error) and the clock.
  unfoldable pub list_frs : List Str → Bool → ℕ → Option (List O) → Option (List FrsView)
  list_frs namespaces include_terminal now none = none
  list_frs namespaces include_terminal now (some items) =
      some (sort_slice newer (map view_of (keep (is_listed namespaces include_terminal now) items)))

  unfoldable pub list_active_frs : List Str → ℕ → Option (List O) → Option (List FrsView)
  list_active_frs namespaces now answer = list_frs namespaces false now answer

  unfoldable pub list_all_frs : List Str → ℕ → Option (List O) → Option (List FrsView)
  list_all_frs namespaces now answer = list_frs namespaces true now answer

  -- GetFRS, given the API server's answer.
  unfoldable pub get_frs : FrsRef → Option O → Result FrsError FrsView
  get_frs ref none = err api_error
  get_frs ref (some item) = if_connectable ref (build_frs_view item)
