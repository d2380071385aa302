-- ===== src/K8s.antt =====
-- internal/k8s: FileRecoverySessions and RestorePoints as the helper sees them, and its client.
pub mod Frs
pub mod Client
pub mod Credentials
pub mod RestorePoints
pub mod Waiting
pub mod Sorting
mod Tests
use kasten_frs_web.Base.{
  ℕ, ◌≡◌, ◌↔◌, Bool, true, false, ◌&&◌, Option, none, List, [], arith, Eq, ◌==◌, text_beq_iff, Str,
  nat_eq, text_eq,
}
use kasten_frs_web.Base.Int.{ℤ, pos}

-- FRSRef of frs.go, and types.NamespacedName, which has the same two fields.
pub record FrsRef : Type 0 where
  pub namespace : Str
  pub name : Str

unfoldable pub ref_beq : FrsRef → FrsRef → Bool
ref_beq a b = a.namespace == b.namespace && a.name == b.name

pub ref_beq_iff : (a b : FrsRef) → (ref_beq a b ≡ true) ↔ (a ≡ b)
unfolding ref_beq
ref_beq_iff a b = ground (arith, text_beq_iff a.namespace b.namespace, text_beq_iff a.name b.name)

instance abbrev pub ref_eq : Eq FrsRef
ref_eq = record { same = ref_beq; same_iff = ref_beq_iff }

-- What the helper reads of an object that the API server returns (unstructured.Unstructured and its
-- Nested accessors, which give "" and 0 for what is missing or of another type), and time.Parse.
-- Times are in nanoseconds; `none` is the zero time.
pub record ObjectApi (O : Type 0) : Type 0 where
  pub get_namespace : O → Str
  pub get_name : O → Str
  pub get_created : O → ℕ
  pub get_label : Str → O → Str
  pub nested_string : List Str → O → Str
  pub nested_int : List Str → O → ℤ
  pub parse_time : Str → Option ℕ

-- FRSView, with the fields in the source's order.
pub record FrsView : Type 0 where
  pub ref : FrsRef
  pub service_name : Str
  pub service_ns : Str
  pub port : ℤ
  pub host_key_sig : Str
  pub expiry_time : Option ℕ
  pub state : Str
  pub created_at : ℕ
  pub source_app : Str
  pub source_app_ns : Str
  pub restore_point_created_at : Option ℕ
  pub connectable : Bool
  pub terminal : Bool

-- FRSView{}
abbrev pub empty_view : FrsView
empty_view = record {
  ref = record { namespace = []; name = [] };
  service_name = [];
  service_ns = [];
  port = pos 0;
  host_key_sig = [];
  expiry_time = none;
  state = [];
  created_at = 0;
  source_app = [];
  source_app_ns = [];
  restore_point_created_at = none;
  connectable = false;
  terminal = false;
}
