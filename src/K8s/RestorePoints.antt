-- ===== src/K8s/RestorePoints.antt =====
-- internal/k8s/restorepoints.go: the VMs, their namespaces and their restore points. The API server
-- answers with the items that its label selector lets through; `none` is an error.
pub mod Grouping
pub mod Times
pub mod Listed
pub mod Namespaces
pub mod Details
mod Tests
use kasten_frs_web.Base.{
  ℕ, ◌+◌, ◌≡◌, ◌↔◌, Bool, true, false, not, ◌&&◌, Option, none, some, List, [], ◌∷◌, map, arith,
  ltb, if◌then◌else◌, Eq, ◌==◌, text_beq_iff, Str, str, lookup, insert, nat_eq, text_eq,
}
use kasten_frs_web.K8s.{ObjectApi}
use kasten_frs_web.K8s.Frs.{is_allowed}
use kasten_frs_web.K8s.Sorting.{sort_slice}
use kasten_frs_web.Std.Strings.Order.{text_ltb}

-- VM: `none` is the zero time, which every other is after.
pub record Vm : Type 0 where
  pub app_name : Str
  pub app_namespace : Str
  pub last_rp_name : Str
  pub last_rp_time : Option ℕ
  pub rp_count : ℕ

pub record RestorePoint : Type 0 where
  pub name : Str
  pub namespace : Str
  pub state : Str
  pub created_at : ℕ
  pub rp_type : Str

-- The key of the map `seen`: name and namespace of an application.
pub record VmKey : Type 0 where
  pub name : Str
  pub ns : Str

unfoldable pub vm_key_beq : VmKey → VmKey → Bool
vm_key_beq a b = a.name == b.name && a.ns == b.ns

pub vm_key_beq_iff : (a b : VmKey) → (vm_key_beq a b ≡ true) ↔ (a ≡ b)
unfolding vm_key_beq
vm_key_beq_iff a b = ground (arith, text_beq_iff a.name b.name, text_beq_iff a.ns b.ns)

instance abbrev pub vm_key_eq : Eq VmKey
vm_key_eq = record { same = vm_key_beq; same_iff = vm_key_beq_iff }

abbrev pub Seen : Type 0
Seen = List (VmKey × Vm)

abbrev pub new_vm : VmKey → Vm
new_vm k = record {
  app_name = k.name;
  app_namespace = k.ns;
  last_rp_name = [];
  last_rp_time = none;
  rp_count = 0;
}

abbrev pub is_after : ℕ → Option ℕ → Bool
is_after created none = true
is_after created (some t) = ltb t created

-- t.After(u) of two times that can be zero.
abbrev pub time_after : Option ℕ → Option ℕ → Bool
time_after none u = false
time_after (some t) u = is_after t u

abbrev pub time_equal : Option ℕ → Option ℕ → Bool
time_equal none none = true
time_equal none (some u) = false
time_equal (some t) none = false
time_equal (some t) (some u) = t == u

-- The comparison that ListVMs sorts by.
unfoldable pub vm_before : Vm → Vm → Bool
vm_before a b =
    if not (a.app_namespace == b.app_namespace)
    then text_ltb a.app_namespace b.app_namespace
    else if time_equal a.last_rp_time b.last_rp_time
    then text_ltb a.app_name b.app_name
    else time_after a.last_rp_time b.last_rp_time

abbrev pub rp_newer : RestorePoint → RestorePoint → Bool
rp_newer a b = ltb b.created_at a.created_at

unfoldable pub values_of : Seen → List Vm
values_of [] = []
values_of ((k, v) ∷ m) = v ∷ values_of m

-- Sets as association lists: a namespace is in the set if it is a key.
unfoldable pub keys_of : List (Str × Unit {0}) → List Str
keys_of [] = []
keys_of ((k, u) ∷ m) = k ∷ keys_of m

module _ {O : Type 0} (api : ObjectApi O) where
  open api use {get_namespace, get_name, get_created, get_label, nested_string}

  unfoldable pub rp_type_from_labels : O → Str
  rp_type_from_labels it =
      if not (get_label (str "k10.kasten.io/exportProfile") it == [])
      then str "export"
      else str "snapshot"

  unfoldable pub is_vm : O → Bool
  is_vm it = get_label (str "k10.kasten.io/appType") it == str "virtualMachine"

  abbrev pub app_ns : O → Str
  app_ns it = get_label (str "k10.kasten.io/appNamespace") it

  abbrev pub vm_key_of : O → VmKey
  vm_key_of it = record { name = get_label (str "k10.kasten.io/appName") it; ns = app_ns it }

  unfoldable pub is_counted : List Str → O → Bool
  is_counted namespaces it = is_vm it && is_allowed namespaces (app_ns it)

  -- One restore point more of a VM.
  unfoldable pub bump : O → Vm → Vm
  bump it v =
      if is_after (get_created it) v.last_rp_time
      then record v {
        rp_count = v.rp_count + 1;
        last_rp_time = some (get_created it);
        last_rp_name = get_name it;
      }
      else record v { rp_count = v.rp_count + 1 }

  abbrev pub known : VmKey → Option Vm → Vm
  known k none = new_vm k
  known k (some v) = v

  -- The body of the loop of ListVMs, and the loop.
  unfoldable pub see : Seen → O → Seen
  see m it = insert (vm_key_of it) (bump it (known (vm_key_of it) (lookup (vm_key_of it) m))) m

  unfoldable pub see_all : List Str → Seen → List O → Seen
  see_all namespaces m [] = m
  see_all namespaces m (it ∷ items) =
      let more = see_all namespaces (see m it) items in
      if is_counted namespaces it then more else see_all namespaces m items

  -- ListVMs. The order in which the map is read makes no difference, as the keys differ.
  unfoldable pub list_vms : List Str → Option (List O) → Option (List Vm)
  list_vms namespaces none = none
  list_vms namespaces (some items) =
      some (sort_slice vm_before (values_of (see_all namespaces [] items)))

  unfoldable pub namespace_set : List (Str × Unit {0}) → List O → List (Str × Unit {0})
  namespace_set m [] = m
  namespace_set m (it ∷ items) =
      let more = namespace_set (insert (app_ns it) tt m) items in
      let rest = namespace_set m items in
      if not (is_vm it) then rest else if app_ns it == [] then rest else more

  unfoldable pub list_vm_namespaces : Option (List O) → Option (List Str)
  list_vm_namespaces none = none
  list_vm_namespaces (some items) = some (sort_slice text_ltb (keys_of (namespace_set [] items)))

  abbrev pub restore_point_of : O → RestorePoint
  restore_point_of it = record {
    name = get_name it;
    namespace = get_namespace it;
    state = nested_string (str "status" ∷ str "state" ∷ []) it;
    created_at = get_created it;
    rp_type = rp_type_from_labels it;
  }

  -- ListRestorePoints; the selector names the application, and the API server applies it.
  unfoldable pub list_restore_points : Option (List O) → Option (List RestorePoint)
  list_restore_points none = none
  list_restore_points (some items) = some (sort_slice rp_newer (map restore_point_of items))
