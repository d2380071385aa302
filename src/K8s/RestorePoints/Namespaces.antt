-- ===== src/K8s/RestorePoints/Namespaces.antt =====
-- What ListVMNamespaces and ListRestorePoints return.
use mathlib.Core.List.{Perm}
use kasten_frs_web.Base.{
  nat_eq, text_eq, ◌≡◌, true, false, arith, refl, none, some, Bool, Bool-cases, inl, inr, Str, ◌==◌,
  if◌then◌else◌, not, ◌&&◌, List, [], ◌∷◌, any, lookup, lookup-insert, Unique, insert-Unique, map,
  insert,
}
use kasten_frs_web.K8s.{ObjectApi}
use kasten_frs_web.K8s.RestorePoints.{
  RestorePoint, keys_of, is_vm, app_ns, namespace_set, list_vm_namespaces, list_restore_points,
  restore_point_of, rp_newer,
}
use kasten_frs_web.K8s.Sorting.{IsSorted, sort_slice-perm, sort_slice-IsSorted}
use kasten_frs_web.Std.Strings.Order.{text_ltb, text_ltb_asym, text_ltb_trans}

rp_newer_asym : (a b : RestorePoint) → rp_newer a b ≡ true → rp_newer b a ≡ false
rp_newer_asym a b h = ground arith

rp_newer_trans :
    (a b c : RestorePoint) → rp_newer a b ≡ false → rp_newer b c ≡ false → rp_newer a c ≡ false
rp_newer_trans a b c h k = ground arith

module _ {O : Type 0} (api : ObjectApi O) where
  -- Is there a restore point of a VM in this namespace?
  abbrev pub is_named : Str → O → Bool
  is_named n it = is_vm api it && (not (app_ns api it == []) && app_ns api it == n)

  lookup-namespace_set :
      (n : Str) (m : List (Str × Unit {0})) (items : List O)
      → lookup n (namespace_set api m items)
        ≡ (if any (is_named n) items then some tt else lookup n m)
  unfolding namespace_set any
  lookup-namespace_set n m [] = refl
  lookup-namespace_set n m (it ∷ items) = ground (
    arith,
    lookup-namespace_set n m items,
    lookup-namespace_set n (insert (app_ns api it) tt m) items,
    lookup-insert n (app_ns api it) tt m,
  )

  namespace_set-Unique :
      (m : List (Str × Unit {0})) (items : List O) → Unique m → Unique (namespace_set api m items)
  unfolding namespace_set
  namespace_set-Unique m [] u = u
  namespace_set-Unique m (it ∷ items) u = elim (Bool-cases (is_vm api it)) [
    | inr n ↦ rw n (namespace_set-Unique m items u)
    | inl y ↦ elim (Bool-cases (app_ns api it == [])) [
      | inl e ↦ rw (y, e) (namespace_set-Unique m items u)
      | inr e ↦
          rw (y, e)
            (namespace_set-Unique (insert (app_ns api it) tt m) items
              (insert-Unique (app_ns api it) tt m u))
    ]
  ]

  -- The namespaces are sorted, each of them once, and are those of the VMs' restore points.
  pub list_vm_namespaces-lists :
      (items : List O)
      → (names : List Str) × (set : List (Str × Unit {0})) × (list_vm_namespaces api (some items)
          ≡ some names)
        × Perm names (keys_of set)
        × IsSorted text_ltb names
        × Unique set
        × ((n : Str) → lookup n set ≡ (if any (is_named n) items then some tt else none))
  unfolding list_vm_namespaces lookup
  list_vm_namespaces-lists items = (
    _,
    namespace_set api [] items,
    refl,
    sort_slice-perm text_ltb _,
    sort_slice-IsSorted text_ltb text_ltb_asym text_ltb_trans _,
    namespace_set-Unique [] items tt,
    λ n. lookup-namespace_set n [] items,
  )

  -- The restore points are those of the items, the newest first.
  pub list_restore_points-lists :
      (items : List O)
      → (points : List RestorePoint) × (list_restore_points api (some items) ≡ some points)
        × Perm points (map (restore_point_of api) items)
        × IsSorted rp_newer points
  unfolding list_restore_points
  list_restore_points-lists items = (
    _,
    refl,
    sort_slice-perm rp_newer _,
    sort_slice-IsSorted rp_newer rp_newer_asym rp_newer_trans _,
  )
