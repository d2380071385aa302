-- ===== src/K8s/RestorePoints/Grouping.antt =====
-- What ListVMs counts for each VM.
pub mod Summaries
use mathlib.Core.List.{Perm}
use kasten_frs_web.Base.{
  ◌≡◌, refl, Bool, Option, some, List, [], ◌∷◌, if◌then◌else◌, ◌==◌, Str, keep, lookup, ap, ◌∙◌,
  inl, inr, true, false, none, Bool-cases, Unique, lookup-insert, ◌+◌, sym, subst, ◌⊎◌, arith,
  insert-Unique, ◌↔◌, ◌&&◌, str, and_split, Selected, keep-Selected, keep-keep, text_beq_iff,
  text_eq, map,
}
use kasten_frs_web.K8s.{ObjectApi}
use kasten_frs_web.K8s.Frs.Allowed.{IsAllowed, is_allowed_iff}
use kasten_frs_web.K8s.RestorePoints.{
  vm_key_eq, Vm, VmKey, Seen, vm_key_of, vm_key_beq, is_vm, is_counted, bump, known, see, see_all,
  vm_key_beq_iff, vm_before, values_of, list_vms,
}
use kasten_frs_web.K8s.RestorePoints.Grouping.Summaries.{summary, Describes, summary-Describes}
use kasten_frs_web.K8s.RestorePoints.Listed.{
  vm_before_asym, vm_before_trans, MayPrecede, vm_before-MayPrecede,
}
use kasten_frs_web.K8s.Sorting.{Ordered, IsSorted-Ordered, sort_slice-perm, sort_slice-IsSorted}

values_of-map : (m : Seen) → values_of m ≡ map (λ e. e.1) m
unfolding values_of
values_of-map [] = refl
values_of-map ((k, v) ∷ m) = ap (◌∷◌ v) (values_of-map m)

module _ {O : Type 0} (api : ObjectApi O) where
  abbrev pub is_of : VmKey → O → Bool
  is_of k it = vm_key_of api it == k

  one_more :
      (k : VmKey) (it : O) (o : Option Vm) (others : List O) (b : Bool)
      → summary api k (if b then some (bump api it (known api k o)) else o) others
        ≡ summary api k o (if b then it ∷ others else others)
  unfolding summary
  one_more k it o others true = refl
  one_more k it o others false = refl

  lookup-see :
      (k : VmKey) (m : Seen) (it : O)
      → lookup k (see api m it) ≡ (
          if vm_key_of api it == k
          then some (bump api it (known api k (lookup k m)))
          else lookup k m)
  unfolding see
  lookup-see k m it = elim (Bool-cases (vm_key_of api it == k)) [
    | inl y ↦
        lookup-insert k (vm_key_of api it) _ m
        ∙ rw y (ap (λ j. some (bump api it (known api j (lookup j m)))) ((vm_key_beq_iff _ k).0 y))
    | inr n ↦ lookup-insert k (vm_key_of api it) _ m ∙ rw n refl
  ]

  see_all-summary :
      (namespaces : List Str) (k : VmKey) (m : Seen) (items : List O)
      → lookup k (see_all api namespaces m items)
        ≡ summary api k (lookup k m) (keep (is_of k) (keep (is_counted api namespaces) items))
  unfolding see_all keep summary
  see_all-summary namespaces k m [] = refl
  see_all-summary namespaces k m (it ∷ items) = elim (Bool-cases (is_counted api namespaces it)) [
    | inr n ↦ rw n (see_all-summary namespaces k m items)
    | inl y ↦ rw y (
        see_all-summary namespaces k (see api m it) items
        ∙ rw (lookup-see k m it) (
            one_more k it (lookup k m) (keep (is_of k) (keep (is_counted api namespaces) items))
              (vm_key_of api it == k)))
  ]

  see_all-Unique :
      (namespaces : List Str) (m : Seen) (items : List O)
      → Unique m
      → Unique (see_all api namespaces m items)
  unfolding see_all see
  see_all-Unique namespaces m [] u = u
  see_all-Unique namespaces m (it ∷ items) u = elim (Bool-cases (is_counted api namespaces it)) [
    | inl y ↦
        rw y
          (see_all-Unique namespaces (see api m it) items (insert-Unique (vm_key_of api it) _ m u))
    | inr n ↦ rw n (see_all-Unique namespaces m items u)
  ]

  -- A restore point of a VM that ListVMs counts: of type virtualMachine, of an allowed namespace, and
  -- with the VM's name and namespace.
  abbrev pub Belongs : List Str → VmKey → O → Type 0
  Belongs namespaces k it =
      (api.get_label (str "k10.kasten.io/appType") it ≡ str "virtualMachine")
      × IsAllowed namespaces (api.get_label (str "k10.kasten.io/appNamespace") it)
      × (api.get_label (str "k10.kasten.io/appName") it ≡ k.name)
      × (api.get_label (str "k10.kasten.io/appNamespace") it ≡ k.ns)

  Belongs-iff :
      (namespaces : List Str) (k : VmKey) (it : O)
      → ((is_counted api namespaces it && is_of k it) ≡ true) ↔ Belongs namespaces k it
  unfolding is_counted is_vm vm_key_beq
  Belongs-iff namespaces k it = (
    λ h.
        let (counted, of_k) = and_split _ _ h in
        let (vm, allowed) = and_split _ _ counted in
        let (name, ns) = and_split _ _ of_k in
        (
          (text_beq_iff _ _).0 vm,
          (is_allowed_iff namespaces _).0 allowed,
          (text_beq_iff _ _).0 name,
          (text_beq_iff _ _).0 ns,
        ),
    λ (vm, allowed, name, ns).
        rw
          (
            (text_beq_iff _ _).1 vm,
            (is_allowed_iff namespaces _).1 allowed,
            (text_beq_iff _ _).1 name,
            (text_beq_iff _ _).1 ns,
          )
          refl,
  )

  -- The restore points of one VM, in the order of the items.
  abbrev points_of : List Str → VmKey → List O → List O
  points_of namespaces k items = keep (is_of k) (keep (is_counted api namespaces) items)

  points_of-Selected :
      (namespaces : List Str) (k : VmKey) (items : List O)
      → Selected (Belongs namespaces k) items (points_of namespaces k items)
  points_of-Selected namespaces k items =
      rw (keep-keep (is_of k) (is_counted api namespaces) items)
        (keep-Selected _ _ (Belongs-iff namespaces k) items)

  -- The list for these items: the values of a map from VMs to entries, in the order of ListVMs; a VM
  -- has an entry, which describes its restore points, exactly if it has any.
  pub record IsGrouped (namespaces : List Str) (items : List O) (vms : List Vm) : Type 0 where
    pub seen : Seen
    pub same : Perm vms (map (λ e. e.1) seen)
    pub sorted : Ordered MayPrecede vms
    pub unique : Unique seen
    pub each :
        (k : VmKey)
        → (points : List O) × Selected (Belongs namespaces k) items points
          × (((points ≡ []) × (lookup k seen ≡ none))
              ⊎ ((v : Vm) × (lookup k seen ≡ some v) × Describes api k points v))

  -- ListVMs lists each VM that has a restore point in an allowed namespace once, with the number
  -- of its restore points and the name and the time of one of them that none is newer than, sorted
  -- by namespace, by that time from the newest on, and by name.
  pub list_vms-IsGrouped :
      (namespaces : List Str) (items : List O)
      → (vms : List Vm) × (list_vms api namespaces (some items) ≡ some vms)
        × IsGrouped namespaces items vms
  unfolding list_vms lookup
  list_vms-IsGrouped namespaces items =
      let seen = see_all api namespaces [] items in
      (
        _,
        refl,
        record {
          seen = seen;
          same = subst (Perm _) (values_of-map seen) (sort_slice-perm vm_before _);
          sorted =
              IsSorted-Ordered vm_before MayPrecede vm_before-MayPrecede _
                (sort_slice-IsSorted vm_before vm_before_asym vm_before_trans _);
          unique = see_all-Unique namespaces [] items tt;
          each = λ k. (
            points_of namespaces k items,
            points_of-Selected namespaces k items,
            subst
                (λ o.
                  ((points_of namespaces k items ≡ []) × (o ≡ none))
                  ⊎ ((v : Vm) × (o ≡ some v) × Describes api k (points_of namespaces k items) v))
                (sym (see_all-summary namespaces k [] items))
                (summary-Describes api k (points_of namespaces k items)),
          );
        },
      )
