-- ===== src/K8s/RestorePoints/Listed.antt =====
-- The order that ListVMs sorts by is a strict weak order.
use kasten_frs_web.Base.{
  nat_eq, text_eq, ◌≡◌, true, false, arith, refl, Option, none, some, ℕ, ◌<◌, ◌⊎◌, inl, inr, sym,
  ap, ◌==◌, Bool-cases, nat_beq_iff, text_beq_iff, Bool, Str, if◌then◌else◌,
}
use kasten_frs_web.K8s.RestorePoints.{Vm, vm_before, time_equal, time_after}
use kasten_frs_web.Std.Strings.Order.{text_ltb, text_ltb_asym, text_ltb_trans, text_ltb_total}

-- The order among the VMs of one namespace.
unfoldable within : Option ℕ → Option ℕ → Str → Str → Bool
within t u a b = if time_equal t u then text_ltb a b else time_after t u

within_asym : (t u : Option ℕ) (a b : Str) → within t u a b ≡ true → within u t b a ≡ false
unfolding within
within_asym none none a b h = text_ltb_asym a b h
within_asym none (some u) a b h = cc
within_asym (some t) none a b h = refl
within_asym (some t) (some u) a b h = ground (arith, text_ltb_asym a b)

within_trans :
    (s t u : Option ℕ) (a b c : Str)
    → within s t a b ≡ false
    → within t u b c ≡ false
    → within s u a c ≡ false
unfolding within
within_trans none none none a b c h k = text_ltb_trans a b c h k
within_trans none none (some u) a b c h k = refl
within_trans none (some t) none a b c h k = cc
within_trans none (some t) (some u) a b c h k = refl
within_trans (some s) none u a b c h k = cc
within_trans (some s) (some t) none a b c h k = cc
within_trans (some s) (some t) (some u) a b c h k = ground (arith, text_ltb_trans a b c)

pub vm_before_asym : (a b : Vm) → vm_before a b ≡ true → vm_before b a ≡ false
unfolding vm_before within
vm_before_asym a b h = ground (
  arith,
  within_asym a.last_rp_time b.last_rp_time a.app_name b.app_name,
  text_ltb_asym a.app_namespace b.app_namespace,
  text_beq_iff a.app_namespace b.app_namespace,
  text_beq_iff b.app_namespace a.app_namespace,
)

pub vm_before_trans :
    (a b c : Vm) → vm_before a b ≡ false → vm_before b c ≡ false → vm_before a c ≡ false
unfolding vm_before within
vm_before_trans a b c h k = ground (
  arith,
  within_trans a.last_rp_time b.last_rp_time c.last_rp_time a.app_name b.app_name c.app_name,
  text_ltb_trans a.app_namespace b.app_namespace c.app_namespace,
  text_ltb_total a.app_namespace b.app_namespace,
  text_beq_iff a.app_namespace b.app_namespace,
  text_beq_iff b.app_namespace c.app_namespace,
  text_beq_iff a.app_namespace c.app_namespace,
)

-- One time is later than another; the zero time is earlier than all others.
abbrev pub IsLater : Option ℕ → Option ℕ → Type 0
IsLater none u = ⊥
IsLater (some t) none = Unit
IsLater (some t) (some u) = u < t

-- A VM may stand before another: its namespace comes first; or they share the namespace, and its
-- newest time is later; or they share the time too, and the other's name does not come first.
abbrev pub MayPrecede : Vm → Vm → Type 0
MayPrecede a b =
    (text_ltb a.app_namespace b.app_namespace ≡ true)
    ⊎ ((a.app_namespace ≡ b.app_namespace)
        × (IsLater a.last_rp_time b.last_rp_time
            ⊎ ((a.last_rp_time ≡ b.last_rp_time) × (text_ltb b.app_name a.app_name ≡ false))))

within_MayPrecede :
    (t u : Option ℕ) (a b : Str)
    → within u t b a ≡ false
    → IsLater t u ⊎ ((t ≡ u) × (text_ltb b a ≡ false))
unfolding within
within_MayPrecede none none a b h = inr (refl, h)
within_MayPrecede none (some u) a b h = cc
within_MayPrecede (some t) none a b h = inl tt
within_MayPrecede (some t) (some u) a b h = elim (Bool-cases (u == t)) [
  | inl e ↦ inr (ap some (sym ((nat_beq_iff u t).0 e)), ground (arith, h, e))
  | inr n ↦ inl (ground (arith, h, n))
]

pub vm_before-MayPrecede : (a b : Vm) → vm_before b a ≡ false → MayPrecede a b
unfolding vm_before within
vm_before-MayPrecede a b h = elim (Bool-cases (b.app_namespace == a.app_namespace)) [
  | inl e ↦ inr (
    sym ((text_beq_iff _ _).0 e),
    within_MayPrecede a.last_rp_time b.last_rp_time a.app_name b.app_name (rw e at h),
  )
  | inr n ↦ inl (
      ground (
        arith,
        h,
        n,
        text_ltb_total a.app_namespace b.app_namespace,
        text_ltb_total b.app_namespace a.app_namespace,
        text_beq_iff b.app_namespace a.app_namespace,
        text_beq_iff a.app_namespace b.app_namespace,
      ))
]
