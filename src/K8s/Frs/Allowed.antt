-- ===== src/K8s/Frs/Allowed.antt =====
-- The whitelist of namespaces, as listFRS and ListVMs read it.
use kasten_frs_web.Base.{
  ◌≡◌, refl, ◌↔◌, ◌⊎◌, inl, inr, true, List, [], ◌∷◌, arith, ◌==◌, Str, any, text_eq, text_beq_iff,
  Bool-cases,
}
use kasten_frs_web.K8s.Frs.{is_allowed}

abbrev pub IsAmong : Str → List Str → Type 0
IsAmong ns [] = ⊥
IsAmong ns (n ∷ names) = (n ≡ ns) ⊎ IsAmong ns names

-- An empty whitelist lets every namespace through, any other those that it has.
abbrev pub IsAllowed : List Str → Str → Type 0
IsAllowed names ns = (names ≡ []) ⊎ IsAmong ns names

any_iff : (ns : Str) (names : List Str) → (any (λ n. n == ns) names ≡ true) ↔ IsAmong ns names
unfolding any
any_iff ns [] = (λ h. cc, λ h. elim h [ ])
any_iff ns (n ∷ names) = elim (Bool-cases (n == ns)) [
  | inl y ↦ rw y (λ h. inl ((text_beq_iff n ns).0 y), λ h. refl)
  | inr f ↦ rw f (
    λ h. inr ((any_iff ns names).0 h),
    λ h. elim h [ inl e ↦ cc ((text_beq_iff n ns).1 e, f) | inr m ↦ (any_iff ns names).1 m ],
  )
]

pub is_allowed_iff :
    (names : List Str) (ns : Str) → (is_allowed names ns ≡ true) ↔ IsAllowed names ns
unfolding is_allowed any
is_allowed_iff [] ns = (λ h. inl refl, λ h. refl)
is_allowed_iff (n ∷ names) ns = (
  λ h. inr ((any_iff ns (n ∷ names)).0 (ground (arith, h))),
  λ h. elim h [ inl e ↦ cc | inr m ↦ ground (arith, (any_iff ns (n ∷ names)).1 m) ],
)
