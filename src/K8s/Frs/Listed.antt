-- ===== src/K8s/Frs/Listed.antt =====
-- Which sessions are listed, and in which order.
use mathlib.Core.List.{Perm}
use kasten_frs_web.Base.{
  ℕ, ◌≤◌, ◌≡◌, refl, sym, ◌↔◌, ◌⊎◌, inl, inr, Bool, true, false, Option, none, some, some_eq, not,
  ◌&&◌, ◌||◌, ◌==◌, if◌then◌else◌, text_eq, List, [], ◌∷◌, map, arith, Str, str, keep, All, All-of,
  Selected, keep-Selected, text_beq, text_beq_iff, ◌≢◌,
}
use kasten_frs_web.K8s.{ObjectApi, FrsView}
use kasten_frs_web.K8s.Frs.{
  is_listed, is_active_state, is_terminal_state, is_over, newer, view_of, list_frs, state_of,
}
use kasten_frs_web.K8s.Frs.Allowed.{IsAllowed, is_allowed_iff}
use kasten_frs_web.K8s.Frs.Views.{IsViewOf, view_of-IsViewOf}
use kasten_frs_web.K8s.Sorting.{sort_slice-perm, sort_slice-IsSorted, Ordered, IsSorted-Ordered}

newer_asym : (a b : FrsView) → newer a b ≡ true → newer b a ≡ false
newer_asym a b h = ground arith

newer_trans : (a b c : FrsView) → newer a b ≡ false → newer b c ≡ false → newer a c ≡ false
newer_trans a b c h k = ground arith

-- No view stands after an older one.
abbrev pub NoOlder : FrsView → FrsView → Type 0
NoOlder a b = b.created_at ≤ a.created_at

-- The states in which an FRS is still of use: all but these three.
abbrev pub IsActive : Str → Type 0
IsActive state = (state ≢ str "Failed") × (state ≢ str "Succeeded") × (state ≢ str "Terminated")

IsActive-iff : (state : Str) → (is_active_state state ≡ true) ↔ IsActive state
unfolding is_active_state is_terminal_state
IsActive-iff state = ground (
  arith,
  text_beq_iff state (str "Failed"),
  text_beq_iff state (str "Succeeded"),
  text_beq_iff state (str "Terminated"),
)

shown_iff :
    (a i s o : Bool) (A I S : Type 0)
    → ((a ≡ true) ↔ A)
    → ((s ≡ true) ↔ I)
    → ((o ≡ false) ↔ S)
    → ((a && (i || (s && not o))) ≡ true) ↔ (A × ((i ≡ true) ⊎ (I × S)))
shown_iff false i s o A I S f g h = (λ e. cc, λ e. f.1 e.0)
shown_iff true true s o A I S f g h = (λ e. (f.0 refl, inl refl), λ e. refl)
shown_iff true false false o A I S f g h = (λ e. cc, λ e. elim e.1 [ inl t ↦ t | inr t ↦ g.1 t.0 ])
shown_iff true false true true A I S f g h =
    (λ e. cc, λ e. elim e.1 [ inl t ↦ t | inr t ↦ sym (h.1 t.1) ])
shown_iff true false true false A I S f g h = (λ e. (f.0 refl, inr (g.0 refl, h.0 refl)), λ e. refl)

module _ {O : Type 0} (api : ObjectApi O) where
  open api use {get_namespace, nested_string, parse_time}

  -- An item that has not expired: it has no time of expiry that can be read, or it is not past it.
  abbrev pub Lasts : ℕ → Str → Type 0
  Lasts now expiry =
      (expiry ≡ [])
      ⊎ (parse_time expiry ≡ none)
      ⊎ ((t : ℕ) × (parse_time expiry ≡ some t) × (now ≤ t))

  -- An item that the list shows: of an allowed namespace, and for ListActiveFRS neither terminal
  -- nor expired.
  abbrev pub IsShown : List Str → Bool → ℕ → O → Type 0
  IsShown namespaces include_terminal now item =
      IsAllowed namespaces (get_namespace item)
      × ((include_terminal ≡ true)
          ⊎ (IsActive (nested_string (str "status" ∷ str "state" ∷ []) item)
              × Lasts now (nested_string (str "status" ∷ str "expiryTime" ∷ []) item)))

  over_iff :
      (now : ℕ) (o : Option ℕ)
      → (is_over now o ≡ false) ↔ ((o ≡ none) ⊎ ((t : ℕ) × (o ≡ some t) × (now ≤ t)))
  over_iff now none = (λ h. inl refl, λ h. refl)
  over_iff now (some t) = (
    λ h. inr (t, refl, ground (arith, h)),
    λ h. elim h [ inl e ↦ cc | inr (u, e, l) ↦ ground (arith, some_eq e, l) ],
  )

  Lasts-iff :
      (now : ℕ) (expiry : Str)
      → (is_over now (if expiry == [] then none else parse_time expiry) ≡ false) ↔ Lasts now expiry
  unfolding text_beq
  Lasts-iff now [] = (λ h. inl refl, λ h. refl)
  Lasts-iff now (x ∷ xs) = (
    λ h. inr ((over_iff now (parse_time (x ∷ xs))).0 h),
    λ h. elim h [ inl e ↦ cc | inr o ↦ (over_iff now (parse_time (x ∷ xs))).1 o ],
  )

  is_listed_iff :
      (namespaces : List Str) (include_terminal : Bool) (now : ℕ) (item : O)
      → (is_listed api namespaces include_terminal now item ≡ true)
        ↔ IsShown namespaces include_terminal now item
  unfolding is_listed
  is_listed_iff namespaces include_terminal now item =
      shown_iff _ include_terminal _ _ _ _ _ (is_allowed_iff namespaces (get_namespace item))
        (IsActive-iff (state_of api item)) (Lasts-iff now _)

  -- The list holds the views of the items of an allowed namespace that, for ListActiveFRS, are
  -- neither terminal nor expired, each once, a view saying of its item, field by field, what it is
  -- to say; and no view stands after an older one.
  pub list_frs-views :
      (namespaces : List Str) (include_terminal : Bool) (now : ℕ) (items : List O)
      → (shown : List O) × (views : List FrsView) × Selected
          (IsShown namespaces include_terminal now)
          items
          shown
        × (list_frs api namespaces include_terminal now (some items) ≡ some views)
        × Perm views (map (view_of api) shown)
        × All (λ item. IsViewOf api item (view_of api item)) shown
        × Ordered NoOlder views
  unfolding list_frs
  list_frs-views namespaces include_terminal now items = (
    keep (is_listed api namespaces include_terminal now) items,
    _,
    keep-Selected _ _ (is_listed_iff namespaces include_terminal now) items,
    refl,
    sort_slice-perm (newer) _,
    All-of (view_of-IsViewOf api) _,
    IsSorted-Ordered newer NoOlder (λ a b h. ground (arith, h)) _
        (sort_slice-IsSorted (newer) newer_asym newer_trans _),
  )
