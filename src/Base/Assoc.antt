-- ===== src/Base/Assoc.antt =====
-- Maps as association lists. A write takes the place of every older entry of its key.
use mathlib.Core.Path.{◌≡◌, refl, subst}
use mathlib.Core.Logic.{◌≢◌, inl, inr}
use mathlib.Core.Bool.{Bool, true, false, not}
use mathlib.Core.Option.{Option, none, some}
use mathlib.Core.List.{List, [], ◌∷◌}
use native.Mathlib.Omega.{arith}
use kasten_frs_web.Base.Lists.{All, All-map}
use kasten_frs_web.Base.Tests.{some_eq, Eq, ◌==◌, if◌then◌else◌, Bool-cases, eq_ne, ne_of_eq_false}

-- A test of the value that a lookup found.
abbrev pub filter_found {κ} : {V : Type κ} → (V → Bool) → Option V → Option V
filter_found p none = none
filter_found p (some v) = if p v then some v else none

module _ {ℓ κ} {K : Type ℓ} {V : Type κ} where
  -- The entries that pass a test of key and value.
  unfoldable pub retain : (K → V → Bool) → List (K × V) → List (K × V)
  retain p [] = []
  retain p ((k, v) ∷ m) = let rest = retain p m in if p k v then (k, v) ∷ rest else rest

  -- No two entries have one key.
  abbrev pub Unique : List (K × V) → Type ℓ
  Unique [] = Unit
  Unique ((k, v) ∷ m) = All (λ j. j.0 ≢ k) m × Unique m

  pub retain-All {μ} :
      (P : K × V → Type μ) (p : K → V → Bool) (m : List (K × V)) → All P m → All P (retain p m)
  unfolding retain
  retain-All P p [] h = tt
  retain-All P p ((k, v) ∷ m) h = elim (Bool-cases (p k v)) [
    | inl t ↦ rw t (h.0, retain-All P p m h.1)
    | inr t ↦ rw t (retain-All P p m h.1)
  ]

  pub retain-Unique : (p : K → V → Bool) (m : List (K × V)) → Unique m → Unique (retain p m)
  unfolding retain
  retain-Unique p [] h = tt
  retain-Unique p ((k, v) ∷ m) h = elim (Bool-cases (p k v)) [
    | inl t ↦ rw t (retain-All (λ j. j.0 ≢ k) p m h.0, retain-Unique p m h.1)
    | inr t ↦ rw t (retain-Unique p m h.1)
  ]

  -- What a test keeps passes it.
  pub retain-passes :
      (p : K → V → Bool) (m : List (K × V)) → All (λ j. p j.0 j.1 ≡ true) (retain p m)
  unfolding retain
  retain-passes p [] = tt
  retain-passes p ((k, v) ∷ m) = elim (Bool-cases (p k v)) [
    | inl t ↦ rw t (t, retain-passes p m)
    | inr t ↦ rw t (retain-passes p m)
  ]

module _ {ℓ κ} {K : Type ℓ} ⦃e : Eq K⦄ {V : Type κ} where
  unfoldable pub lookup : K → List (K × V) → Option V
  lookup k [] = none
  lookup k ((j, v) ∷ m) = if j == k then some v else lookup k m

  unfoldable pub erase : K → List (K × V) → List (K × V)
  erase k m = retain (λ j v. not (j == k)) m

  unfoldable pub insert : K → V → List (K × V) → List (K × V)
  insert k v m = (k, v) ∷ erase k m

  pub insert-Unique : (k : K) (v : V) (m : List (K × V)) → Unique m → Unique (insert k v m)
  unfolding insert erase
  insert-Unique k v m h = (
    All-map (λ j t. ne_of_eq_false j.0 k (ground arith)) _ (retain-passes _ m),
    retain-Unique _ m h,
  )

  pub lookup_absent : (k : K) (m : List (K × V)) → All (λ j. j.0 ≢ k) m → lookup k m ≡ none
  unfolding lookup
  lookup_absent k [] h = refl
  lookup_absent k ((j, v) ∷ m) h = rw (eq_ne j k h.0) (lookup_absent k m h.1)

  pub All-lookup {μ} :
      (P : K × V → Type μ) (k : K) (v : V) (m : List (K × V))
      → All P m
      → lookup k m ≡ some v
      → P (k, v)
  unfolding lookup
  All-lookup P k v [] h f = cc
  All-lookup P k v ((j, w) ∷ m) h f = elim (Bool-cases (j == k)) [
    | inl y ↦ subst P (cc ((e.same_iff j k).0 y, some_eq (rw (y, lookup) at f))) h.0
    | inr n ↦ All-lookup P k v m h.1 (rw (n, lookup) at f)
  ]

  pub lookup-retain :
      (k : K) (p : K → V → Bool) (m : List (K × V))
      → Unique m
      → lookup k (retain p m) ≡ filter_found (p k) (lookup k m)
  unfolding lookup retain
  lookup-retain k p [] h = refl
  lookup-retain k p ((j, v) ∷ m) h = elim (Bool-cases (j == k)) [
    | inr n ↦ elim (Bool-cases (p j v)) [
      | inl t ↦ rw (t, n) (lookup-retain k p m h.1)
      | inr t ↦ rw (t, n) (lookup-retain k p m h.1)
    ]
    | inl y ↦ elim (Bool-cases (p j v)) [
      | inl t ↦ rw (t, y, subst (λ i. p i v ≡ true) ((e.same_iff j k).0 y) t)
      | inr t ↦
          rw (t, y, subst (λ i. p i v ≡ false) ((e.same_iff j k).0 y) t)
            (lookup_absent k (retain p m) (
              subst (λ i. All (λ x. x.0 ≢ i) (retain p m)) ((e.same_iff j k).0 y)
                (retain-All (λ x. x.0 ≢ j) p m h.0)))
    ]
  ]

  pub lookup-erase :
      (j k : K) (m : List (K × V)) → lookup j (erase k m) ≡ (if k == j then none else lookup j m)
  unfolding lookup erase retain
  lookup-erase j k [] = ground arith
  lookup-erase j k ((i, v) ∷ m) =
      ground (arith, e.same_iff i k, e.same_iff i j, e.same_iff k j, lookup-erase j k m)

  pub lookup-insert :
      (j k : K) (v : V) (m : List (K × V))
      → lookup j (insert k v m) ≡ (if k == j then some v else lookup j m)
  unfolding lookup insert
  lookup-insert j k v m = ground (arith, lookup-erase j k m)

  pub erase-Unique : (k : K) (m : List (K × V)) → Unique m → Unique (erase k m)
  unfolding erase
  erase-Unique k m h = retain-Unique _ m h
