-- ===== src/K8s/Sorting.antt =====
-- sort.Slice by an order on elements. Which of two equal elements comes first is left open by Go;
-- here it is the earlier one, and no theorem rests on that.
use mathlib.Core.List.Perm
use mathlib.Core.List.{Perm}
use kasten_frs_web.Base.{
  ◌≡◌, inl, inr, Bool, true, false, List, [], ◌∷◌, if◌then◌else◌, Bool-cases, All, All-map,
}

module _ {ℓ} {A : Type ℓ} (before : A → A → Bool) where
  unfoldable pub insert_sorted : A → List A → List A
  insert_sorted a [] = a ∷ []
  insert_sorted a (b ∷ bs) =
      let rest = insert_sorted a bs in if before b a then b ∷ rest else a ∷ b ∷ bs

  unfoldable pub sort_slice : List A → List A
  unfolding insert_sorted
  sort_slice [] = []
  sort_slice (a ∷ as') = insert_sorted a (sort_slice as')

  insert_sorted-perm : (a : A) (bs : List A) → Perm (insert_sorted a bs) (a ∷ bs)
  unfolding insert_sorted
  insert_sorted-perm a [] = Perm.refl _
  insert_sorted-perm a (b ∷ bs) = elim (Bool-cases (before b a)) [
    | inl e ↦ rw e (Perm.trans (Perm.cons b (insert_sorted-perm a bs)) (Perm.swap a b bs))
    | inr e ↦ rw e (Perm.refl _)
  ]

  -- Nothing is lost, added or doubled.
  pub sort_slice-perm : (xs : List A) → Perm (sort_slice xs) xs
  unfolding sort_slice
  sort_slice-perm [] = Perm.refl _
  sort_slice-perm (x ∷ xs) =
      Perm.trans (insert_sorted-perm x (sort_slice xs)) (Perm.cons x (sort_slice-perm xs))

  -- Each element may stand before all that follow: none of them has to come first.
  abbrev pub IsSorted : List A → Type ℓ
  IsSorted [] = Unit
  IsSorted (x ∷ xs) = All (λ y. before y x ≡ false) xs × IsSorted xs

  insert_sorted-All :
      (P : A → Type 0) (a : A) (bs : List A) → P a → All P bs → All P (insert_sorted a bs)
  unfolding insert_sorted
  insert_sorted-All P a [] h k = (h, tt)
  insert_sorted-All P a (b ∷ bs) h k = elim (Bool-cases (before b a)) [
    | inl e ↦ rw e (k.0, insert_sorted-All P a bs h k.1)
    | inr e ↦ rw e (h, k)
  ]

  -- A strict weak order: what does not come first stays so through a third, and no two come each
  -- before the other.
  module _ (asym : (a b : A) → before a b ≡ true → before b a ≡ false)
      (negatively_transitive : (a b c : A)
        → before a b ≡ false
        → before b c ≡ false
        → before a c ≡ false) where
    insert_sorted-IsSorted : (a : A) (bs : List A) → IsSorted bs → IsSorted (insert_sorted a bs)
    unfolding insert_sorted
    insert_sorted-IsSorted a [] h = (tt, tt)
    insert_sorted-IsSorted a (b ∷ bs) h = elim (Bool-cases (before b a)) [
      | inl e ↦ rw e (
        insert_sorted-All (λ y. before y b ≡ false) a bs (asym b a e) h.0,
        insert_sorted-IsSorted a bs h.1,
      )
      | inr e ↦ rw e ((e, All-map (λ c k. negatively_transitive c b a k e) bs h.0), h)
    ]

    pub sort_slice-IsSorted : (xs : List A) → IsSorted (sort_slice xs)
    unfolding sort_slice
    sort_slice-IsSorted [] = tt
    sort_slice-IsSorted (x ∷ xs) = insert_sorted-IsSorted x (sort_slice xs) (sort_slice-IsSorted xs)

-- Each element stands in a relation to all that follow.
abbrev pub Ordered {ℓ} : {A : Type ℓ} → (A → A → Type 0) → List A → Type ℓ
Ordered R [] = Unit
Ordered R (x ∷ xs) = All (R x) xs × Ordered R xs

pub IsSorted-Ordered {ℓ} :
    {A : Type ℓ} (before : A → A → Bool) (R : A → A → Type 0)
    → ((a b : A) → before b a ≡ false → R a b)
    → (xs : List A) → IsSorted before xs
    → Ordered R xs
IsSorted-Ordered before R f [] h = tt
IsSorted-Ordered before R f (x ∷ xs) h = (All-map (f x) xs h.0, IsSorted-Ordered before R f xs h.1)
