-- ===== src/Std/Strings/Splitting.antt =====
-- Splitting and joining are inverse.
use kasten_frs_web.Base.{
  ℕ, ◌≡◌, refl, ap, ◌∙◌, ◌≢◌, inl, inr, List, [], ◌∷◌, ◌++◌, arith, Str, ◌==◌, nat_eq, nat_beq_iff,
  Bool-cases, All, eq_refl, eq_ne, some, Option, none, ne_of_eq_false,
}
use kasten_frs_web.Std.Strings.{split, split_step, extend_head, join, split_once, extend_first}

-- The text does not hold the byte.
abbrev pub Lacks : ℕ → Str → Type 0
Lacks c [] = Unit
Lacks c (x ∷ xs) = (x ≢ c) × Lacks c xs

abbrev pub IsCons {ℓ} : {A : Type ℓ} → List A → Type 0
IsCons [] = ⊥
IsCons (x ∷ xs) = Unit

extend_head-Lacks :
    (sep x : ℕ) (ws : List Str) → x ≢ sep → All (Lacks sep) ws → All (Lacks sep) (extend_head x ws)
extend_head-Lacks sep x [] h k = ((h, tt), tt)
extend_head-Lacks sep x (w ∷ ws) h k = ((h, k.0), k.1)

split_step-IsCons : (x sep : ℕ) (ws : List Str) → IsCons (split_step (x == sep) x ws)
split_step-IsCons x sep ws = elim (Bool-cases (x == sep)) [
  | inl e ↦ rw e tt
  | inr e ↦ rw e (extended ws)
]
  where
    extended : (vs : List Str) → IsCons (extend_head x vs)
    extended [] = tt
    extended (v ∷ vs) = tt

pub split-IsCons : (sep : ℕ) (s : Str) → IsCons (split sep s)
unfolding split
split-IsCons sep [] = tt
split-IsCons sep (x ∷ xs) = split_step-IsCons x sep (split sep xs)

-- No part holds the separator.
pub split-Lacks : (sep : ℕ) (s : Str) → All (Lacks sep) (split sep s)
unfolding split
split-Lacks sep [] = (tt, tt)
split-Lacks sep (x ∷ xs) = elim (Bool-cases (x == sep)) [
  | inl e ↦ rw e (tt, split-Lacks sep xs)
  | inr e ↦ rw e (
      extend_head-Lacks sep x (split sep xs) (λ q. ground (arith, (nat_beq_iff x sep).1 q))
        (split-Lacks sep xs))
]

join_step :
    (sep x : ℕ) (ws : List Str)
    → IsCons ws
    → join sep (split_step (x == sep) x ws) ≡ x ∷ join sep ws
unfolding join
join_step sep x [] h = elim h [ ]
join_step sep x (w ∷ ws) h = elim (Bool-cases (x == sep)) [
  | inl e ↦ rw (e, (nat_beq_iff x sep).0 e)
  | inr e ↦ rw e (extended ws)
]
  where
    extended : (vs : List Str) → join sep ((x ∷ w) ∷ vs) ≡ x ∷ join sep (w ∷ vs)
    extended [] = refl
    extended (v ∷ vs) = refl

pub join-split : (sep : ℕ) (s : Str) → join sep (split sep s) ≡ s
unfolding split
join-split sep [] = joined
  where
    joined : join sep ([] ∷ []) ≡ []
    joined = unfold join in refl
join-split sep (x ∷ xs) =
    join_step sep x (split sep xs) (split-IsCons sep xs) ∙ ap (◌∷◌ x) (join-split sep xs)

split_of_Lacks : (sep : ℕ) (w : Str) → Lacks sep w → split sep w ≡ w ∷ []
unfolding split
split_of_Lacks sep [] h = refl
split_of_Lacks sep (x ∷ w) h = rw (split_of_Lacks sep w h.1, eq_ne x sep h.0)

split-append : (sep : ℕ) (w s : Str) → Lacks sep w → split sep (w ++ (sep ∷ s)) ≡ w ∷ split sep s
unfolding split
split-append sep [] s h = rw (eq_refl sep)
split-append sep (x ∷ w) s h = rw (split-append sep w s h.1, eq_ne x sep h.0)

pub split-join :
    (sep : ℕ) (ws : List Str) → IsCons ws → All (Lacks sep) ws → split sep (join sep ws) ≡ ws
unfolding join
split-join sep [] c h = elim c [ ]
split-join sep (w ∷ []) c h = split_of_Lacks sep w h.0
split-join sep (w ∷ v ∷ ws) c h =
    split-append sep w _ h.0 ∙ ap (◌∷◌ w) (split-join sep (v ∷ ws) tt h.1)

-- What a cut at the first separator gives: the two sides, or the news that there is none.
abbrev pub Cut : ℕ → Str → Option (Str × Str) → Type 0
Cut sep s none = Lacks sep s
Cut sep s (some (a, b)) = (s ≡ a ++ (sep ∷ b)) × Lacks sep a

Cut-extend_first :
    (sep x : ℕ) (xs : Str) (r : Option (Str × Str))
    → x ≢ sep
    → Cut sep xs r
    → Cut sep (x ∷ xs) (extend_first x r)
Cut-extend_first sep x xs none h c = (h, c)
Cut-extend_first sep x xs (some (a, b)) h (e, l) = (ap (◌∷◌ x) e, (h, l))

pub split_once-Cut : (sep : ℕ) (s : Str) → Cut sep s (split_once sep s)
unfolding split_once
split_once-Cut sep [] = tt
split_once-Cut sep (x ∷ xs) = elim (Bool-cases (x == sep)) [
  | inl e ↦ rw e (rw ((nat_beq_iff x sep).0 e) (refl, tt))
  | inr e ↦ rw e (
      Cut-extend_first sep x xs (split_once sep xs) (ne_of_eq_false x sep e)
        (split_once-Cut sep xs))
]

pub split_once-append :
    (sep : ℕ) (a b : Str) → Lacks sep a → split_once sep (a ++ (sep ∷ b)) ≡ some (a, b)
unfolding split_once
split_once-append sep [] b h = rw (eq_refl sep)
split_once-append sep (x ∷ a) b h = rw (split_once-append sep a b h.1, eq_ne x sep h.0)
