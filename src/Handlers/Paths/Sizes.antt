-- ===== src/Handlers/Paths/Sizes.antt =====
-- The unit that humanSize chooses.
use kasten_frs_web.Base.{
  ℕ, zero, suc, ◌+◌, ◌*◌, ◌^◌, ◌≤◌, ◌<◌, ◌≡◌, refl, subst, ◌⊎◌, inl, inr, Option, some, ◌∷◌, ◌++◌,
  arith, ltb, Bool-cases, Str, str, length, get_elem?,
}
use kasten_frs_web.Base.Int.{ℤ, pos, negsuc, pos_part}
use kasten_frs_web.Handlers.Paths.{Scale, scale, units, unit_at, human_size_of, human_size}
use kasten_frs_web.K8s.RestorePoints.{known}
use kasten_frs_web.Std.Strconv.{format_int}

abbrev Fits : ℕ → Scale → Type 0
Fits n s =
    (s.exponent < length units)
    × (s.div ≡ 1024 ^ (s.exponent + 1))
    × (s.div ≤ n)
    × (n < 1024 * s.div)

scale-Fits : (n : ℕ) → 1024 ≤ n → n < 2 ^ 63 → Fits n (scale 5 n 1024 0)
unfolding scale
scale-Fits n low high = ground arith

unit_found : (i : ℕ) → i < length units → (u : Str) × (unit_at i ≡ some u)
unit_found zero h = (_, refl)
unit_found (suc zero) h = (_, refl)
unit_found (suc (suc zero)) h = (_, refl)
unit_found (suc (suc (suc zero))) h = (_, refl)
unit_found (suc (suc (suc (suc zero)))) h = (_, refl)
unit_found (suc (suc (suc (suc (suc zero))))) h = (_, refl)
unit_found (suc (suc (suc (suc (suc (suc i)))))) h = absurd (omega arith)

-- The text of a size in a unit in which it is at least 1 and less than 1024, or in bytes.
pub IsSizeText : (ℕ → ℕ → Str) → ℕ → Option Str → Type 0
IsSizeText quotient n text =
    ((n < 1024) × (text ≡ some (format_int (pos n) ++ str " B")))
    ⊎ ((i : ℕ) × (unit : Str) × (get_elem? units i ≡ some unit)
        × (text ≡ some (quotient n (1024 ^ (i + 1)) ++ (32 ∷ unit)))
        × (1024 ^ (i + 1) ≤ n)
        × (n < 1024 * 1024 ^ (i + 1)))

human_size_of-IsSizeText :
    (quotient : ℕ → ℕ → Str) (n : ℕ) → n < 2 ^ 63 → IsSizeText quotient n (human_size_of quotient n)
unfolding IsSizeText human_size_of
human_size_of-IsSizeText quotient n high = elim (Bool-cases (ltb n 1024)) [
  | inl small ↦ rw small (inl (ground arith, refl))
  | inr large ↦
      let (known, power, low, bound) = scale-Fits n (ground arith) high in
      let (unit, found) = unit_found (scale 5 n 1024 0).exponent known in
      rw (large, found)
        (inr (
          (scale 5 n 1024 0).exponent,
          unit,
          found,
          rw power refl,
          subst (λ d. d ≤ n) power low,
          subst (λ d. n < 1024 * d) power bound,
        ))
]

-- humanSize does not panic for any int64, and prints a size in bytes below 1024, and else as its
-- quotient by a power of 1024, with the unit of that power, in which it is at least 1 and below 1024;
-- a negative size is printed as 0.
pub human_size-IsSizeText :
    (quotient : ℕ → ℕ → Str) (z : ℤ)
    → pos_part z < 2 ^ 63
    → IsSizeText quotient (pos_part z) (human_size quotient z)
unfolding human_size
human_size-IsSizeText quotient (pos n) h = human_size_of-IsSizeText quotient n h
human_size-IsSizeText quotient (negsuc n) h = human_size_of-IsSizeText quotient 0 h
