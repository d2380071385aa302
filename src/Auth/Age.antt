-- ===== src/Auth/Age.antt =====
-- How long a session cookie is good.
use kasten_frs_web.Base.{ℕ, ◌+◌, ◌*◌, ◌≤◌, ◌≡◌, refl, ◌⊎◌, inl, inr, false, ◌↔◌, arith}
use kasten_frs_web.Auth.{is_past, seconds_to_ns}
use kasten_frs_web.Base.Int.{ℤ, pos, negsuc, pos_part, neg_part, ◌+ℤ◌, ◌≤ℤ◌}

-- A cookie that was issued at that second is good at that nanosecond: the ttl is not positive, or
-- the ttl is not over.
abbrev pub IsLive : ℤ → ℤ → ℕ → Type 0
IsLive ttl issued now =
    (ttl ≤ℤ pos 0)
    ⊎ (now + neg_part issued * 1000000000 + neg_part ttl
        ≤ pos_part issued * 1000000000 + pos_part ttl)

seconds_parts :
    (t : ℤ)
    → (pos_part (seconds_to_ns t) ≡ pos_part t * 1000000000)
      × (neg_part (seconds_to_ns t) ≡ neg_part t * 1000000000)
seconds_parts (pos n) = (refl, refl)
seconds_parts (negsuc n) = (refl, omega arith)

pub is_past_iff :
    (ttl issued : ℤ) (now : ℕ) → (is_past ttl issued now ≡ false) ↔ IsLive ttl issued now
unfolding is_past ◌+ℤ◌
is_past_iff ttl issued now =
    (λ h. ground (arith, seconds_parts issued, h), λ h. ground (arith, seconds_parts issued, h))

pub IsLive-earlier :
    (ttl issued : ℤ) (earlier later : ℕ)
    → earlier ≤ later
    → IsLive ttl issued later
    → IsLive ttl issued earlier
IsLive-earlier ttl issued earlier later h (inl p) = inl p
IsLive-earlier ttl issued earlier later h (inr p) = inr (omega arith)

pub IsLive-issued :
    (ttl : ℤ) (seconds now : ℕ)
    → IsLive ttl (pos seconds) now
      ↔ ((ttl ≤ℤ pos 0) ⊎ (now + neg_part ttl ≤ seconds * 1000000000 + pos_part ttl))
IsLive-issued ttl seconds now = (
  λ h. elim h [ inl p ↦ inl p | inr p ↦ inr (omega (arith, p)) ],
  λ h. elim h [ inl p ↦ inl p | inr p ↦ inr (omega (arith, p)) ],
)
