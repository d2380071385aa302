-- ===== src/K8s/RestorePoints/Times.antt =====
-- The newest time so far, and the times that come before it.
use kasten_frs_web.Base.{ℕ, ◌≡◌, refl, true, false, Option, none, some, arith}
use kasten_frs_web.K8s.RestorePoints.{is_after, time_after}

pub later_is_later : (c : ℕ) (t : Option ℕ) → is_after c t ≡ true → time_after t (some c) ≡ false
later_is_later c none h = refl
later_is_later c (some t) h = ground arith

pub time_irreflexive : (t : Option ℕ) → time_after t t ≡ false
time_irreflexive none = refl
time_irreflexive (some t) = ground arith

pub after_trans :
    (c : ℕ) (t u : Option ℕ) → is_after c t ≡ false → time_after t u ≡ false → is_after c u ≡ false
after_trans c none u h k = cc
after_trans c (some t) none h k = cc
after_trans c (some t) (some u) h k = ground arith

pub time_trans :
    (s t u : Option ℕ) → time_after s t ≡ false → time_after t u ≡ false → time_after s u ≡ false
time_trans none t u h k = refl
time_trans (some c) t u h k = after_trans c t u h k
