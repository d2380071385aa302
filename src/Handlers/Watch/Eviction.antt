-- ===== src/Handlers/Watch/Eviction.antt =====
-- What the sweeper of the watch map evicts, and what it leaves.
use kasten_frs_web.Base.{
  ℕ, ◌+◌, ◌≡◌, refl, inl, inr, false, not, none, some, [], ◌∷◌, arith, if◌then◌else◌, Bool-cases,
  ◌==◌, length, filter_found, retain, Unique, lookup-retain, lookup-erase, lookup-insert, ap, ◌∙◌,
  Bool, true, ◌&&◌, Option, ◌≤◌, ◌↔◌, ◌⊎◌, sym, subst, some, some_eq, ltb, All, List, all,
  retain-Unique,
}
use kasten_frs_web.Base.Int.{ℤ, pos, negsuc, ◌<ℤ◌, ltb_ℤ}
use kasten_frs_web.Handlers.Watch.{
  WatchState, Watches, watch_get, stamped, watch_set, watch_del, is_older, is_stale, watch_sweep,
  minute, sweeper_interval, sweeper_max_age, run_sweeper,
}
use kasten_frs_web.K8s.{ref_eq, FrsRef}

-- After a sweep of a watch map with one entry for an FRS, an FRS has the entry that it had, if
-- that entry is no older than the maximum, and none otherwise.
pub watch_sweep_get :
    (max_age : ℤ) (now : ℕ) (ref : FrsRef) (m : Watches)
    → Unique m
    → watch_get ref (watch_sweep max_age now m).1
      ≡ filter_found (λ s. not (is_stale max_age now s)) (watch_get ref m)
unfolding watch_get watch_sweep
watch_sweep_get max_age now ref m h = lookup-retain ref _ m h

-- The number that a sweep returns, and the entries that it leaves, make up the entries that there
-- were.
pub watch_sweep_counts :
    (max_age : ℤ) (now : ℕ) (m : Watches)
    → (watch_sweep max_age now m).0 + length (watch_sweep max_age now m).1 ≡ length m
unfolding watch_sweep retain
watch_sweep_counts max_age now [] = refl
watch_sweep_counts max_age now ((ref, s) ∷ m) =
    let ih = watch_sweep_counts max_age now m in
    elim (Bool-cases (is_stale max_age now s)) [
      | inl t ↦ rw t (omega arith)
      | inr f ↦ rw f (omega arith)
    ]

-- The sweeper never runs more often than once a minute, and never evicts what is younger than a
-- minute, whatever it is configured to.
pub sweeper_bounds :
    (interval max_age : ℤ)
    → (ltb_ℤ (sweeper_interval interval) minute ≡ false)
      × (ltb_ℤ (sweeper_max_age max_age) minute ≡ false)
unfolding sweeper_interval sweeper_max_age
sweeper_bounds interval max_age = (
  elim (Bool-cases (ltb_ℤ interval minute)) [ inl t ↦ rw t refl | inr f ↦ rw f f ],
  elim (Bool-cases (ltb_ℤ max_age minute)) [ inl t ↦ rw t refl | inr f ↦ rw f f ],
)

pub watch_get-set :
    (j ref : FrsRef) (s : WatchState) (now : ℕ) (m : Watches)
    → watch_get j (watch_set ref s now m)
      ≡ (if ref == j then some (stamped now s) else watch_get j m)
unfolding watch_get watch_set
watch_get-set j ref s now m = lookup-insert j ref (stamped now s) m

pub watch_get-del :
    (j ref : FrsRef) (m : Watches)
    → watch_get j (watch_del ref m) ≡ (if ref == j then none else watch_get j m)
unfolding watch_get watch_del
watch_get-del j ref m = lookup-erase j ref m

filter_both :
    (p q : WatchState → Bool) (o : Option WatchState)
    → filter_found p (filter_found q o) ≡ filter_found (λ s. q s && p s) o
filter_both p q none = refl
filter_both p q (some s) = elim (Bool-cases (q s)) [ inl y ↦ rw y refl | inr n ↦ rw n refl ]

watch_sweep-Unique :
    (max_age : ℤ) (now : ℕ) (m : Watches) → Unique m → Unique (watch_sweep max_age now m).1
unfolding watch_sweep
watch_sweep-Unique max_age now m h = retain-Unique _ m h

filter_all : (o : Option WatchState) → o ≡ filter_found (λ s. true) o
filter_all none = refl
filter_all (some s) = refl

-- The rounds of the sweeper filter what a lookup finds.
run_sweeper_filter :
    (max_age : ℤ) (ticks : List ℕ) (ref : FrsRef) (m : Watches)
    → Unique m
    → watch_get ref (run_sweeper max_age ticks m)
      ≡ filter_found
          (λ s. all (λ tick. not (is_stale (sweeper_max_age max_age) tick s)) ticks)
          (watch_get ref m)
unfolding run_sweeper all
run_sweeper_filter max_age [] ref m h = filter_all (watch_get ref m)
run_sweeper_filter max_age (tick ∷ ticks) ref m h =
    run_sweeper_filter max_age ticks ref (watch_sweep (sweeper_max_age max_age) tick m).1
      (watch_sweep-Unique (sweeper_max_age max_age) tick m h)
    ∙ ap (filter_found _) (watch_sweep_get (sweeper_max_age max_age) tick ref m h)
    ∙ filter_both _ _ (watch_get ref m)

-- The age in nanoseconds that an entry may have: as configured, or an hour where less than a minute
-- is configured.
abbrev pub IsLimit : ℤ → ℕ → Type 0
IsLimit max_age limit =
    ((max_age <ℤ pos 60000000000) × (limit ≡ 3600000000000))
    ⊎ ((60000000000 ≤ limit) × (max_age ≡ pos limit))

-- An entry that was stored at a known time and is no older than the limit at every tick.
abbrev pub StaysFresh : ℕ → List ℕ → WatchState → Type 0
StaysFresh limit ticks s =
    All (λ tick. (t : ℕ) × (s.created_at ≡ some t) × (tick ≤ t + limit)) ticks

clamped :
    (max_age : ℤ) → (limit : ℕ) × IsLimit max_age limit × (sweeper_max_age max_age ≡ pos limit)
unfolding sweeper_max_age
clamped (negsuc n) = (3600000000000, inl (omega arith, refl), ground arith)
clamped (pos n) = elim (Bool-cases (ltb n 60000000000)) [
  | inl y ↦ (3600000000000, inl (ground (arith, y), refl), ground (arith, y))
  | inr f ↦ (n, inr (ground (arith, f), refl), ground (arith, f))
]

older_iff :
    (limit now : ℕ) (o : Option ℕ)
    → (is_older (pos limit) now o ≡ false) ↔ ((t : ℕ) × (o ≡ some t) × (now ≤ t + limit))
older_iff limit now none = (λ h. cc, λ h. cc h.1)
older_iff limit now (some t) =
    (λ h. (t, refl, ground (arith, h)), λ (u, e, l). ground (arith, some_eq e, l))

all_fresh_iff :
    (limit : ℕ) (s : WatchState) (ticks : List ℕ)
    → (all (λ tick. not (is_stale (pos limit) tick s)) ticks ≡ true) ↔ StaysFresh limit ticks s
unfolding all is_stale
all_fresh_iff limit s [] = (λ h. tt, λ h. refl)
all_fresh_iff limit s (tick ∷ ticks) = elim (Bool-cases (is_older (pos limit) tick s.created_at)) [
  | inl y ↦ rw y (λ h. cc, λ h. cc (y, (older_iff limit tick s.created_at).1 h.0))
  | inr f ↦ rw f (
    λ h. ((older_iff limit tick s.created_at).0 f, (all_fresh_iff limit s ticks).0 h),
    λ h. (all_fresh_iff limit s ticks).1 h.1,
  )
]

filter_found_iff :
    (p : WatchState → Bool) (o : Option WatchState) (s : WatchState)
    → (filter_found p o ≡ some s) ↔ ((o ≡ some s) × (p s ≡ true))
filter_found_iff p none s = (λ h. cc, λ h. cc)
filter_found_iff p (some t) s = elim (Bool-cases (p t)) [
  | inl y ↦ rw y (λ e. (e, subst (λ x. p x ≡ true) (some_eq e) y), λ h. h.0)
  | inr f ↦ rw f (λ h. cc, λ h. cc (f, subst (λ x. p x ≡ true) (sym (some_eq h.0)) h.1))
]

-- After any rounds of the sweeper, over a watch map with one entry for an FRS, the map has an entry
-- for an FRS exactly if it had that entry and, at every round, the entry was no older than the
-- maximum, which is an hour where less than a minute is configured; an entry without a time is gone
-- after the first round.
pub run_sweeper_get :
    (max_age : ℤ) (ticks : List ℕ) (ref : FrsRef) (m : Watches) (s : WatchState)
    → Unique m
    → (limit : ℕ) × IsLimit max_age limit
      × ((watch_get ref (run_sweeper max_age ticks m) ≡ some s)
          ↔ ((watch_get ref m ≡ some s) × StaysFresh limit ticks s))
run_sweeper_get max_age ticks ref m s h =
    let (limit, is_limit, e) = clamped max_age in
    let fresh = filter_found_iff _ (watch_get ref m) s in
    (
      limit,
      is_limit,
      (
        λ found.
            let (had, passed) = fresh.0 (sym (run_sweeper_filter max_age ticks ref m h) ∙ found) in
            (had, (all_fresh_iff limit s ticks).0 (subst (Passes s) e passed)),
        λ (had, stays).
            run_sweeper_filter max_age ticks ref m h
            ∙ fresh.1 (had, subst (Passes s) (sym e) ((all_fresh_iff limit s ticks).1 stays)),
      ),
    )
  where
    Passes : WatchState → ℤ → Type 0
    Passes t max = all (λ tick. not (is_stale max tick t)) ticks ≡ true
