-- ===== src/Handlers/Watch.antt =====
-- The watch map of internal/handlers/wizard.go: what is known of the FRSes that the wizard created.
-- Times are in nanoseconds; `none` is the zero time, which every sweep takes for too old.
pub mod Eviction
use kasten_frs_web.Base.{
  ℕ, ◌+◌, Bool, true, not, Option, none, some, List, [], ◌∷◌, if◌then◌else◌, ◌==◌, Str, str, length,
  retain, lookup, erase, insert, nat_eq, text_eq,
}
use kasten_frs_web.Base.Int.{ℤ, pos, pos_part, neg_part, sub_ℕ, ltb_ℤ}
use kasten_frs_web.K8s.{ref_eq, FrsRef, FrsView}

-- watchState.
pub record WatchState : Type 0 where
  pub state : Str
  pub view : FrsView
  pub error : Option Str
  pub done : Bool
  pub created_at : Option ℕ

abbrev pub Watches : Type 0
Watches = List (FrsRef × WatchState)

unfoldable pub watch_get : FrsRef → Watches → Option WatchState
watch_get ref m = lookup ref m

-- The entry that set stores.
abbrev pub stamped : ℕ → WatchState → WatchState
stamped now s = record s { created_at = elim s.created_at [ none ↦ some now | some t ↦ some t ] }

pub watch_set : FrsRef → WatchState → ℕ → Watches → Watches
watch_set ref s now m = insert ref (stamped now s) m

pub watch_del : FrsRef → Watches → Watches
watch_del ref m = erase ref m

-- now.Sub(st.createdAt) > maxAge
abbrev pub is_older : ℤ → ℕ → Option ℕ → Bool
is_older max_age now none = true
is_older max_age now (some t) = ltb_ℤ max_age (sub_ℕ now t)

unfoldable pub is_stale : ℤ → ℕ → WatchState → Bool
is_stale max_age now s = is_older max_age now s.created_at

-- sweep, with the number of entries that it evicts.
pub watch_sweep : ℤ → ℕ → Watches → ℕ × Watches
watch_sweep max_age now m = (
  length (retain (λ ref s. is_stale max_age now s) m),
  retain (λ ref s. not (is_stale max_age now s)) m,
)

abbrev pub minute : ℤ
minute = pos 60000000000

abbrev pub hour : ℤ
hour = pos 3600000000000

-- How startSweeper clamps its arguments.
unfoldable pub sweeper_interval : ℤ → ℤ
sweeper_interval interval = if ltb_ℤ interval minute then minute else interval

unfoldable pub sweeper_max_age : ℤ → ℤ
sweeper_max_age max_age = if ltb_ℤ max_age minute then hour else max_age

-- The goroutine's rounds, one for each tick of its ticker until the context is done.
unfoldable pub run_sweeper : ℤ → List ℕ → Watches → Watches
run_sweeper max_age [] m = m
run_sweeper max_age (tick ∷ ticks) m =
    run_sweeper max_age ticks (watch_sweep (sweeper_max_age max_age) tick m).1

-- watchFRSCreated's timeout.
unfoldable pub wait_timeout : ℤ → ℤ
wait_timeout configured =
    if pos_part configured + neg_part configured == 0 then pos 120000000000 else configured

-- The state that watchFRSCreatedWithTimeout stores once WaitForReady has returned.
unfoldable pub watch_outcome : FrsView → Option Str → WatchState
watch_outcome v none = record {
  state = str "Ready";
  view = v;
  error = none;
  done = true;
  created_at = none;
}
watch_outcome v (some e) = record {
  state = if v.state == str "Failed" then str "Failed" else str "Timeout";
  view = v;
  error = some e;
  done = true;
  created_at = none;
}

unfoldable pub watch_finished : FrsRef → FrsView → Option Str → ℕ → Watches → Watches
watch_finished ref v e now m = watch_set ref (watch_outcome v e) now m
