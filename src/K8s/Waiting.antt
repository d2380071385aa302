-- ===== src/K8s/Waiting.antt =====
-- WaitForReady of internal/k8s/frs.go. What the environment does in one round of the loop is given:
-- the API server's answer, the clock at the deadline test, and whether the context is done.
pub mod Verdicts
use kasten_frs_web.Base.{
  ℕ, Bool, Option, none, some, List, [], ◌∷◌, ltb, if◌then◌else◌, Result, ok, err, ◌==◌, str,
  nat_eq, text_eq,
}
use kasten_frs_web.K8s.{FrsRef, ObjectApi, FrsView, empty_view}
use kasten_frs_web.K8s.Frs.{FrsError, get_frs}

pub data WaitError : Type 0 where
  reached_failed not_in_time cancelled : WaitError

pub record WaitResult : Type 0 where
  pub view : FrsView
  pub error : Option WaitError

pub record Round (O : Type 0) : Type 0 where
  pub answer : Option O
  pub now : ℕ
  pub done : Bool

abbrev pub view_or_empty : Result FrsError FrsView → FrsView
view_or_empty (ok v) = v
view_or_empty (err e) = empty_view

-- The switch on the state, which is reached only if GetFRS succeeded.
abbrev pub settled : Result FrsError FrsView → Option WaitResult
settled (err e) = none
settled (ok v) =
    if v.state == str "Ready"
    then some (record { view = v; error = none })
    else if v.state == str "Failed"
    then some (record { view = v; error = some reached_failed })
    else none

abbrev pub or_else : Option WaitResult → Option WaitResult → Option WaitResult
or_else none b = b
or_else (some a) b = some a

-- The rest of a round: `none` is the sleep of 500 ms.
abbrev pub given_up : {O : Type 0} → ℕ → Round O → FrsView → Option WaitResult
given_up deadline r v =
    if ltb deadline r.now
    then some (record { view = v; error = some not_in_time })
    else if r.done
    then some (record { view = v; error = some cancelled })
    else none

module _ {O : Type 0} (api : ObjectApi O) where
  unfoldable pub round : FrsRef → ℕ → Round O → Option WaitResult
  round ref deadline r =
      or_else (settled (get_frs api ref r.answer))
        (given_up deadline r (view_or_empty (get_frs api ref r.answer)))

  -- `none`: still polling when the rounds are used up.
  unfoldable pub wait_for_ready : FrsRef → ℕ → List (Round O) → Option WaitResult
  wait_for_ready ref deadline [] = none
  wait_for_ready ref deadline (r ∷ rs) =
      or_else (round ref deadline r) (wait_for_ready ref deadline rs)
