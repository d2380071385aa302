-- ===== src/K8s/Waiting/Verdicts.antt =====
-- How a wait can end.
use kasten_frs_web.Base.{
  ℕ, ◌<◌, ◌≡◌, ◌⊎◌, inl, inr, true, false, Option, none, some, List, [], ◌∷◌, ◌++◌, arith, Result,
  ok, err, text_beq_iff, str, All, refl, lt→ltb,
}
use kasten_frs_web.K8s.{FrsRef, ObjectApi, FrsView, empty_view}
use kasten_frs_web.K8s.Frs.{
  FrsError, is_published, view_of, not_connectable, build_frs_view, get_frs,
}
use kasten_frs_web.K8s.Frs.Views.{get_frs_iff}
use kasten_frs_web.K8s.Waiting.{
  not_in_time, cancelled, WaitResult, Round, settled, given_up, or_else, round, wait_for_ready,
  view_or_empty,
}

or_else_cases :
    (a b : Option WaitResult) {r : WaitResult} → or_else a b ≡ some r → (a ≡ some r) ⊎ (b ≡ some r)
or_else_cases none b h = inr h
or_else_cases (some a) b h = inl h

settled-ready :
    (o : Result FrsError FrsView) (r : WaitResult)
    → settled o ≡ some r
    → r.error ≡ none
    → (o ≡ ok r.view) × (r.view.state ≡ str "Ready")
settled-ready (err e) r h k = cc
settled-ready (ok v) r h k = ground (arith, text_beq_iff v.state (str "Ready"))

given_up-error :
    {O : Type 0} (deadline : ℕ) (rd : Round O) (v : FrsView) (r : WaitResult)
    → given_up deadline rd v ≡ some r
    → (r.error ≡ some not_in_time) ⊎ (r.error ≡ some cancelled)
given_up-error deadline rd v r h = ground arith

module _ {O : Type 0} (api : ObjectApi O) where
  get_frs-view :
      (ref : FrsRef) (answer : Option O) (v : FrsView)
      → get_frs api ref answer ≡ ok v
      → (item : O) × (v ≡ view_of api item) × (v.connectable ≡ true)
  get_frs-view ref answer v h =
      let (item, a, e, published) = (get_frs_iff api ref answer v).0 h in (item, e, published)

  -- A wait that ends without an error ends with the view of an object of the API server's that is
  -- in state Ready and can be connected to.
  pub wait_for_ready-ready :
      (ref : FrsRef) (deadline : ℕ) (rs : List (Round O)) (r : WaitResult)
      → wait_for_ready api ref deadline rs ≡ some r
      → r.error ≡ none
      → (item : O) × (r.view ≡ view_of api item)
        × (r.view.connectable ≡ true)
        × (r.view.state ≡ str "Ready")
  unfolding wait_for_ready round
  wait_for_ready-ready ref deadline [] r h k = cc
  wait_for_ready-ready ref deadline (rd ∷ rs) r h k =
      elim (or_else_cases (round api ref deadline rd) (wait_for_ready api ref deadline rs) h) [
        | inr later ↦ wait_for_ready-ready ref deadline rs r later k
        | inl now ↦
            elim (or_else_cases (settled (get_frs api ref rd.answer))
              (given_up deadline rd (view_or_empty (get_frs api ref rd.answer))) now) [
                | inl s ↦
                    let (got, ready) = settled-ready (get_frs api ref rd.answer) r s k in
                    let (item, e, c) = get_frs-view ref rd.answer r.view got in (item, e, c, ready)
                | inr g ↦
                    elim (given_up-error deadline rd (view_or_empty (get_frs api ref rd.answer)) r
                      g) [ inl e ↦ cc (e, k) | inr e ↦ cc (e, k) ]
              ]
      ]

  or_else-later :
      (a b : Option WaitResult)
      → ((r : WaitResult) × (b ≡ some r))
      → (r : WaitResult) × (or_else a b ≡ some r)
  or_else-later none b h = h
  or_else-later (some a) b h = (a, refl)

  or_else-first :
      (a b : Option WaitResult)
      → ((r : WaitResult) × (a ≡ some r))
      → (r : WaitResult) × (or_else a b ≡ some r)
  or_else-first none b h = cc h.1
  or_else-first (some a) b h = (a, refl)

  -- The polling ends: as soon as a round comes after the deadline, there is a result.
  pub wait_for_ready_ends :
      (ref : FrsRef) (deadline : ℕ) (before after : List (Round O)) (late : Round O)
      → deadline < late.now
      → (r : WaitResult) × (wait_for_ready api ref deadline (before ++ (late ∷ after)) ≡ some r)
  unfolding wait_for_ready round
  wait_for_ready_ends ref deadline [] after late h = or_else-first _ _ (
      or_else-later (settled (get_frs api ref late.answer)) _ (
        record { view = view_or_empty (get_frs api ref late.answer); error = some not_in_time },
        rw (lt→ltb deadline late.now h),
      ))
  wait_for_ready_ends ref deadline (rd ∷ before) after late h =
      or_else-later _ _ (wait_for_ready_ends ref deadline before after late h)

  abbrev pub IsUnpublished : Round O → Type 0
  IsUnpublished rd = (item : O) × (rd.answer ≡ some item) × (is_published api item ≡ false)

  unpublished-get_frs :
      (ref : FrsRef) (rd : Round O)
      → IsUnpublished rd
      → get_frs api ref rd.answer ≡ err (not_connectable ref)
  unfolding get_frs build_frs_view
  unpublished-get_frs ref rd (item, a, u) = rw (a, u)

  given_up-view :
      (deadline : ℕ) (rd : Round O) (v : FrsView) (r : WaitResult)
      → given_up deadline rd v ≡ some r
      → r.view ≡ v
  given_up-view deadline rd v r h = ground arith

  gone :
      (ref : FrsRef) (deadline : ℕ) (rd : Round O) (r : WaitResult)
      → IsUnpublished rd
      → round api ref deadline rd ≡ some r
      → given_up deadline rd empty_view ≡ some r
  unfolding round
  gone ref deadline rd r u h = rw (unpublished-get_frs ref rd u) at h

  -- An FRS whose service coordinates are not published, whatever its state is, Failed included: a
  -- wait for it that ends reports that the time or the context is over, never that it failed, and
  -- returns the empty view.
  pub wait_for_ready-unpublished :
      (ref : FrsRef) (deadline : ℕ) (rs : List (Round O)) (r : WaitResult)
      → All IsUnpublished rs
      → wait_for_ready api ref deadline rs ≡ some r
      → (r.view ≡ empty_view) × ((r.error ≡ some not_in_time) ⊎ (r.error ≡ some cancelled))
  unfolding wait_for_ready
  wait_for_ready-unpublished ref deadline [] r u h = cc
  wait_for_ready-unpublished ref deadline (rd ∷ rs) r u h =
      elim (or_else_cases (round api ref deadline rd) (wait_for_ready api ref deadline rs) h) [
        | inr later ↦ wait_for_ready-unpublished ref deadline rs r u.1 later
        | inl now ↦
            let g : given_up deadline rd empty_view ≡ some r = gone ref deadline rd r u.0 now in
            (given_up-view deadline rd empty_view r g, given_up-error deadline rd empty_view r g)
      ]
