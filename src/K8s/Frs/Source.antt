-- ===== src/K8s/Frs/Source.antt =====
-- LookupFRSSource of internal/k8s/frs.go. The API server is a state with two requests.
use kasten_frs_web.Base.{
  ◌≡◌, refl, ◌⊎◌, inl, inr, Bool, true, false, Option, none, some, List, [], ◌∷◌, Option-cases, Str,
  str,
}
use kasten_frs_web.K8s.{FrsRef, ObjectApi, FrsView}

-- What the function asks the API server for: an FRS, and a restore point by namespace and name.
-- `volume_names` is the field restorePointName of each of the spec's volumes: "" where it is missing,
-- `none` for a volume that is no map.
pub record SourceApi (O W : Type 0) : Type 0 where
  pub fetch_frs : FrsRef → W → Option O × W
  pub fetch_restore_point : Str → Str → W → Option O × W
  pub volume_names : O → List (Option Str)

module _ {O W : Type 0} (api : ObjectApi O) (src : SourceApi O W) where
  abbrev pub with_source : O → FrsView → FrsView
  with_source rp v = record v {
    source_app = api.get_label (str "k10.kasten.io/appName") rp;
    source_app_ns = api.get_label (str "k10.kasten.io/appNamespace") rp;
    restore_point_created_at = some (api.get_created rp);
  }

  -- The loop: the first restore point that can be read is the source.
  unfoldable pub source_of_volumes : List (Option Str) → FrsView → W → FrsView × W
  source_of_volumes [] v w = (v, w)
  source_of_volumes (none ∷ vs) v w = source_of_volumes vs v w
  source_of_volumes (some [] ∷ vs) v w = source_of_volumes vs v w
  source_of_volumes (some (c ∷ cs) ∷ vs) v w =
      let (answer, w1) = src.fetch_restore_point v.ref.namespace (c ∷ cs) w in
      elim answer [ some rp ↦ (with_source rp v, w1) | none ↦ source_of_volumes vs v w1 ]

  abbrev pub source_of_answer : FrsView → Option O × W → FrsView × W
  source_of_answer v (none, w) = (v, w)
  source_of_answer v (some item, w) = source_of_volumes (src.volume_names item) v w

  -- `is_fake` is the client's flag for tests.
  unfoldable pub lookup_frs_source : Bool → FrsView → W → FrsView × W
  lookup_frs_source true v w = (v, w)
  lookup_frs_source false v w = source_of_answer v (src.fetch_frs v.ref w)

  volumes-source :
      (names : List (Option Str)) (v : FrsView) (w : W)
      → ((source_of_volumes names v w).0 ≡ v)
        ⊎ ((rp : O) × ((source_of_volumes names v w).0 ≡ with_source rp v))
  unfolding source_of_volumes
  volumes-source [] v w = inl refl
  volumes-source (none ∷ vs) v w = volumes-source vs v w
  volumes-source (some [] ∷ vs) v w = volumes-source vs v w
  volumes-source (some (c ∷ cs) ∷ vs) v w =
      elim (Option-cases (src.fetch_restore_point v.ref.namespace (c ∷ cs) w).0) [
        | inl n ↦ rw (n, source_of_volumes) (volumes-source vs v _)
        | inr (rp, e) ↦ rw (e, source_of_volumes) (inr (rp, refl))
      ]

  answer-source :
      (v : FrsView) (answer : Option O × W)
      → ((source_of_answer v answer).0 ≡ v)
        ⊎ ((rp : O) × ((source_of_answer v answer).0 ≡ with_source rp v))
  answer-source v (none, w) = inl refl
  answer-source v (some item, w) = volumes-source (src.volume_names item) v w

  -- The view is left as it is, or gets the three fields of its source from one restore point.
  pub lookup_frs_source-fields :
      (is_fake : Bool) (v : FrsView) (w : W)
      → ((lookup_frs_source is_fake v w).0 ≡ v)
        ⊎ ((rp : O) × ((lookup_frs_source is_fake v w).0 ≡ with_source rp v))
  unfolding lookup_frs_source
  lookup_frs_source-fields true v w = inl refl
  lookup_frs_source-fields false v w = answer-source v (src.fetch_frs v.ref w)
