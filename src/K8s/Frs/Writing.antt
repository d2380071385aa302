-- ===== src/K8s/Frs/Writing.antt =====
-- CreateFRS, DeleteFRS and LookupFRSSource of internal/k8s/frs.go.
use kasten_frs_web.Base.{
  ◌≡◌, ◌≢◌, ◌↔◌, ◌⊎◌, Bool, true, false, ◌||◌, Option, none, some, List, [], if◌then◌else◌, Result,
  ok, err, ◌==◌, Str, str, length, map, nat_eq, text_eq, ◌∷◌,
}
use kasten_frs_web.K8s.{ObjectApi, FrsView}
use kasten_frs_web.K8s.Frs.{view_of}

-- FRSpec.
pub record FrSpec : Type 0 where
  pub name : Str
  pub restore_point_name : Str
  pub pvc_names : List Str
  pub ssh_user_public_key : Str

-- The object that CreateFRS sends: metadata.name or else metadata.generateName, the pairs of restore
-- point and claim in spec.volumes, and the key in spec.transports.sftp.
pub record NewFrs : Type 0 where
  pub namespace : Str
  pub name : Str
  pub generate_name : Str
  pub volumes : List (Str × Str)
  pub user_public_key : Str

pub data CreateError : Type 0 where
  incomplete create_failed : CreateError

unfoldable pub is_incomplete : FrSpec → Bool
is_incomplete spec =
    spec.restore_point_name == [] || length spec.pvc_names == 0 || spec.ssh_user_public_key == []

abbrev pub volumes_of : Str → List Str → List (Str × Str)
volumes_of r [] = []
volumes_of r (p ∷ ps) = (r, p) ∷ volumes_of r ps

unfoldable pub new_frs : Str → FrSpec → NewFrs
new_frs ns spec = record {
  namespace = ns;
  name = spec.name;
  generate_name = if spec.name == [] then str "frs-wizard-" else [];
  volumes = volumes_of spec.restore_point_name spec.pvc_names;
  user_public_key = spec.ssh_user_public_key;
}

-- The answer of the API server to a deletion, as far as DeleteFRS tells it apart.
pub data DeleteAnswer : Type 0 where
  delete_ok delete_not_found delete_refused : DeleteAnswer

-- `true` is the nil error.
unfoldable pub delete_frs : DeleteAnswer → Bool
delete_frs delete_ok = true
delete_frs delete_not_found = true
delete_frs delete_refused = false

abbrev pub IsIncomplete : FrSpec → Type 0
IsIncomplete spec =
    (spec.restore_point_name ≡ []) ⊎ (spec.pvc_names ≡ []) ⊎ (spec.ssh_user_public_key ≡ [])

-- The object to be made for a spec in a namespace.
pub record IsRequest (ns : Str) (spec : FrSpec) (sent : NewFrs) : Type 0 where
  pub in_namespace : sent.namespace ≡ ns
  pub named : sent.name ≡ spec.name
  pub prefixed : (spec.name ≡ []) ↔ (sent.generate_name ≢ [])
  pub volumes : sent.volumes ≡ map (λ p. (spec.restore_point_name, p)) spec.pvc_names
  pub key : sent.user_public_key ≡ spec.ssh_user_public_key

module _ {O W : Type 0} (api : ObjectApi O) where
  abbrev pub created_view : Option O × W → Result CreateError FrsView × W
  created_view (none, w) = (err create_failed, w)
  created_view (some item, w) = (ok (view_of api item), w)

  -- CreateFRS, given what the API server does with a new object.
  unfoldable pub create_frs :
      (NewFrs → W → Option O × W) → Str → FrSpec → W → Result CreateError FrsView × W
  create_frs create ns spec w =
      let made = created_view (create (new_frs ns spec) w) in
      if is_incomplete spec then (err incomplete, w) else made

  -- What is returned for the server's answer: the view of the object that it made, or an error.
  abbrev pub Returns : Option O × W → Result CreateError FrsView × W → Type 0
  Returns (answer, w) r =
      ((answer ≡ none) × (r ≡ (err create_failed, w)))
      ⊎ ((item : O) × (answer ≡ some item) × (r ≡ (ok (view_of api item), w)))
