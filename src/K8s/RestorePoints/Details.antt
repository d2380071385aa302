-- ===== src/K8s/RestorePoints/Details.antt =====
-- The details of a restore point: which of its artifacts are volumes. encoding/json is a parameter:
-- it decodes a body into a struct that has a list of objects (map[string]any) at a path of fields.
pub mod Volumes
use kasten_frs_web.Base.{
  nat_eq, text_eq, ◌⊎◌, inl, inr, Bool, false, not, Option, none, some, List, [], ◌∷◌, ◌++◌,
  if◌then◌else◌, ◌==◌, Str, str,
}
use kasten_frs_web.K8s.Client.{RequestError}

-- VolumeArtifact
pub record VolumeArtifact : Type 0 where
  pub pvc_name : Str
  pub size : Str
  pub is_clone : Bool

-- A value of type any, as far as type assertions on strings and objects can tell.
mutual
  pub data Json : Type 0 where
    text_value : Str → Json
    object_value : Fields → Json
    other_value : Json

  pub data Fields : Type 0 where
    no_fields : Fields
    field : Str → Json → Fields → Fields

-- The value of a key in a map[string]any: nil for a missing one, which no assertion accepts.
unfoldable pub get_field : Str → Fields → Json
get_field k no_fields = other_value
get_field k (field j v m) = let rest = get_field k m in if j == k then v else rest

abbrev pub as_text : Json → Str
as_text (text_value s) = s
as_text (object_value m) = []
as_text other_value = []

abbrev pub as_object : Json → Option Fields
as_object (text_value s) = none
as_object (object_value m) = some m
as_object other_value = none

unfoldable pub artifact_of_spec : Fields → Fields → Option VolumeArtifact
artifact_of_spec m spec =
    if not (as_text (get_field (str "resource") spec) == str "persistentvolumeclaims")
    then none
    else if as_text (get_field (str "name") spec) == []
    then none
    else some (record {
      pvc_name = as_text (get_field (str "name") spec);
      size = as_text (get_field (str "occupiedSize") m);
      is_clone = false;
    })

unfoldable pub artifact_of_spec_at : Fields → Option Fields → Option VolumeArtifact
artifact_of_spec_at m none = none
artifact_of_spec_at m (some spec) = artifact_of_spec m spec

unfoldable pub artifact_of_meta : Fields → Option Fields → Option VolumeArtifact
artifact_of_meta m none = none
artifact_of_meta m (some meta) = artifact_of_spec_at m (as_object (get_field (str "spec") meta))

-- The bodies of the two loops: `none` for `continue`.
abbrev pub nested_artifact : Fields → Option VolumeArtifact
nested_artifact m = artifact_of_meta m (as_object (get_field (str "meta") m))

unfoldable pub flat_artifact : Fields → Option VolumeArtifact
flat_artifact m =
    if not (as_text (get_field (str "kind") m) == str "PersistentVolumeClaim")
    then none
    else some (record {
      pvc_name = as_text (get_field (str "name") m);
      size = as_text (get_field (str "occupiedSize") m);
      is_clone = false;
    })

abbrev pub push_some : Option VolumeArtifact → List VolumeArtifact → List VolumeArtifact
push_some none out = out
push_some (some a) out = a ∷ out

unfoldable pub collect : (Fields → Option VolumeArtifact) → List Fields → List VolumeArtifact
collect f [] = []
collect f (m ∷ ms) = push_some (f m) (collect f ms)

unfoldable pub details_path : Str → Str → Str
details_path ns name =
    str "/apis/apps.kio.kasten.io/v1alpha1/namespaces/"
    ++ (ns ++ (str "/restorepoints/" ++ (name ++ str "/details")))

abbrev pub non_empty : List VolumeArtifact → Option (List VolumeArtifact)
non_empty [] = none
non_empty (a ∷ out) = some (a ∷ out)

unfoldable pub nested_found : Option (List Fields) → Option (List VolumeArtifact)
nested_found none = none
nested_found (some artifacts) = non_empty (collect nested_artifact artifacts)

unfoldable pub flat_found : Option (List Fields) → Option (List VolumeArtifact)
flat_found none = none
flat_found (some artifacts) = some (collect flat_artifact artifacts)

abbrev pub nested_path : List Str
nested_path = str "status" ∷ str "restorePointDetails" ∷ str "artifacts" ∷ []

abbrev pub flat_path : List Str
flat_path = str "artifacts" ∷ []

abbrev pub first_of :
    Option (List VolumeArtifact) → Option (List VolumeArtifact) → Option (List VolumeArtifact)
first_of none flat = flat
first_of (some arts) flat = some arts

module _ (unmarshal : List Str → Str → Option (List Fields)) where
  -- `none` for the result false.
  unfoldable pub extract_nested_pvc_details : Str → Option (List VolumeArtifact)
  extract_nested_pvc_details body = nested_found (unmarshal nested_path body)

  unfoldable pub extract_flat_pvc_details : Str → Option (List VolumeArtifact)
  extract_flat_pvc_details body = flat_found (unmarshal flat_path body)

  unfoldable pub parse_details_pvcs : Str → Option (List VolumeArtifact)
  parse_details_pvcs body =
      first_of (extract_nested_pvc_details body) (extract_flat_pvc_details body)

  unfoldable pub details_of_body : RequestError ⊎ Str → Option (List VolumeArtifact)
  details_of_body (inl e) = none
  details_of_body (inr body) = parse_details_pvcs body

  -- GetRestorePointDetails, with doK8sRequest of the client; the log lines are left out.
  unfoldable pub get_restore_point_details :
      (Str → Str → RequestError ⊎ Str) → Str → Str → Option (List VolumeArtifact)
  get_restore_point_details request ns name =
      details_of_body (request (str "GET") (details_path ns name))
