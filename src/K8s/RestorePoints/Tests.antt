-- ===== src/K8s/RestorePoints/Tests.antt =====
-- Runs on the restore points of two VMs.
use kasten_frs_web.Base.{
  nat_eq, text_eq, Option, none, some, ◌≡◌, List, [], ◌∷◌, refl, ℕ, false, if◌then◌else◌, ◌==◌,
  text_beq, Str, str,
}
use kasten_frs_web.Base.Int.{pos}
use kasten_frs_web.K8s.{ObjectApi}
use kasten_frs_web.K8s.RestorePoints.{Vm, list_vms}
use kasten_frs_web.K8s.RestorePoints.Details.{
  VolumeArtifact, text_value, object_value, Fields, no_fields, field, get_field, artifact_of_spec,
  artifact_of_spec_at, artifact_of_meta, collect, nested_found, nested_path,
  extract_nested_pvc_details, parse_details_pvcs,
}
use kasten_frs_web.K8s.RestorePoints.Details.Volumes.{
  parse_details_pvcs-DescribesVolumes, DescribesVolumes,
}
use kasten_frs_web.K8s.RestorePoints.Grouping.{IsGrouped, list_vms-IsGrouped}

-- A restore point: its name, its VM and its time.
abbrev Point : Type 0
Point = Str × Str × ℕ

abbrev label_of : Str → Point → Str
label_of k t =
    if k == str "k10.kasten.io/appType"
    then str "virtualMachine"
    else if k == str "k10.kasten.io/appName"
    then t.1
    else str "prod"

abbrev points : ObjectApi Point
points = record {
  get_namespace = λ t. str "prod";
  get_name = λ t. t.0;
  get_created = λ t. t.2;
  get_label = label_of;
  nested_string = λ names t. str "Bound";
  nested_int = λ names t. pos 0;
  parse_time = λ t. none;
}

abbrev three_points : List Point
three_points =
    (str "rp-1", str "db", 5) ∷ (str "rp-2", str "web", 7) ∷ (str "rp-3", str "db", 9) ∷ []

abbrev all_namespaces : List Str
all_namespaces = []

list_vms-IsGrouped_example :
    (vms : List Vm) × (list_vms points all_namespaces (some three_points) ≡ some vms)
    × IsGrouped points all_namespaces three_points vms
list_vms-IsGrouped_example = list_vms-IsGrouped points all_namespaces three_points

-- A body with one volume in the nested shape; what unmarshal gives for the two paths.
abbrev one_artifact : Fields
one_artifact =
    field (str "meta")
      (object_value (
        field (str "spec")
          (object_value (
            field (str "resource") (text_value (str "persistentvolumeclaims"))
              (field (str "name") (text_value (str "data-pvc")) no_fields)))
          no_fields))
      (field (str "occupiedSize") (text_value (str "5Gi")) no_fields)

abbrev decoded : List Str → Str → Option (List Fields)
decoded (a ∷ []) body = some []
decoded (a ∷ b ∷ path) body = some (one_artifact ∷ [])
decoded [] body = none

abbrev no_flat : List Fields
no_flat = []

data_pvc :
    parse_details_pvcs decoded []
    ≡ some (record { pvc_name = str "data-pvc"; size = str "5Gi"; is_clone = false } ∷ [])
unfolding parse_details_pvcs extract_nested_pvc_details nested_found collect artifact_of_meta
    artifact_of_spec_at artifact_of_spec get_field text_beq
data_pvc = refl

parse_details_pvcs-DescribesVolumes_example :
    (arts : List VolumeArtifact) × (parse_details_pvcs decoded [] ≡ some arts)
    × DescribesVolumes (decoded nested_path []) no_flat arts
parse_details_pvcs-DescribesVolumes_example =
    parse_details_pvcs-DescribesVolumes decoded [] no_flat refl
