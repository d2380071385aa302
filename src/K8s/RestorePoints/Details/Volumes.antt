-- ===== src/K8s/RestorePoints/Details/Volumes.antt =====
-- Which volumes a restore point is said to have.
use kasten_frs_web.Base.{
  nat_eq, text_eq, ◌≢◌, ◌≡◌, refl, inl, inr, false, Option, none, some, List, [], ◌∷◌, Bool-cases,
  ◌==◌, text_beq_iff, str, sym, ◌∙◌, ne_of_eq_false, ap, subst, ◌⊎◌, Str,
}
use kasten_frs_web.K8s.RestorePoints.Details.{
  VolumeArtifact, Fields, get_field, as_text, as_object, artifact_of_spec_at, artifact_of_meta,
  flat_artifact, push_some, collect, artifact_of_spec, nested_artifact, non_empty, nested_found,
  flat_found, nested_path, flat_path, first_of, extract_nested_pvc_details,
  extract_flat_pvc_details, parse_details_pvcs,
}

-- An artifact of the nested shape that is a volume.
pub record NestedPvc (m : Fields) (a : VolumeArtifact) : Type 0 where
  pub meta : Fields
  pub spec : Fields
  pub has_meta : as_object (get_field (str "meta") m) ≡ some meta
  pub has_spec : as_object (get_field (str "spec") meta) ≡ some spec
  pub resource : as_text (get_field (str "resource") spec) ≡ str "persistentvolumeclaims"
  pub naming : as_text (get_field (str "name") spec) ≡ a.pvc_name
  pub has_text : a.pvc_name ≢ []
  pub sized : as_text (get_field (str "occupiedSize") m) ≡ a.size
  pub no_clone : a.is_clone ≡ false

-- An artifact of the flat shape that is a volume.
pub record FlatPvc (m : Fields) (a : VolumeArtifact) : Type 0 where
  pub kind : as_text (get_field (str "kind") m) ≡ str "PersistentVolumeClaim"
  pub naming : as_text (get_field (str "name") m) ≡ a.pvc_name
  pub sized : as_text (get_field (str "occupiedSize") m) ≡ a.size
  pub no_clone : a.is_clone ≡ false

-- The volumes of a list of artifacts, in its order: each that is one in the sense of `R`.
pub data Collected (R : Fields → VolumeArtifact → Type 0)
    : List Fields → List VolumeArtifact → Type 0 where
  nothing : Collected R [] []
  taken :
      {m : Fields} {a : VolumeArtifact} {ms : List Fields} {out : List VolumeArtifact}
      → R m a
      → Collected R ms out
      → Collected R (m ∷ ms) (a ∷ out)
  skipped :
      {m : Fields} {ms : List Fields} {out : List VolumeArtifact}
      → ((a : VolumeArtifact) → ¬ R m a)
      → Collected R ms out
      → Collected R (m ∷ ms) out

-- A loop body finds what `R` says.
abbrev Finds : (R : Fields → VolumeArtifact → Type 0) → Fields → Option VolumeArtifact → Type 0
Finds R m none = (a : VolumeArtifact) → ¬ R m a
Finds R m (some a) = R m a

found_next :
    {R : Fields → VolumeArtifact → Type 0} {m : Fields} {ms : List Fields}
    {out : List VolumeArtifact} (o : Option VolumeArtifact)
    → Finds R m o
    → Collected R ms out
    → Collected R (m ∷ ms) (push_some o out)
found_next none n c = skipped n c
found_next (some a) r c = taken r c

collect-Collected :
    (R : Fields → VolumeArtifact → Type 0) (f : Fields → Option VolumeArtifact)
    → ((m : Fields) → Finds R m (f m))
    → (ms : List Fields) → Collected R ms (collect f ms)
unfolding collect
collect-Collected R f h [] = nothing
collect-Collected R f h (m ∷ ms) = found_next (f m) (h m) (collect-Collected R f h ms)

flat_artifact-Finds : (m : Fields) → Finds FlatPvc m (flat_artifact m)
unfolding flat_artifact
flat_artifact-Finds m =
    elim (Bool-cases (as_text (get_field (str "kind") m) == str "PersistentVolumeClaim")) [
      | inl y ↦
          rw y
            (record { kind = (text_beq_iff _ _).0 y; naming = refl; sized = refl; no_clone = refl })
      | inr n ↦ rw n (λ a v. ne_of_eq_false _ _ n v.kind)
    ]

fields_inj : {a b : Fields} → some a ≡ some b → a ≡ b
fields_inj h = cc

-- The spec of a volume is the one that the artifact has.
spec_same :
    {m meta : Fields} {a : VolumeArtifact}
    → as_object (get_field (str "meta") m) ≡ some meta
    → (v : NestedPvc m a) → as_object (get_field (str "spec") meta) ≡ some v.spec
spec_same e v =
    subst (λ f. as_object (get_field (str "spec") f) ≡ some v.spec)
      (fields_inj (sym v.has_meta ∙ e)) v.has_spec

artifact_of_spec-Finds :
    (m meta spec : Fields)
    → as_object (get_field (str "meta") m) ≡ some meta
    → as_object (get_field (str "spec") meta) ≡ some spec
    → Finds NestedPvc m (artifact_of_spec m spec)
unfolding artifact_of_spec
artifact_of_spec-Finds m meta spec e k =
    elim (Bool-cases (as_text (get_field (str "resource") spec) == str "persistentvolumeclaims")) [
      | inr n ↦ rw n (λ a v.
          ne_of_eq_false _ _ n
            (ap (λ f. as_text (get_field (str "resource") f)) (spec_of v) ∙ v.resource))
      | inl y ↦ elim (Bool-cases (as_text (get_field (str "name") spec) == [])) [
        | inl u ↦
            rw (y, u)
              (λ a v. v.has_text (
                sym (ap (λ f. as_text (get_field (str "name") f)) (spec_of v) ∙ v.naming)
                ∙ (text_beq_iff _ _).0 u))
        | inr u ↦
            rw (y, u)
              (record {
                meta = meta;
                spec = spec;
                has_meta = e;
                has_spec = k;
                resource = (text_beq_iff _ _).0 y;
                naming = refl;
                has_text = ne_of_eq_false _ _ u;
                sized = refl;
                no_clone = refl;
              })
      ]
    ]
  where
    spec_of : {a : VolumeArtifact} (v : NestedPvc m a) → spec ≡ v.spec
    spec_of v = fields_inj (sym k ∙ spec_same e v)

artifact_of_spec_at-Finds :
    (m meta : Fields) (o : Option Fields)
    → as_object (get_field (str "meta") m) ≡ some meta
    → as_object (get_field (str "spec") meta) ≡ o
    → Finds NestedPvc m (artifact_of_spec_at m o)
unfolding artifact_of_spec_at
artifact_of_spec_at-Finds m meta none e k = λ a v. let h = spec_same e v in cc
artifact_of_spec_at-Finds m meta (some spec) e k = artifact_of_spec-Finds m meta spec e k

artifact_of_meta-Finds :
    (m : Fields) (o : Option Fields)
    → as_object (get_field (str "meta") m) ≡ o
    → Finds NestedPvc m (artifact_of_meta m o)
unfolding artifact_of_meta
artifact_of_meta-Finds m none e = λ a v. let h = v.has_meta in cc
artifact_of_meta-Finds m (some meta) e = artifact_of_spec_at-Finds m meta _ e refl

-- The volumes that a body with these two lists of artifacts describes: those of the nested shape,
-- and where it has none, those of the flat one.
pub DescribesVolumes : Option (List Fields) → List Fields → List VolumeArtifact → Type 0
DescribesVolumes nested flat arts =
    ((ms : List Fields) × (nested ≡ some ms) × Collected NestedPvc ms arts × (arts ≢ []))
    ⊎ (((ms : List Fields) → nested ≡ some ms → Collected NestedPvc ms [])
        × Collected FlatPvc flat arts)

chosen :
    (ms flat : List Fields) (out : List VolumeArtifact)
    → Collected NestedPvc ms out
    → (arts : List VolumeArtifact) × (first_of (non_empty out) (flat_found (some flat)) ≡ some arts)
      × DescribesVolumes (some ms) flat arts
unfolding flat_found DescribesVolumes
chosen ms flat [] c = (
  _,
  refl,
  inr (
    λ ms' e. subst (λ xs. Collected NestedPvc xs []) (list_inj e) c,
    collect-Collected FlatPvc flat_artifact flat_artifact-Finds flat,
  ),
)
  where
    list_inj : {a b : List Fields} → some a ≡ some b → a ≡ b
    list_inj h = cc
chosen ms flat (a ∷ out) c = (_, refl, inl (ms, refl, c, λ h. cc))

chosen_of :
    (nested : Option (List Fields)) (flat : List Fields)
    → (arts : List VolumeArtifact) × (first_of (nested_found nested) (flat_found (some flat))
        ≡ some arts)
      × DescribesVolumes nested flat arts
unfolding nested_found flat_found DescribesVolumes
chosen_of none flat =
    (_, refl, inr (λ ms e. cc, collect-Collected FlatPvc flat_artifact flat_artifact-Finds flat))
chosen_of (some ms) flat = chosen ms flat _ (
    collect-Collected NestedPvc nested_artifact
      (λ m. artifact_of_meta-Finds m (as_object (get_field (str "meta") m)) refl) ms)

-- Of a body whose flat list of artifacts can be decoded, parseDetailsPVCs returns the volumes
-- among its nested artifacts, in their order, each with a name, and where there are none, those
-- among the flat ones; and never marks a volume as a clone.
pub parse_details_pvcs-DescribesVolumes :
    (unmarshal : List Str → Str → Option (List Fields)) (body : Str) (flat : List Fields)
    → unmarshal flat_path body ≡ some flat
    → (arts : List VolumeArtifact) × (parse_details_pvcs unmarshal body ≡ some arts)
      × DescribesVolumes (unmarshal nested_path body) flat arts
unfolding parse_details_pvcs extract_nested_pvc_details extract_flat_pvc_details
parse_details_pvcs-DescribesVolumes unmarshal body flat h =
    rw h (chosen_of (unmarshal nested_path body) flat)
