-- ===== src/Operand/Convert.antt =====
-- pkg/controllers/karpenter/convert.go and rbac.go: API objects as apply configurations.
use openshift_karpenter_oper.Base.{
  ℕ, ◌+◌, String, ◌<>◌, ◌≡◌, none, some, List, [], ◌∷◌, map, Result, ok, wrapped, wrapped-eq-ok,
  arith, itoa, if◌then◌else◌, ◌==◌, ◌!=◌, string_eq,
}
use openshift_karpenter_oper.Base.Checked.{◌>>=◌, bind-eq-ok}
use openshift_karpenter_oper.CloudProvider.{EnvVar, Volume, VolumeMount, Subject}
use openshift_karpenter_oper.Operand.{EnvVarApply, InitContainer, SubjectApply}

-- `encoding/json` at a type and the type of its apply configuration.
pub record Codec (In Out : Type 0) : Type 1 where
  pub Text : Type 0
  pub marshal : In → Result Text
  pub unmarshal : Text → Result Out

pub record Codecs : Type 1 where
  pub env : Codec EnvVar EnvVarApply
  pub volume : Codec Volume Volume
  pub volume_mount : Codec VolumeMount VolumeMount
  pub init_container : Codec InitContainer InitContainer

module _ {In Out : Type 0} (codec : Codec In Out) where
  -- `toApplyConfiguration`
  unfoldable pub to_apply_configuration : In → Result Out
  to_apply_configuration x = do
    text ← wrapped "marshal" (codec.marshal x)
    wrapped "unmarshal" (codec.unmarshal text)

  -- The loop of `applyConfigurations`, from an index.
  unfoldable pub convert_from : String → ℕ → List In → Result (List Out)
  convert_from field i [] = ok []
  convert_from field i (x ∷ xs) = do
    converted ←
        wrapped ("convert " <> (field <> ("[" <> (itoa i <> "]")))) (to_apply_configuration x)
    rest ← convert_from field (i + 1) xs
    ok (converted ∷ rest)

  -- `applyConfigurations`
  unfoldable pub apply_configurations : List In → String → Result (List Out)
  apply_configurations items field = convert_from field 0 items

  -- A field that the conversion keeps is kept in the list.
  map-convert_from :
      {F : Type 0} (before : In → F) (after : Out → F)
      → ((x : In) (y : Out) → to_apply_configuration x ≡ ok y → after y ≡ before x)
      → (field : String) (i : ℕ) (xs : List In) {ys : List Out} → convert_from field i xs ≡ ok ys
      → map after ys ≡ map before xs
  unfolding convert_from
  map-convert_from before after keeps field i [] h = ground arith
  map-convert_from before after keeps field i (x ∷ xs) h =
      let (y, one, more) = bind-eq-ok (wrapped _ (to_apply_configuration x)) _ h in
      let (ys, rest, both) = bind-eq-ok (convert_from field (i + 1) xs) _ more in
      ground (
        arith,
        wrapped-eq-ok _ (to_apply_configuration x) one,
        keeps x y,
        map-convert_from before after keeps field (i + 1) xs rest,
      )

  pub map-apply_configurations :
      {F : Type 0} (before : In → F) (after : Out → F)
      → ((x : In) (y : Out) → to_apply_configuration x ≡ ok y → after y ≡ before x)
      → (field : String) (xs : List In) {ys : List Out} → apply_configurations xs field ≡ ok ys
      → map after ys ≡ map before xs
  unfolding apply_configurations
  map-apply_configurations before after keeps field xs h =
      map-convert_from before after keeps field 0 xs h

module _ (codecs : Codecs) where
  unfoldable pub env_vars : List EnvVar → Result (List EnvVarApply)
  env_vars vars = apply_configurations codecs.env vars "env"

  unfoldable pub volumes : List Volume → Result (List Volume)
  volumes vols = apply_configurations codecs.volume vols "volume"

  unfoldable pub volume_mounts : List VolumeMount → Result (List VolumeMount)
  volume_mounts mounts = apply_configurations codecs.volume_mount mounts "volumeMount"

  unfoldable pub init_containers : List InitContainer → Result (List InitContainer)
  init_containers containers = apply_configurations codecs.init_container containers "initContainer"

-- A round of the loop of `subjects`.
unfoldable pub subject : String → Subject → SubjectApply
subject ns s = record {
  kind = s.kind;
  name = s.name;
  api_group = s.api_group;
  namespace =
      if s.kind == "ServiceAccount"
      then some (if s.namespace != "" then s.namespace else ns)
      else none;
}

-- `subjects`
unfoldable pub subjects : List Subject → String → List SubjectApply
unfolding subject
subjects subs ns = map (subject ns) subs
