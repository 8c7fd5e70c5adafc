-- ===== src/Operand/Pod/Keys.antt =====
-- pkg/controllers/karpenter/deployment.go: the keys by which the API server merges what is applied.
use mathlib.Core.List.{map-append}
use openshift_karpenter_oper.Base.{
  ◌≡◌, refl, ◌∙◌, ap, Bool, true, not, ◌&&◌, List, [], ◌∷◌, ◌++◌, map, String, ok, contains,
  string_eq, all,
}
use openshift_karpenter_oper.CloudProvider.{EnvVar, Volume, VolumeMount}
use openshift_karpenter_oper.Operand.{EnvVarApply, Container, InitContainer, PodSpec, OperandConfig}
use openshift_karpenter_oper.Operand.Convert.{
  Codec, Codecs, to_apply_configuration, env_vars, volumes, volume_mounts, init_containers,
  map-apply_configurations,
}
use openshift_karpenter_oper.Operand.Pod.{common_env, container, build_pod_spec}
use openshift_karpenter_oper.Operand.Pod.Parts.{build_pod_spec-Parts}

-- What encoding/json keeps of a value: the apply configuration has the same field under the same key.
abbrev pub Keeps : {In Out F : Type 0} → Codec In Out → (In → F) → (Out → F) → Type 0
Keeps {In} {Out} codec before after =
    (x : In) (y : Out) → to_apply_configuration codec x ≡ ok y → after y ≡ before x

abbrev pub env_key : EnvVar → String
env_key v = v.name

abbrev pub env_apply_key : EnvVarApply → String
env_apply_key v = v.name

abbrev pub volume_key : Volume → String
volume_key v = v.name

-- The volume and the path of a mount.
abbrev pub mounted : VolumeMount → String × String
mounted m = (m.name, m.mount_path)

abbrev pub init_mounts : InitContainer → List (String × String)
init_mounts c = map mounted c.volume_mounts

abbrev pub path : String × String → String
path m = m.1

pub record Faithful (codecs : Codecs) : Type 0 where
  pub env : Keeps codecs.env env_key env_apply_key
  pub volume : Keeps codecs.volume volume_key volume_key
  pub volume_mount : Keeps codecs.volume_mount mounted mounted
  pub init_container : Keeps codecs.init_container init_mounts init_mounts

abbrev pub nodup : List String → Bool
nodup [] = true
nodup (x ∷ xs) = not (contains xs x) && nodup xs

-- The mounts of a container: no two have one path, and each is of one of the volumes.
abbrev pub mounts_fit : List String → List (String × String) → Bool
mounts_fit names mounts =
    nodup (map path mounts) && all (λ (m : String × String). contains names m.0) mounts

-- No two variables of the operand have one name and no two volumes of the pod one name, and the mounts of
-- the operand's container and of every init container fit the volumes.
abbrev pub fits :
    List String → List String → List (String × String) → List (List (String × String)) → Bool
fits env names mounts inits =
    (nodup env && nodup names) && (mounts_fit names mounts && all (mounts_fit names) inits)

abbrev pub pod_fits : PodSpec → Bool
pod_fits spec =
    fits (map env_apply_key spec.container.env) (map volume_key spec.volumes)
      (map mounted spec.container.volume_mounts) (map init_mounts spec.init_containers)

map-both :
    {A B : Type 0} (f : A → B) (xs ys : List A) {zs ws : List B}
    → map f xs ≡ zs
    → map f ys ≡ ws
    → map f (xs ++ ys) ≡ zs ++ ws
map-both f xs ys p q = rw (map-append, p, q) refl

module _ (codecs : Codecs) (faithful : Faithful codecs) (cfg : OperandConfig) where
  -- A pod fits if the operand's settings do.
  pub build_pod_spec-fits :
      {spec : PodSpec}
      → build_pod_spec codecs cfg ≡ ok spec
      → pod_fits spec ≡ (
          let cloud = cfg.cloud_provider.operand_config in
          fits
            ((map env_apply_key (common_env cfg) ++ map env_key cloud.env)
              ++ map env_key cfg.additional_env)
            (map volume_key cloud.volumes ++ map volume_key cfg.additional_volumes)
            (map mounted cloud.volume_mounts ++ map mounted cfg.additional_volume_mounts)
            (map init_mounts cfg.additional_init_containers))
  unfolding container env_vars volumes volume_mounts init_containers
  build_pod_spec-fits {spec} built =
      let p = build_pod_spec-Parts codecs cfg built in
      let env =
        ap (λ (c : Container). map env_apply_key c.env) p.container_eq
        ∙ (map-both env_apply_key (common_env cfg ++ p.cloud_env) p.additional_env
            (map-both env_apply_key (common_env cfg) p.cloud_env refl (
              map-apply_configurations codecs.env env_key env_apply_key faithful.env "env" _
                p.cloud_env_ok))
            (map-apply_configurations codecs.env env_key env_apply_key faithful.env "env" _
              p.additional_env_ok)) in
      let vols =
        ap (map volume_key) p.volumes_eq
        ∙ (map-both volume_key p.cloud_vols p.additional_vols
            (map-apply_configurations codecs.volume volume_key volume_key faithful.volume "volume" _
              p.cloud_vols_ok)
            (map-apply_configurations codecs.volume volume_key volume_key faithful.volume "volume" _
              p.additional_vols_ok)) in
      let mounts =
        ap (λ (c : Container). map mounted c.volume_mounts) p.container_eq
        ∙ (map-both mounted p.cloud_mounts p.additional_mounts
            (map-apply_configurations codecs.volume_mount mounted mounted faithful.volume_mount
              "volumeMount" _ p.cloud_mounts_ok)
            (map-apply_configurations codecs.volume_mount mounted mounted faithful.volume_mount
              "volumeMount" _ p.additional_mounts_ok)) in
      let inits =
        map-apply_configurations codecs.init_container init_mounts init_mounts
          faithful.init_container "initContainer" _ p.inits_ok in
      rw (env, vols, mounts, inits) refl
