-- ===== src/Operand/Fits.antt =====
-- pkg/controllers/karpenter with pkg/cloudprovider: the pods of both controllers, on both clouds.
use openshift_karpenter_oper.Base.{
  ◌≡◌, refl, ◌∙◌, ap, sym, Bool, true, ◌++◌, map, String, ok, string_eq, ◌⊎◌, inl, inr,
}
use openshift_karpenter_oper.Kube.{HostedControlPlane}
use openshift_karpenter_oper.CloudProvider.{OperandCloudConfig}
use openshift_karpenter_oper.CloudProvider.Aws
use openshift_karpenter_oper.CloudProvider.Azure
use openshift_karpenter_oper.Operand.{OwnerRef, Deployment, OperandConfig}
use openshift_karpenter_oper.Operand.Convert.{Codecs}
use openshift_karpenter_oper.Operand.Pod.{common_env, deployment_of, build_deployment}
use openshift_karpenter_oper.Operand.Pod.Parts.{build_deployment-eq-ok}
use openshift_karpenter_oper.Operand.Pod.Keys.{
  Faithful, pod_fits, fits, env_key, env_apply_key, volume_key, mounted, init_mounts,
  build_pod_spec-fits,
}
use openshift_karpenter_oper.Operand.Hcp
use openshift_karpenter_oper.Operand.Hcp.{HcpControllerConfig, token_minter_container}
use openshift_karpenter_oper.Operand.Hcp.Planned as HcpPlanned
use openshift_karpenter_oper.Operand.Ocp
use openshift_karpenter_oper.Operand.Ocp.{Karpenter, OcpControllerConfig}
use openshift_karpenter_oper.Operand.Ocp.Planned as OcpPlanned

-- The settings of one of the clouds that there is a provider for.
abbrev pub Supported : OperandCloudConfig → Type 0
Supported cloud =
    ((region : String) × (cloud ≡ Aws.operand_config region))
    ⊎ ((p : Azure.Provider) × (cloud ≡ Azure.operand_config p))

-- Whether the settings of an operand fit, with those of its cloud.
unfoldable settings_fit : OperandConfig → OperandCloudConfig → Bool
settings_fit cfg cloud =
    fits
      ((map env_apply_key (common_env cfg) ++ map env_key cloud.env)
        ++ map env_key cfg.additional_env)
      (map volume_key cloud.volumes ++ map volume_key cfg.additional_volumes)
      (map mounted cloud.volume_mounts ++ map mounted cfg.additional_volume_mounts)
      (map init_mounts cfg.additional_init_containers)

build_deployment-fits :
    (codecs : Codecs) (cfg : OperandConfig) (owner : OwnerRef) {dep : Deployment}
    → Faithful codecs
    → settings_fit cfg cfg.cloud_provider.operand_config ≡ true
    → build_deployment codecs cfg owner ≡ ok dep
    → pod_fits dep.pod_spec ≡ true
unfolding settings_fit deployment_of
build_deployment-fits codecs cfg owner faithful good built =
    let (spec, pods, same) = build_deployment-eq-ok codecs cfg owner built in
    ap (λ (d : Deployment). pod_fits d.pod_spec) (sym same)
    ∙ (build_pod_spec-fits codecs faithful cfg pods ∙ good)

hosted_settings :
    (config : HcpControllerConfig) (hcp : HostedControlPlane) (image : String)
    (cloud : OperandCloudConfig)
    → Supported cloud
    → settings_fit (Hcp.operand_config config hcp image) cloud ≡ true
unfolding settings_fit common_env Hcp.operand_config Aws.operand_config Azure.operand_config
    token_minter_container string_eq
hosted_settings config hcp image cloud (inl (region, e)) = rw e refl
hosted_settings config hcp image cloud (inr (p, e)) = rw e refl

standalone_settings :
    (config : OcpControllerConfig) (karp : Karpenter) (image : String) (cloud : OperandCloudConfig)
    → Supported cloud
    → settings_fit (Ocp.operand_config config karp image) cloud ≡ true
unfolding settings_fit common_env Ocp.operand_config Aws.operand_config Azure.operand_config
    string_eq
standalone_settings config karp image cloud (inl (region, e)) = rw e refl
standalone_settings config karp image cloud (inr (p, e)) = rw e refl

-- Whichever controller builds a Deployment, for AWS or for Azure, its pods can be applied and started: no
-- two variables of the operand's container have one name, no two volumes one name, no two mounts of a
-- container one path, and every mount, that of the token minter included, is of a volume of the pod. That
-- encoding/json keeps the names and paths that it converts is assumed.
pub deployments-fit :
    (codecs : Codecs) (hosted : HcpControllerConfig) (hcp : HostedControlPlane)
    (standalone : OcpControllerConfig) (karp : Karpenter) {dep dep' : Deployment}
    → Faithful codecs
    → Supported hosted.cloud_provider.operand_config
    → Supported standalone.cloud_provider.operand_config
    → HcpPlanned.built hosted codecs hcp ≡ ok dep
    → OcpPlanned.built standalone codecs karp ≡ ok dep'
    → (pod_fits dep.pod_spec ≡ true) × (pod_fits dep'.pod_spec ≡ true)
unfolding HcpPlanned.built OcpPlanned.built Hcp.operand_config Ocp.operand_config
deployments-fit codecs hosted hcp standalone karp faithful cloud cloud' h h' = (
  build_deployment-fits codecs _ _ faithful (hosted_settings hosted hcp _ _ cloud) h,
  build_deployment-fits codecs _ _ faithful (standalone_settings standalone karp _ _ cloud') h',
)
