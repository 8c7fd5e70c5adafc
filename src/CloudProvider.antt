-- ===== src/CloudProvider.antt =====
-- pkg/cloudprovider: what a cloud's provider tells the controllers.
pub mod Aws
pub mod Azure
pub mod Select
pub mod Embedded
use openshift_karpenter_oper.Base.{
  ℕ, String, ◌<>◌, Bool, true, false, Option, none, some, List, [], ◌∷◌, Result, ok, err, message,
  wrapped, if◌then◌else◌, ◌==◌, string_eq,
}
use openshift_karpenter_oper.Base.Checked.{◌>>=◌}
use openshift_karpenter_oper.Base.Dict.{Dict}
use openshift_karpenter_oper.Hypershift.UserData.{get_text}
use openshift_karpenter_oper.ClusterOperator.{ObjectReference}

-- `corev1.EnvVar`, of which the operator sets these two fields.
pub record EnvVar : Type 0 where
  pub name : String
  pub value : String

-- `corev1.KeyToPath`
pub record KeyToPath : Type 0 where
  pub key : String
  pub path : String

-- `corev1.VolumeSource`, with the two kinds that the operator uses. A mode that is not set is `none`.
pub data VolumeSource : Type 0 where
  secret : (secret_name : String) → (default_mode : Option ℕ) → List KeyToPath → VolumeSource
  empty_dir : VolumeSource

-- `corev1.Volume`
pub record Volume : Type 0 where
  pub name : String
  pub source : VolumeSource

-- `corev1.VolumeMount`
pub record VolumeMount : Type 0 where
  pub name : String
  pub mount_path : String
  pub read_only : Bool

-- `rbacv1.PolicyRule`
pub record PolicyRule : Type 0 where
  pub verbs : List String
  pub api_groups : List String
  pub resources : List String
  pub resource_names : List String
  pub non_resource_urls : List String

-- `rbacv1.RoleRef`
pub record RoleRef : Type 0 where
  pub api_group : String
  pub kind : String
  pub name : String

-- `rbacv1.Subject`
pub record Subject : Type 0 where
  pub kind : String
  pub name : String
  pub api_group : String
  pub namespace : String

-- `rbacv1.Role` and `rbacv1.ClusterRole`. The labels of a Role are not read.
pub record Role : Type 0 where
  pub name : String
  pub labels : Dict String String
  pub rules : List PolicyRule

-- `rbacv1.RoleBinding` and `rbacv1.ClusterRoleBinding`
pub record RoleBinding : Type 0 where
  pub name : String
  pub role_ref : RoleRef
  pub subjects : List Subject

-- `RBACAssets`
pub record RbacAssets : Type 0 where
  pub roles : List Role
  pub role_bindings : List RoleBinding
  pub cluster_roles : List Role
  pub cluster_role_bindings : List RoleBinding

-- `OperandCloudConfig`
pub record OperandCloudConfig : Type 0 where
  pub credentials_secret_name : String
  pub env : List EnvVar
  pub volumes : List Volume
  pub volume_mounts : List VolumeMount

-- `apiextensionsv1.CustomResourceDefinition`, whose spec is kept as a text.
pub record CustomResourceDefinition : Type 0 where
  pub name : String
  pub spec : String

-- The NodeClass controllers of the clouds.
pub data NodeClassController : Type 0 where
  ec2_node_class azure_node_class azure_vap : NodeClassController

-- `HCPNodeClassProvider`, by its CRDs and its controllers. The default NodeClass is that of DefaultNodeClass.
pub record HcpNodeClassProvider : Type 0 where
  pub crds : List CustomResourceDefinition
  pub controllers : List NodeClassController

-- The embedded objects of pkg/assets.
pub record Assets : Type 0 where
  pub core_rbac : RbacAssets
  pub aws_rbac_assets : RbacAssets
  pub core_crds : List CustomResourceDefinition
  pub aws_crds : List CustomResourceDefinition
  pub aws_hcp_crds : List CustomResourceDefinition
  pub azure_crds : List CustomResourceDefinition
  pub azure_hcp_crds : List CustomResourceDefinition

-- `CloudProvider`, by the answers of its methods. Whether there is a node identity verifier is a Boolean;
-- that of AWS is the module Aws.
pub record CloudProvider : Type 0 where
  pub hcp_node_class_provider : Option HcpNodeClassProvider
  pub crds : List CustomResourceDefinition
  pub has_node_identity_verifier : Bool
  pub karpenter_image : String
  pub operand_config : OperandCloudConfig
  pub rbac : RbacAssets
  pub related_objects : List ObjectReference

-- `InfrastructureInfo`
pub record InfrastructureInfo : Type 0 where
  pub platform_type : String
  pub region : String
  pub infra_name : String
  pub cluster_endpoint : String

-- The environment of the process, where an unset variable reads as the empty text.
abbrev pub Environment : Type 0
Environment = Dict String String

-- `RequireEnv`
unfoldable pub require_env : Environment → String → Result String
require_env env name =
    let v = get_text name env in if v == "" then err (message (name <> " not set")) else ok v

abbrev pub system_namespace_env_name : String
system_namespace_env_name = "SYSTEM_NAMESPACE"

abbrev pub disable_webhook_env_name : String
disable_webhook_env_name = "DISABLE_WEBHOOK"

abbrev pub disable_leader_election_env_name : String
disable_leader_election_env_name = "DISABLE_LEADER_ELECTION"

abbrev pub kubeconfig_env_name : String
kubeconfig_env_name = "KUBECONFIG"

abbrev pub health_probe_port_env_name : String
health_probe_port_env_name = "HEALTH_PROBE_PORT"
