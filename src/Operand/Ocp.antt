-- ===== src/Operand/Ocp.antt =====
-- pkg/controllers/karpenter/ocp_controller.go: the operand of a standalone OpenShift cluster.
pub mod Planned
pub mod Owned
use openshift_karpenter_oper.Base.{
  ℕ, String, ◌<>◌, Bool, true, false, not, ◌||◌, Option, none, some, List, [], ◌∷◌, ◌++◌, M, Result,
  ok, err, message, pure, fail, call, attempt, context, ◌>>=◌, ◌>>◌, is_not_found, if◌then◌else◌,
  ◌==◌, ◌!=◌, string_eq, any,
}
use openshift_karpenter_oper.Base.Dict.{Dict}
use openshift_karpenter_oper.Kube.{Requeue, finished}
use openshift_karpenter_oper.Hypershift.UserData.{get_text}
use openshift_karpenter_oper.CloudProvider.{
  CloudProvider, RbacAssets, Role, RoleBinding, Environment,
}
use openshift_karpenter_oper.Operand.{OwnerRef, OperandConfig}
use openshift_karpenter_oper.Operand.Apply.{
  Event, got, Deps, apply_service_account, apply_roles, apply_role_bindings, apply_cluster_roles,
  apply_cluster_role_bindings, apply_deployment, apply_pod_monitor,
}
use openshift_karpenter_oper.Operand.Hcp.{karpenter_image_override_annotation, image_or_override}

-- `KarpenterLogLevel`, whose Go type is a text, and `Arg`.
abbrev pub log_level_info : String
log_level_info = "info"

unfoldable pub arg : String → String
arg level = if level == "" then "--log-level=" <> log_level_info else "--log-level=" <> level

-- `autoscalingv1alpha1.Karpenter`
pub record Karpenter : Type 0 where
  pub name : String
  pub uid : String
  pub annotations : Dict String String
  pub log_level : String

-- `OCPControllerConfig`, with the embedded `assets.CoreRBAC` and the pull policy that
-- `NewOCPController` sets.
pub record OcpControllerConfig : Type 0 where
  pub namespace : String
  pub karpenter_image : String
  pub cluster_name : String
  pub cluster_endpoint : String
  pub cloud_provider : CloudProvider
  pub core_rbac : RbacAssets
  pub image_pull_policy : String

-- `ocpOwnerRef`
unfoldable pub ocp_owner_ref : Karpenter → OwnerRef
ocp_owner_ref owner = record {
  api_version = "autoscaling.openshift.io/v1alpha1";
  kind = "Karpenter";
  name = owner.name;
  uid = owner.uid;
  block_owner_deletion = true;
  controller = true;
}

-- `operandImagePullPolicy`
unfoldable pub operand_image_pull_policy : Environment → String
operand_image_pull_policy env =
    if get_text "DEV_IMAGE_PULL_POLICY" env == "Always" then "Always" else "IfNotPresent"

module _ (config : OcpControllerConfig) where
  -- The RBAC objects that `Reconcile` applies: those of the operand, then those of the cloud.
  unfoldable pub all_roles : List Role
  all_roles = config.core_rbac.roles ++ config.cloud_provider.rbac.roles

  unfoldable pub all_role_bindings : List RoleBinding
  all_role_bindings = config.core_rbac.role_bindings ++ config.cloud_provider.rbac.role_bindings

  unfoldable pub all_cluster_roles : List Role
  all_cluster_roles = config.core_rbac.cluster_roles ++ config.cloud_provider.rbac.cluster_roles

  unfoldable pub all_cluster_role_bindings : List RoleBinding
  all_cluster_role_bindings =
      config.core_rbac.cluster_role_bindings ++ config.cloud_provider.rbac.cluster_role_bindings

  -- The operand's settings in `Reconcile`, with its image.
  unfoldable pub operand_config : Karpenter → String → OperandConfig
  operand_config karp image = record {
    namespace = config.namespace;
    karpenter_image = image;
    cluster_name = config.cluster_name;
    cluster_endpoint = config.cluster_endpoint;
    cloud_provider = config.cloud_provider;
    image_pull_policy = config.image_pull_policy;
    log_level_arg = arg karp.log_level;
    release_version = "";
    default_security_context_uid = none;
    additional_labels = [];
    additional_env = [];
    additional_volume_mounts = [];
    additional_volumes = [];
    additional_init_containers = [];
  }

  unfoldable pub operand_image : Karpenter → String
  operand_image karp =
      image_or_override (get_text karpenter_image_override_annotation karp.annotations)
        config.karpenter_image

  -- The watches of `SetupWithManager`: whether an object asks for a reconcile. They are those of Secrets,
  -- by namespace and name, of ClusterRoles and of ClusterRoleBindings, by name.
  unfoldable pub watches_secret : String → String → Bool
  watches_secret namespace name =
      if namespace != config.namespace
        || name != config.cloud_provider.operand_config.credentials_secret_name
      then false
      else true

  unfoldable pub watches_cluster_role : String → Bool
  unfolding all_cluster_roles
  watches_cluster_role name = any (λ r. r.name == name) all_cluster_roles

  unfoldable pub watches_cluster_role_binding : String → Bool
  unfolding all_cluster_role_bindings
  watches_cluster_role_binding name = any (λ b. b.name == name) all_cluster_role_bindings

  module _ (deps : Deps Karpenter) where
    open deps use {World}

    -- `Reconcile`, once there is an image.
    unfoldable pub deploy : Karpenter → M World (Event Karpenter) Requeue
    deploy karp =
        let owner = ocp_owner_ref karp in
        let ns = config.namespace in
        let cfg = operand_config karp (operand_image karp) in
        do
          context "reconciling ServiceAccount" (apply_service_account deps ns owner)
          context "reconciling ClusterRoles" (apply_cluster_roles deps owner all_cluster_roles)
          context "reconciling ClusterRoleBindings"
              (apply_cluster_role_bindings deps ns owner all_cluster_role_bindings)
          context "reconciling Roles" (apply_roles deps ns owner all_roles)
          context "reconciling RoleBindings" (apply_role_bindings deps ns owner all_role_bindings)
          context "reconciling Deployment" (apply_deployment deps cfg owner)
          context "reconciling PodMonitor" (apply_pod_monitor deps cfg owner)
          pure finished

    unfoldable pub after_get : Result Karpenter → M World (Event Karpenter) Requeue
    after_get (err e) = if is_not_found e then pure finished else fail e
    after_get (ok karp) =
        if operand_image karp == ""
        then fail (message "karpenter image is not set")
        else deploy karp

    -- `Reconcile`
    unfoldable pub reconcile : M World (Event Karpenter) Requeue
    reconcile = do karp ← attempt (call deps.get got); after_get karp
