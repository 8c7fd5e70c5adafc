-- ===== src/Operand/Hcp.antt =====
-- pkg/controllers/karpenter/hcp_controller.go: the operand of a hosted cluster, beside its control plane.
pub mod Planned
pub mod Unchanged
pub mod Sound
use openshift_karpenter_oper.Base.{
  ℕ, String, ◌<>◌, Bool, true, false, ◌||◌, ◌&&◌, not, Option, none, some, List, [], ◌∷◌, M, Result,
  ok, err, message, pure, fail, call, attempt, context, ◌>>=◌, ◌>>◌, is_not_found, if◌then◌else◌,
  ◌==◌, ◌!=◌, string_eq,
}
use openshift_karpenter_oper.Kube.{
  HostedControlPlane, KarpenterConfig, Requeue, finished, requeue_after,
}
use openshift_karpenter_oper.Hypershift.UserData.{
  get_text, WatchEvent, created, updated, deleted, generic,
}
use openshift_karpenter_oper.DefaultNodeClass.{provisioner_karpenter}
use openshift_karpenter_oper.Options.{ℤ}
use openshift_karpenter_oper.CloudProvider.{
  CloudProvider, secret, empty_dir, kubeconfig_env_name, disable_leader_election_env_name,
}
use openshift_karpenter_oper.Operand.{OwnerRef, InitContainer, OperandConfig}
use openshift_karpenter_oper.Operand.Apply.{
  Event, got, Deps, apply_service_account, apply_deployment, apply_pod_monitor,
}

abbrev pub target_kubeconfig_volume_name : String
target_kubeconfig_volume_name = "target-kubeconfig"

abbrev pub target_kubeconfig_mount_path : String
target_kubeconfig_mount_path = "/mnt/kubeconfig"

abbrev pub target_kubeconfig_file_path : String
target_kubeconfig_file_path = "target-kubeconfig"

abbrev pub target_kubeconfig_secret_key : String
target_kubeconfig_secret_key = "value"

abbrev pub cloud_token_volume_name : String
cloud_token_volume_name = "cloud-token"

abbrev pub cloud_token_mount_path : String
cloud_token_mount_path = "/var/run/secrets/openshift/serviceaccount"

abbrev pub cloud_token_file_path : String
cloud_token_file_path = cloud_token_mount_path <> "/token"

abbrev pub target_service_account_namespace : String
target_service_account_namespace = "kube-system"

abbrev pub target_service_account_name : String
target_service_account_name = "karpenter"

abbrev pub karpenter_deployment_name : String
karpenter_deployment_name = "karpenter"

abbrev pub karpenter_image_override_annotation : String
karpenter_image_override_annotation = "autoscaling.openshift.io/karpenter-image"

-- `HCPControllerConfig`
pub record HcpControllerConfig : Type 0 where
  pub namespace : String
  pub karpenter_image : String
  pub cluster_name : String
  pub cluster_endpoint : String
  pub cloud_provider : CloudProvider
  pub token_minter_image : String
  pub default_security_context_uid : Option ℤ

-- `hcpOwnerRef`
unfoldable pub hcp_owner_ref : HostedControlPlane → OwnerRef
hcp_owner_ref hcp = record {
  api_version = "hypershift.openshift.io/v1beta1";
  kind = "HostedControlPlane";
  name = hcp.name;
  uid = hcp.uid;
  block_owner_deletion = true;
  controller = true;
}

-- `tokenMinterContainer`
unfoldable pub token_minter_container : String → InitContainer
token_minter_container image = record {
  name = "token-minter";
  image = image;
  command = "/usr/bin/control-plane-operator" ∷ "token-minter" ∷ [];
  args =
      ("--service-account-namespace=" <> target_service_account_namespace)
      ∷ ("--service-account-name=" <> target_service_account_name)
      ∷ ("--token-file=" <> cloud_token_file_path)
      ∷ ("--kubeconfig=" <> (target_kubeconfig_mount_path <> ("/" <> target_kubeconfig_file_path)))
      ∷ [];
  image_pull_policy = "IfNotPresent";
  requests = ("cpu", "10m") ∷ ("memory", "30Mi") ∷ [];
  restart_policy = "Always";
  startup_probe = record {
    command = "test" ∷ "-f" ∷ cloud_token_file_path ∷ [];
    period_seconds = 1;
    failure_threshold = 30;
  };
  volume_mounts =
      record {
        name = target_kubeconfig_volume_name;
        mount_path = target_kubeconfig_mount_path;
        read_only = false;
      }
      ∷ record {
        name = cloud_token_volume_name;
        mount_path = cloud_token_mount_path;
        read_only = false;
      }
      ∷ [];
}

-- An image, unless an annotation overrides it; both controllers choose theirs so.
unfoldable pub image_or_override : String → String → String
image_or_override annotation image = if annotation != "" then annotation else image

-- `hcpOperandChanged`, of two objects that are not nil. `spec.autoNode` is compared field by field.
unfoldable pub auto_node_changed : HostedControlPlane → HostedControlPlane → Bool
auto_node_changed old new =
    old.provisioner_name != new.provisioner_name
    || old.karpenter_config.platform != new.karpenter_config.platform
    || old.karpenter_config.aws_role_arn != new.karpenter_config.aws_role_arn
    || old.karpenter_config.azure_client_id != new.karpenter_config.azure_client_id

unfoldable pub hcp_operand_changed : HostedControlPlane → HostedControlPlane → Bool
unfolding auto_node_changed
hcp_operand_changed old new =
    (old.infra_id != new.infra_id || auto_node_changed old new)
    || old.control_plane_version.desired_version != new.control_plane_version.desired_version
    || get_text karpenter_image_override_annotation old.annotations
      != get_text karpenter_image_override_annotation new.annotations

-- `hcpOperandReconcilePredicate`. A function that is not set passes its events.
unfoldable pub hcp_operand_reconcile_predicate : WatchEvent HostedControlPlane → Bool
hcp_operand_reconcile_predicate (created _) = true
hcp_operand_reconcile_predicate (deleted _) = true
hcp_operand_reconcile_predicate (generic _) = true
hcp_operand_reconcile_predicate (updated old new) = hcp_operand_changed old new

-- `karpenterFilterPredicate`, of the name of an object that the HostedControlPlane owns.
unfoldable pub karpenter_filter_predicate : String → Bool
karpenter_filter_predicate name = name == karpenter_deployment_name

module _ (config : HcpControllerConfig) where
  -- The operand's settings in `Reconcile`, with its image.
  unfoldable pub operand_config : HostedControlPlane → String → OperandConfig
  operand_config hcp image = record {
    namespace = config.namespace;
    karpenter_image = image;
    cluster_name = config.cluster_name;
    cluster_endpoint = config.cluster_endpoint;
    cloud_provider = config.cloud_provider;
    image_pull_policy = "IfNotPresent";
    log_level_arg = "--log-level=debug";
    release_version = hcp.control_plane_version.desired_version;
    default_security_context_uid = config.default_security_context_uid;
    additional_labels = [];
    additional_env =
        record {
          name = kubeconfig_env_name;
          value = target_kubeconfig_mount_path <> ("/" <> target_kubeconfig_file_path);
        }
        ∷ record { name = disable_leader_election_env_name; value = "true" }
        ∷ [];
    additional_volume_mounts =
        record {
          name = target_kubeconfig_volume_name;
          mount_path = target_kubeconfig_mount_path;
          read_only = true;
        }
        ∷ record {
          name = cloud_token_volume_name;
          mount_path = cloud_token_mount_path;
          read_only = false;
        }
        ∷ [];
    additional_volumes =
        record {
          name = target_kubeconfig_volume_name;
          source = secret (hcp.infra_id <> "-kubeconfig") (some 416) (
              record { key = target_kubeconfig_secret_key; path = target_kubeconfig_file_path }
              ∷ []);
        }
        ∷ record { name = cloud_token_volume_name; source = empty_dir }
        ∷ [];
    additional_init_containers = token_minter_container config.token_minter_image ∷ [];
  }

  -- The image of the operand.
  unfoldable pub operand_image : HostedControlPlane → String
  operand_image hcp =
      image_or_override (get_text karpenter_image_override_annotation hcp.annotations)
        config.karpenter_image

  module _ (deps : Deps HostedControlPlane) where
    open deps use {World}

    -- `Reconcile`, once all that the operand needs is there.
    unfoldable pub deploy : HostedControlPlane → M World (Event HostedControlPlane) Requeue
    deploy hcp =
        let cfg = operand_config hcp (operand_image hcp) in
        do
          context "reconciling ServiceAccount"
              (apply_service_account deps config.namespace (hcp_owner_ref hcp))
          context "reconciling Deployment" (apply_deployment deps cfg (hcp_owner_ref hcp))
          context "reconciling PodMonitor" (apply_pod_monitor deps cfg (hcp_owner_ref hcp))
          pure finished

    unfoldable pub reconcile_hcp : HostedControlPlane → M World (Event HostedControlPlane) Requeue
    reconcile_hcp hcp =
        if hcp.provisioner_name != provisioner_karpenter
        then pure finished
        else if hcp.control_plane_version.desired_version == ""
        then pure (requeue_after 5)
        else if operand_image hcp == ""
        then fail (message "karpenter image is not set")
        else deploy hcp

    unfoldable pub after_get :
        Result HostedControlPlane → M World (Event HostedControlPlane) Requeue
    after_get (err e) = if is_not_found e then pure finished else fail e
    after_get (ok hcp) = reconcile_hcp hcp

    -- `Reconcile`
    unfoldable pub reconcile : M World (Event HostedControlPlane) Requeue
    reconcile = do hcp ← attempt (call deps.get got); after_get hcp
