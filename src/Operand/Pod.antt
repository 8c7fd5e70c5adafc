-- ===== src/Operand/Pod.antt =====
-- pkg/controllers/karpenter/deployment.go and podmonitor.go: the Deployment of the operand and its pods.
pub mod Parts
pub mod Keys
pub mod Builds
use openshift_karpenter_oper.Base.{
  ℕ, zero, suc, String, Bool, true, false, Option, none, some, List, [], ◌∷◌, ◌++◌, Result, ok, err,
  message, if◌then◌else◌, ◌==◌, ◌!=◌, string_eq, is_empty,
}
use openshift_karpenter_oper.Base.Checked.{◌>>=◌}
use openshift_karpenter_oper.Base.Dict.{Dict, insert}
use openshift_karpenter_oper.Options.{
  ℤ, pos, negsuc, cluster_name_env_name, cluster_endpoint_env_name,
}
use openshift_karpenter_oper.CloudProvider.{
  EnvVar, Volume, VolumeMount, OperandCloudConfig, system_namespace_env_name,
  disable_webhook_env_name, health_probe_port_env_name,
}
use openshift_karpenter_oper.Operand.{
  OwnerRef, EnvVarApply, HttpProbe, InitContainer, ContainerPort, Container, PodSecurityContext,
  PodSpec, Deployment, PodMonitor, OperandConfig, karpenter_name, default_metrics_port,
  default_health_probe_port, metrics_port_name, health_probe_port_name,
  karpenter_pod_termination_grace_period_seconds, karpenter_pod_priority_class_name, app_label_key,
  target_workload_management_annotation, target_workload_scheduling_priority,
  default_health_probe_port_str,
}
use openshift_karpenter_oper.Operand.Convert.{
  Codecs, env_vars, volumes, volume_mounts, init_containers,
}

-- `karpenterSelector`, and the labels that the Deployment's pods are selected by.
abbrev pub karpenter_selector : Dict String String
karpenter_selector = (app_label_key, karpenter_name) ∷ []

-- `lo.Assign` of two maps.
unfoldable pub assign : Dict String String → Dict String String → Dict String String
assign m [] = m
assign m ((k, v) ∷ more) = assign (insert k v m) more

-- `karpenterPorts`
abbrev pub karpenter_ports : List ContainerPort
karpenter_ports =
    record { name = metrics_port_name; container_port = default_metrics_port; protocol = none }
    ∷ record {
      name = health_probe_port_name;
      container_port = default_health_probe_port;
      protocol = some "TCP";
    }
    ∷ []

-- `karpenterLivenessProbe`
abbrev pub karpenter_liveness_probe : HttpProbe
karpenter_liveness_probe = record {
  path = "/healthz";
  port = default_health_probe_port;
  initial_delay_seconds = 30;
  timeout_seconds = 30;
}

-- `karpenterReadinessProbe`
abbrev pub karpenter_readiness_probe : HttpProbe
karpenter_readiness_probe = record {
  path = "/readyz";
  port = default_health_probe_port;
  initial_delay_seconds = 5;
  timeout_seconds = 30;
}

abbrev pub is_positive : ℤ → Bool
is_positive (pos (suc _)) = true
is_positive (pos zero) = false
is_positive (negsuc _) = false

-- The security context of `buildPodSpec`.
unfoldable pub pod_security_context : Option ℤ → Result PodSecurityContext
pod_security_context none = ok (record {
  run_as_non_root = true;
  seccomp_profile = "RuntimeDefault";
  run_as_user = none;
  fs_group = none;
})
pod_security_context (some uid) =
    if is_positive uid
    then ok (record {
      run_as_non_root = true;
      seccomp_profile = "RuntimeDefault";
      run_as_user = some uid;
      fs_group = some uid;
    })
    else err (message "operand security context UID must be positive")

-- The container of `buildPodSpec`, with its environment and its mounts.
unfoldable pub container : OperandConfig → List EnvVarApply → List VolumeMount → Container
container cfg env mounts = record {
  name = karpenter_name;
  image = cfg.karpenter_image;
  image_pull_policy = cfg.image_pull_policy;
  args = cfg.log_level_arg ∷ [];
  env = env;
  ports = karpenter_ports;
  requests = ("cpu", "1") ∷ ("memory", "1Gi") ∷ [];
  allow_privilege_escalation = false;
  dropped_capabilities = "ALL" ∷ [];
  termination_message_policy = "FallbackToLogsOnError";
  liveness_probe = karpenter_liveness_probe;
  readiness_probe = karpenter_readiness_probe;
  volume_mounts = mounts;
}

module _ (cfg : OperandConfig) where
  -- The variables that every operand gets, of `buildEnv`.
  unfoldable pub common_env : List EnvVarApply
  common_env =
      record {
        name = system_namespace_env_name;
        value = none;
        field_path = some "metadata.namespace";
      }
      ∷ record { name = cluster_name_env_name; value = some cfg.cluster_name; field_path = none }
      ∷ record {
        name = cluster_endpoint_env_name;
        value = some cfg.cluster_endpoint;
        field_path = none;
      }
      ∷ record { name = disable_webhook_env_name; value = some "true"; field_path = none }
      ∷ record {
        name = health_probe_port_env_name;
        value = some default_health_probe_port_str;
        field_path = none;
      }
      ∷ []

  -- The Deployment of `buildDeployment` around its pods.
  unfoldable pub deployment_of : OwnerRef → PodSpec → Deployment
  deployment_of owner pod_spec = record {
    name = karpenter_name;
    namespace = cfg.namespace;
    owner = owner;
    labels =
        (app_label_key, karpenter_name)
        ∷ ("hypershift.openshift.io/managed-by", "karpenter-operator")
        ∷ [];
    annotations =
        if cfg.release_version != ""
        then ("release.openshift.io/version", cfg.release_version) ∷ []
        else [];
    replicas = 1;
    selector = karpenter_selector;
    pod_annotations =
        (target_workload_management_annotation, target_workload_scheduling_priority)
        ∷ ("openshift.io/required-scc", "restricted-v2")
        ∷ [];
    pod_labels = assign karpenter_selector cfg.additional_labels;
    pod_spec = pod_spec;
  }

module _ (codecs : Codecs) (cfg : OperandConfig) where
  -- `buildEnv`
  unfoldable pub build_env : OperandCloudConfig → Result (List EnvVarApply)
  unfolding common_env
  build_env cloud = do cloud_env ← env_vars codecs cloud.env; ok (common_env cfg ++ cloud_env)

  -- `buildPodSpec`
  unfoldable pub build_pod_spec : Result PodSpec
  build_pod_spec =
      let cloud = cfg.cloud_provider.operand_config in
      do
        env ← build_env cloud
        cloud_mounts ← volume_mounts codecs cloud.volume_mounts
        additional_mounts ← volume_mounts codecs cfg.additional_volume_mounts
        cloud_vols ← volumes codecs cloud.volumes
        additional_vols ← volumes codecs cfg.additional_volumes
        additional_env ← env_vars codecs cfg.additional_env
        inits ← init_containers codecs cfg.additional_init_containers
        security_context ← pod_security_context cfg.default_security_context_uid
        ok (record {
          priority_class_name = karpenter_pod_priority_class_name;
          service_account_name = karpenter_name;
          termination_grace_period_seconds = karpenter_pod_termination_grace_period_seconds;
          security_context = security_context;
          init_containers = inits;
          container = container cfg (env ++ additional_env) (cloud_mounts ++ additional_mounts);
          volumes = cloud_vols ++ additional_vols;
        })

  -- `buildDeployment`
  unfoldable pub build_deployment : OwnerRef → Result Deployment
  unfolding deployment_of
  build_deployment owner = do pod_spec ← build_pod_spec; ok (deployment_of cfg owner pod_spec)

-- `buildPodMonitor`
unfoldable pub build_pod_monitor : OperandConfig → OwnerRef → PodMonitor
build_pod_monitor cfg owner = record {
  name = karpenter_name;
  namespace = cfg.namespace;
  owner = owner;
  selector = karpenter_selector;
  port = metrics_port_name;
  path = "/metrics";
  scheme = "http";
}
