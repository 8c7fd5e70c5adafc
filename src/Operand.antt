-- ===== src/Operand.antt =====
-- pkg/controllers/karpenter/config.go: the operand, that is the Karpenter that the operator deploys, and
-- the objects it consists of. An apply configuration has the fields that the operator sets.
pub mod Convert
pub mod Pod
pub mod Apply
pub mod Rollout
pub mod Hcp
pub mod Ocp
pub mod Fits
use openshift_karpenter_oper.Base.{ℕ, String, Bool, Option, List, itoa}
use openshift_karpenter_oper.Base.Dict.{Dict}
use openshift_karpenter_oper.Options.{ℤ}
use openshift_karpenter_oper.CloudProvider.{
  EnvVar, Volume, VolumeMount, PolicyRule, RoleRef, CloudProvider,
}

abbrev pub karpenter_name : String
karpenter_name = "karpenter"

abbrev pub default_metrics_port : ℕ
default_metrics_port = 8080

abbrev pub default_health_probe_port : ℕ
default_health_probe_port = 8081

abbrev pub metrics_port_name : String
metrics_port_name = "metrics"

abbrev pub health_probe_port_name : String
health_probe_port_name = "http"

abbrev pub karpenter_pod_termination_grace_period_seconds : ℕ
karpenter_pod_termination_grace_period_seconds = 10

abbrev pub karpenter_pod_priority_class_name : String
karpenter_pod_priority_class_name = "system-node-critical"

abbrev pub app_label_key : String
app_label_key = "app"

abbrev pub target_workload_management_annotation : String
target_workload_management_annotation = "target.workload.openshift.io/management"

abbrev pub target_workload_scheduling_priority : String
target_workload_scheduling_priority = "{\"effect\": \"PreferredDuringScheduling\"}"

abbrev pub default_health_probe_port_str : String
default_health_probe_port_str = itoa default_health_probe_port

-- A controller's reference to the object that owns what it applies.
pub record OwnerRef : Type 0 where
  pub api_version : String
  pub kind : String
  pub name : String
  pub uid : String
  pub block_owner_deletion : Bool
  pub controller : Bool

-- An environment variable of the operand: its value, or the field of the pod that it is read from.
pub record EnvVarApply : Type 0 where
  pub name : String
  pub value : Option String
  pub field_path : Option String

-- An HTTP probe, or one by a command.
pub record HttpProbe : Type 0 where
  pub path : String
  pub port : ℕ
  pub initial_delay_seconds : ℕ
  pub timeout_seconds : ℕ

pub record ExecProbe : Type 0 where
  pub command : List String
  pub period_seconds : ℕ
  pub failure_threshold : ℕ

-- The init container, both as `corev1.Container` and as its apply configuration.
pub record InitContainer : Type 0 where
  pub name : String
  pub image : String
  pub command : List String
  pub args : List String
  pub image_pull_policy : String
  pub requests : Dict String String
  pub restart_policy : String
  pub startup_probe : ExecProbe
  pub volume_mounts : List VolumeMount

pub record ContainerPort : Type 0 where
  pub name : String
  pub container_port : ℕ
  pub protocol : Option String

-- The operand's container.
pub record Container : Type 0 where
  pub name : String
  pub image : String
  pub image_pull_policy : String
  pub args : List String
  pub env : List EnvVarApply
  pub ports : List ContainerPort
  pub requests : Dict String String
  pub allow_privilege_escalation : Bool
  pub dropped_capabilities : List String
  pub termination_message_policy : String
  pub liveness_probe : HttpProbe
  pub readiness_probe : HttpProbe
  pub volume_mounts : List VolumeMount

pub record PodSecurityContext : Type 0 where
  pub run_as_non_root : Bool
  pub seccomp_profile : String
  pub run_as_user : Option ℤ
  pub fs_group : Option ℤ

pub record PodSpec : Type 0 where
  pub priority_class_name : String
  pub service_account_name : String
  pub termination_grace_period_seconds : ℕ
  pub security_context : PodSecurityContext
  pub init_containers : List InitContainer
  pub container : Container
  pub volumes : List Volume

-- The Deployment. Annotations that are not set are the empty map.
pub record Deployment : Type 0 where
  pub name : String
  pub namespace : String
  pub owner : OwnerRef
  pub labels : Dict String String
  pub annotations : Dict String String
  pub replicas : ℕ
  pub selector : Dict String String
  pub pod_annotations : Dict String String
  pub pod_labels : Dict String String
  pub pod_spec : PodSpec

pub record PodMonitor : Type 0 where
  pub name : String
  pub namespace : String
  pub owner : OwnerRef
  pub selector : Dict String String
  pub port : String
  pub path : String
  pub scheme : String

-- A subject whose namespace is only set for a ServiceAccount.
pub record SubjectApply : Type 0 where
  pub kind : String
  pub name : String
  pub api_group : String
  pub namespace : Option String

-- What the controllers apply.
pub data Object : Type 0 where
  service_account : (name namespace : String) → OwnerRef → Object
  role : (name namespace : String) → OwnerRef → List PolicyRule → Object
  role_binding : (name namespace : String) → OwnerRef → RoleRef → List SubjectApply → Object
  cluster_role : (name : String) → OwnerRef → Dict String String → List PolicyRule → Object
  cluster_role_binding : (name : String) → OwnerRef → RoleRef → List SubjectApply → Object
  deployment : Deployment → Object
  pod_monitor : PodMonitor → Object

-- `operandConfig`
pub record OperandConfig : Type 0 where
  pub namespace : String
  pub karpenter_image : String
  pub cluster_name : String
  pub cluster_endpoint : String
  pub cloud_provider : CloudProvider
  pub image_pull_policy : String
  pub log_level_arg : String
  pub release_version : String
  pub default_security_context_uid : Option ℤ
  pub additional_labels : Dict String String
  pub additional_env : List EnvVar
  pub additional_volume_mounts : List VolumeMount
  pub additional_volumes : List Volume
  pub additional_init_containers : List InitContainer
