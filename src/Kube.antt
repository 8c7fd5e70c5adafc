-- ===== src/Kube.antt =====
-- The Kubernetes, Karpenter and HyperShift objects, as far as the operator reads and writes them. Their
-- types are not code of the repository; the fields keep the API's names. A time is a number of seconds.
pub mod Finalizers
pub mod Admission
use openshift_karpenter_oper.Base.{ℕ, String, Bool, true, false, Option, List, Result, ok, err}
use openshift_karpenter_oper.Base.Dict.{Dict}

-- `metav1.ConditionStatus`
pub data ConditionStatus : Type 0 where
  condition_true condition_false condition_unknown : ConditionStatus

-- `metav1.Condition`
pub record Condition : Type 0 where
  pub type : String
  pub status : ConditionStatus
  pub observed_generation : ℕ
  pub last_transition_time : ℕ
  pub reason : String
  pub message : String

-- `karpenterv1.NodeClaim`. A quantity is kept as its text.
pub record NodeClaim : Type 0 where
  pub name : String
  pub deletion_timestamp : Option ℕ
  pub annotations : Dict String String
  pub node_name : String
  pub provider_id : String
  pub capacity : Dict String String

-- `karpenterv1.NodePool`
pub record NodePool : Type 0 where
  pub name : String
  pub deletion_timestamp : Option ℕ

-- An entry of `configv1.UpdateHistory`
pub record UpdateHistory : Type 0 where
  pub state : String
  pub image : String
  pub version : String

-- `hcp.Status.ControlPlaneVersion`
pub record ControlPlaneVersion : Type 0 where
  pub desired_image : String
  pub desired_version : String
  pub history : List UpdateHistory

-- `hyperv1beta1.AWSClusterResourceTag`
pub record ResourceTag : Type 0 where
  pub key : String
  pub value : String
  pub override_policy : String

-- `hyperv1beta1.AutoNodeStatus`, whose counts are pointers to `int32`.
pub record AutoNodeStatus : Type 0 where
  pub node_count : Option ℕ
  pub node_claim_count : Option ℕ
  pub vcpus : Option ℕ

-- `hyperv1beta1.KarpenterConfig`, the settings behind `spec.autoNode.provisionerConfig.karpenter`.
pub record KarpenterConfig : Type 0 where
  pub platform : String
  pub aws_role_arn : String
  pub azure_client_id : String

-- `hyperv1beta1.HostedControlPlane`. `resource_tags` is `none` where `spec.platform.aws` is nil;
-- `provisioner_name` and `karpenter_config` are `spec.autoNode`, and `auto_node` is that of the status.
pub record HostedControlPlane : Type 0 where
  pub name : String
  pub namespace : String
  pub uid : String
  pub annotations : Dict String String
  pub finalizers : List String
  pub deletion_timestamp : Option ℕ
  pub infra_id : String
  pub provisioner_name : String
  pub karpenter_config : KarpenterConfig
  pub resource_tags : Option (List ResourceTag)
  pub control_plane_version : ControlPlaneVersion
  pub auto_node : AutoNodeStatus

-- `corev1.Secret`
pub record Secret : Type 0 where
  pub name : String
  pub labels : Dict String String
  pub annotations : Dict String String
  pub contents : Dict String String

-- What a reconcile asks of the queue: `ctrl.Result{}`, or `ctrl.Result{RequeueAfter: n}` in seconds.
pub data Requeue : Type 0 where
  finished : Requeue
  requeue_after : ℕ → Requeue

abbrev pub asks_again : Result Requeue → Bool
asks_again (ok (requeue_after _)) = true
asks_again _ = false
