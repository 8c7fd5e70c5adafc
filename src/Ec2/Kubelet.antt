-- ===== src/Ec2/Kubelet.antt =====
-- api/karpenter/v1/kubelet_config.go: when a kubelet configuration is set, and its fields as JSON.
pub mod Json
pub mod PassThrough
use openshift_karpenter_oper.Base.{Bool, not, ◌&&◌, ◌||◌, ◌!=◌, ◌==◌, nat_eq, string_eq, is_some}
use openshift_karpenter_oper.Ec2.Types.{KubeletConfiguration}

-- `HasTypedFields`
unfoldable pub has_typed_fields : KubeletConfiguration → Bool
has_typed_fields k =
    k.max_pods != 0
    || k.pods_per_core != 0
    || is_some k.system_reserved
    || is_some k.kube_reserved
    || is_some k.eviction_hard
    || is_some k.eviction_soft
    || is_some k.eviction_soft_grace_period
    || is_some k.eviction_max_pod_grace_period
    || is_some k.image_gc_high_threshold_percent
    || is_some k.image_gc_low_threshold_percent
    || is_some k.cpu_cfs_quota

-- `IsZero`
unfoldable pub is_zero : KubeletConfiguration → Bool
unfolding has_typed_fields
is_zero k = not (has_typed_fields k) && k.overflow == ""
