-- ===== src/CloudProvider/Select.antt =====
-- pkg/cloudprovider/cloud.go: the provider of the cluster's platform.
use openshift_karpenter_oper.Base.{◌<>◌, Result, ok, err, message, if◌then◌else◌, ◌==◌, string_eq}
use openshift_karpenter_oper.Base.Checked.{◌>>=◌}
use openshift_karpenter_oper.CloudProvider.{CloudProvider, Assets, InfrastructureInfo, Environment}
use openshift_karpenter_oper.CloudProvider.Aws
use openshift_karpenter_oper.CloudProvider.Azure

-- `GetCloudProvider`
unfoldable pub get_cloud_provider :
    Environment → Result (Unit {0}) → Assets → InfrastructureInfo → Result CloudProvider
get_cloud_provider env load assets infra =
    if infra.platform_type == "AWS"
    then Aws.new env load assets infra
    else if infra.platform_type == "Azure"
    then (Azure.settings env infra >>= λ p. ok (Azure.provider assets p))
    else err (message ("unsupported platform type: " <> infra.platform_type))
