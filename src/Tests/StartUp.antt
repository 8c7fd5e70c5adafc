-- ===== src/Tests/StartUp.antt =====
-- A start of pkg/operator on a management cluster of AWS.
use openshift_karpenter_oper.Base.{
  ◌≡◌, refl, some, [], ◌∷◌, ok, err, api, not_found, is_ok, true, string_eq,
}
use openshift_karpenter_oper.Base.Dict.{lookup}
use openshift_karpenter_oper.Options.{Options, pos, validate, missing_settings, is_root_or_negative}
use openshift_karpenter_oper.CloudProvider.{Assets, Environment, require_env}
use openshift_karpenter_oper.CloudProvider.Aws
use openshift_karpenter_oper.CloudProvider.Select.{get_cloud_provider}
use openshift_karpenter_oper.Operand.Convert.{to_apply_configuration}
use openshift_karpenter_oper.Operand.Pod.Builds.{Total}
use openshift_karpenter_oper.StartUp.{
  run, run_on, run_with, overridden, discover_infrastructure_from_env, is_platform_supported,
}
use openshift_karpenter_oper.StartUp.Hosted.{HostedStart, run-HostedStart}
use openshift_karpenter_oper.Tests.Operand.{codecs, no_assets, value_of, of_value}

abbrev settings : Options
settings = record {
  namespace = "clusters-one";
  release_version = "4.21";
  cluster_name = "one";
  cluster_endpoint = "https://api.one";
  platform = "AWS";
  region = "us-east-1";
  target_kubeconfig = "/mnt/kubeconfig";
  management_cluster = true;
  token_minter_image = "minter:1";
  default_security_context_uid = some (pos 1001);
  metrics_addr = ":8080";
  probe_addr = ":8081";
  leader_elect = true;
}

abbrev env : Environment
env = ("AWS_SHARED_CREDENTIALS_FILE", "/etc/provider/credentials") ∷ []

abbrev assets : Assets
assets = record {
  core_rbac = no_assets;
  aws_rbac_assets = no_assets;
  core_crds = [];
  aws_crds = [];
  aws_hcp_crds = [];
  azure_crds = [];
  azure_hcp_crds = [];
}

codecs-Total : Total codecs
unfolding to_apply_configuration
codecs-Total = record {
  env = λ x. refl;
  volume = λ x. refl;
  volume_mount = λ x. refl;
  init_container = λ x. refl;
}

settings_pass : validate settings ≡ ok tt
unfolding validate missing_settings is_root_or_negative string_eq
settings_pass = refl

starts : is_ok (run env assets settings (err (api not_found)) (ok tt) (ok tt)) ≡ true
unfolding run run_on run_with overridden discover_infrastructure_from_env is_platform_supported
    get_cloud_provider Aws.new require_env lookup string_eq
starts = refl

run-HostedStart_example :
    HostedStart env assets settings codecs
      (value_of (run env assets settings (err (api not_found)) (ok tt) (ok tt)) starts)
run-HostedStart_example =
    run-HostedStart env assets settings (err (api not_found)) (ok tt) (ok tt) codecs settings_pass
      refl codecs-Total
      (of_value (run env assets settings (err (api not_found)) (ok tt) (ok tt)) starts)
