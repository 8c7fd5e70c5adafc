-- ===== src/CloudProvider/Aws.antt =====
-- pkg/cloudprovider/aws: the provider for AWS, as far as the operand needs it.
use openshift_karpenter_oper.Base.{
  String, true, none, some, [], ◌∷◌, Result, ok, err, message, wrapped, if◌then◌else◌, ◌==◌,
  string_eq,
}
use openshift_karpenter_oper.Base.Checked.{◌>>=◌}
use openshift_karpenter_oper.Hypershift.UserData.{get_text}
use openshift_karpenter_oper.CloudProvider.{
  secret, OperandCloudConfig, CloudProvider, Assets, ec2_node_class, InfrastructureInfo,
  Environment, require_env,
}

abbrev pub karpenter_image_env_name : String
karpenter_image_env_name = "KARPENTER_IMAGE_AWS"

abbrev pub aws_shared_auth_file_env_name : String
aws_shared_auth_file_env_name = "AWS_SHARED_CREDENTIALS_FILE"

abbrev pub operand_credentials_secret : String
operand_credentials_secret = "karpenter-credentials"

-- `OperandConfig`, by the provider's region.
unfoldable pub operand_config : String → OperandCloudConfig
operand_config region = record {
  credentials_secret_name = operand_credentials_secret;
  env =
      record { name = "AWS_REGION"; value = region }
      ∷ record { name = "AWS_SHARED_CREDENTIALS_FILE"; value = "/etc/provider/credentials" }
      ∷ record { name = "AWS_SDK_LOAD_CONFIG"; value = "true" }
      ∷ [];
  volumes =
      record { name = "provider-creds"; source = secret operand_credentials_secret none [] } ∷ [];
  volume_mounts =
      record { name = "provider-creds"; mount_path = "/etc/provider"; read_only = true } ∷ [];
}

-- `New`, where `load` is the answer of the AWS library's `LoadDefaultConfig` and `assets` are the
-- embedded objects. The EC2 client is that of the node identity verifier.
unfoldable pub new :
    Environment → Result (Unit {0}) → Assets → InfrastructureInfo → Result CloudProvider
new env load assets infra = if infra.region == "" then err (message "region not available") else do
  _ ← require_env env aws_shared_auth_file_env_name
  _ ← wrapped "loading AWS config" load
  ok (record {
    karpenter_image = get_text karpenter_image_env_name env;
    operand_config = operand_config infra.region;
    hcp_node_class_provider =
        some (record { crds = assets.aws_hcp_crds; controllers = ec2_node_class ∷ [] });
    crds = assets.aws_crds;
    has_node_identity_verifier = true;
    rbac = assets.aws_rbac_assets;
    related_objects =
        record {
          group = "karpenter.k8s.aws";
          resource = "ec2nodeclasses";
          name = "";
          namespace = "";
        }
        ∷ [];
  })
