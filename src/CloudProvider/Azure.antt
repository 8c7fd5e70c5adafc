-- ===== src/CloudProvider/Azure.antt =====
-- pkg/cloudprovider/azure: the provider for Azure, as far as the operand needs it.
use openshift_karpenter_oper.Base.{
  String, false, some, [], ◌∷◌, Result, ok, err, message, if◌then◌else◌, ◌==◌, string_eq,
}
use openshift_karpenter_oper.Base.Checked.{◌>>=◌}
use openshift_karpenter_oper.Hypershift.UserData.{get_text}
use openshift_karpenter_oper.CloudProvider.{
  OperandCloudConfig, CloudProvider, Assets, azure_node_class, azure_vap, InfrastructureInfo,
  Environment, require_env,
}

abbrev pub karpenter_image_env_name : String
karpenter_image_env_name = "KARPENTER_IMAGE_AZURE"

abbrev pub azure_client_id_env_name : String
azure_client_id_env_name = "AZURE_CLIENT_ID"

abbrev pub azure_tenant_id_env_name : String
azure_tenant_id_env_name = "AZURE_TENANT_ID"

abbrev pub azure_subscription_id_env_name : String
azure_subscription_id_env_name = "AZURE_SUBSCRIPTION_ID"

abbrev pub azure_federated_token_file_env_name : String
azure_federated_token_file_env_name = "AZURE_FEDERATED_TOKEN_FILE"

abbrev pub azure_vnet_subnet_id_env_name : String
azure_vnet_subnet_id_env_name = "VNET_SUBNET_ID"

abbrev pub azure_node_resource_group_env_name : String
azure_node_resource_group_env_name = "AZURE_NODE_RESOURCE_GROUP"

abbrev pub azure_location_env_name : String
azure_location_env_name = "LOCATION"

abbrev pub azure_provision_mode_env_name : String
azure_provision_mode_env_name = "PROVISION_MODE"

pub record Provider : Type 0 where
  pub region : String
  pub karpenter_image : String
  pub client_id : String
  pub tenant_id : String
  pub subscription_id : String
  pub federated_token_file : String
  pub vnet_subnet_id : String
  pub node_resource_group : String

-- `OperandConfig`
unfoldable pub operand_config : Provider → OperandCloudConfig
operand_config p = record {
  credentials_secret_name = "";
  env =
      record { name = azure_location_env_name; value = p.region }
      ∷ record { name = azure_client_id_env_name; value = p.client_id }
      ∷ record { name = azure_tenant_id_env_name; value = p.tenant_id }
      ∷ record { name = azure_subscription_id_env_name; value = p.subscription_id }
      ∷ record { name = azure_federated_token_file_env_name; value = p.federated_token_file }
      ∷ record { name = azure_vnet_subnet_id_env_name; value = p.vnet_subnet_id }
      ∷ record { name = azure_node_resource_group_env_name; value = p.node_resource_group }
      ∷ record { name = azure_provision_mode_env_name; value = "openshift" }
      ∷ [];
  volumes = [];
  volume_mounts = [];
}

-- `New`, up to the provider.
unfoldable pub settings : Environment → InfrastructureInfo → Result Provider
settings env infra = if infra.region == "" then err (message "region not available") else do
  client_id ← require_env env azure_client_id_env_name
  tenant_id ← require_env env azure_tenant_id_env_name
  subscription_id ← require_env env azure_subscription_id_env_name
  federated_token_file ← require_env env azure_federated_token_file_env_name
  vnet_subnet_id ← require_env env azure_vnet_subnet_id_env_name
  node_resource_group ← require_env env azure_node_resource_group_env_name
  ok (record {
    region = infra.region;
    karpenter_image = get_text karpenter_image_env_name env;
    client_id = client_id;
    tenant_id = tenant_id;
    subscription_id = subscription_id;
    federated_token_file = federated_token_file;
    vnet_subnet_id = vnet_subnet_id;
    node_resource_group = node_resource_group;
  })

-- What the provider's methods answer: it has no RBAC of its own.
unfoldable pub provider : Assets → Provider → CloudProvider
provider assets p = record {
  hcp_node_class_provider =
      some
        (record { crds = assets.azure_hcp_crds; controllers = azure_node_class ∷ azure_vap ∷ [] });
  crds = assets.azure_crds;
  has_node_identity_verifier = false;
  karpenter_image = p.karpenter_image;
  operand_config = operand_config p;
  rbac = record { roles = []; role_bindings = []; cluster_roles = []; cluster_role_bindings = [] };
  related_objects =
      record {
        group = "karpenter.azure.com";
        resource = "aksnodeclasses";
        name = "";
        namespace = "";
      }
      ∷ [];
}
