-- ===== src/Azure/Types.antt =====
-- api/karpenter/v1alpha1 and pkg/controllers/nodeclass/azure: the OpenShiftAzureNodeClass, and the spec of its
-- AKSNodeClass.
use openshift_karpenter_oper.Base.{
  ℕ, String, Bool, ◌&&◌, Option, none, some, List, if◌then◌else◌, ◌==◌, ◌!=◌, string_eq, nat_eq,
  is_some,
}
use openshift_karpenter_oper.Base.Dict.{Dict}
use openshift_karpenter_oper.Kube.{Condition, HostedControlPlane, Secret}
use openshift_karpenter_oper.Hypershift.{waits_for_control_plane_upgrade}
use openshift_karpenter_oper.Hypershift.UserData.{get_text}
use openshift_karpenter_oper.Ec2.Types.{KubeletConfiguration}

abbrev pub azure_host_encryption_enabled : String
azure_host_encryption_enabled = "Enabled"

abbrev pub default_os_disk_size_gib : ℕ
default_os_disk_size_gib = 120

-- `OpenShiftAzureNodeClassSpec`, with `spec.security.encryption.hostEncryption` as a field.
pub record OpenshiftAzureNodeClassSpec : Type 0 where
  pub vnet_subnet_id : String
  pub os_disk_size_gib : ℕ
  pub tags : Option (Dict String String)
  pub kubelet : KubeletConfiguration
  pub host_encryption : String
  pub version : String

pub record OpenshiftAzureNodeClassStatus : Type 0 where
  pub conditions : List Condition
  pub release_image : String
  pub version : String

pub record OpenshiftAzureNodeClass : Type 0 where
  pub name : String
  pub generation : ℕ
  pub deletion_timestamp : Option ℕ
  pub finalizers : List String
  pub spec : OpenshiftAzureNodeClassSpec
  pub status : OpenshiftAzureNodeClassStatus

-- The provider's `MarketplaceImage`, `AKSNodeClassSpec` with the fields that are set, and `AKSNodeClass`.
pub record MarketplaceImage : Type 0 where
  pub publisher : String
  pub offer : String
  pub sku : String
  pub version : String

pub record AksNodeClassSpec : Type 0 where
  pub vnet_subnet_id : Option String
  pub image_family : Option String
  pub os_disk_size_gb : Option ℕ
  pub tags : Option (Dict String String)
  pub max_pods : Option ℕ
  pub encryption_at_host : Option Bool
  pub user_data : Option String
  pub marketplace_image : Option MarketplaceImage

pub record AksNodeClass : Type 0 where
  pub name : String
  pub owner : Option String
  pub spec : AksNodeClassSpec
  pub conditions : List Condition

-- `lo.EmptyableToPtr` of a text and of a number.
unfoldable pub text_to_ptr : String → Option String
text_to_ptr s = if s == "" then none else some s

unfoldable pub number_to_ptr : ℕ → Option ℕ
number_to_ptr n = if n == 0 then none else some n

-- `aksNodeClassSpec`
unfoldable pub aks_node_class_spec : OpenshiftAzureNodeClassSpec → AksNodeClassSpec
unfolding text_to_ptr number_to_ptr
aks_node_class_spec spec = record {
  vnet_subnet_id = text_to_ptr spec.vnet_subnet_id;
  image_family = some "Ubuntu";
  os_disk_size_gb =
      some (if spec.os_disk_size_gib != 0 then spec.os_disk_size_gib else default_os_disk_size_gib);
  tags = spec.tags;
  max_pods = number_to_ptr spec.kubelet.max_pods;
  encryption_at_host = some (spec.host_encryption == azure_host_encryption_enabled);
  user_data = none;
  marketplace_image = none;
}

-- `marketplaceImageFromUserDataSecret`
unfoldable pub marketplace_image_from_user_data_secret : Secret → MarketplaceImage
marketplace_image_from_user_data_secret secret = record {
  publisher = get_text "hypershift.openshift.io/azure-marketplace-publisher" secret.labels;
  offer = get_text "hypershift.openshift.io/azure-marketplace-offer" secret.labels;
  sku = get_text "hypershift.openshift.io/azure-marketplace-sku" secret.labels;
  version = get_text "hypershift.openshift.io/azure-marketplace-version" secret.labels;
}

-- Whether the current user data and image are kept.
unfoldable pub keeps_release :
    AksNodeClassSpec → OpenshiftAzureNodeClass → HostedControlPlane → Bool
keeps_release current openshift hcp =
    waits_for_control_plane_upgrade hcp openshift.spec.version
    && (is_some current.user_data && is_some current.marketplace_image)

-- The spec that `reconcileAKSNodeClass` gives the AKSNodeClass.
unfoldable pub desired_spec :
    OpenshiftAzureNodeClass → HostedControlPlane → Secret → AksNodeClassSpec → AksNodeClassSpec
unfolding keeps_release
desired_spec openshift hcp secret current =
    let fresh = aks_node_class_spec openshift.spec in
    if keeps_release current openshift hcp
    then record fresh {
      user_data = current.user_data;
      marketplace_image = current.marketplace_image;
    }
    else record fresh {
      user_data = some (get_text "value" secret.contents);
      marketplace_image = some (marketplace_image_from_user_data_secret secret);
    }
