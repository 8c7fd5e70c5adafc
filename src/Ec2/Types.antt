-- ===== src/Ec2/Types.antt =====
-- api/karpenter/v1: the OpenshiftEC2NodeClass and its kubelet configuration. A string type keeps its
-- texts, a pointer or a nil map is an option, a Go map an association list, and a nil slice the option `none`
-- where the code tells it from an empty one.
use openshift_karpenter_oper.Base.{ℕ, String, Bool, Option, none, List, [], ◌∷◌}
use openshift_karpenter_oper.Base.Dict.{Dict}
use openshift_karpenter_oper.Kube.{Condition}

abbrev pub ip_address_association_public : String
ip_address_association_public = "Public"

abbrev pub ip_address_association_subnet_default : String
ip_address_association_subnet_default = "SubnetDefault"

abbrev pub monitoring_state_detailed : String
monitoring_state_detailed = "Detailed"

abbrev pub monitoring_state_basic : String
monitoring_state_basic = "Basic"

abbrev pub root_volume_designation_root_volume : String
root_volume_designation_root_volume = "RootVolume"

abbrev pub delete_on_termination_policy_delete : String
delete_on_termination_policy_delete = "Delete"

abbrev pub delete_on_termination_policy_retain : String
delete_on_termination_policy_retain = "Retain"

abbrev pub encryption_state_encrypted : String
encryption_state_encrypted = "Encrypted"

abbrev pub encryption_state_unencrypted : String
encryption_state_unencrypted = "Unencrypted"

abbrev pub volume_types : List String
volume_types = "Standard" ∷ "IO1" ∷ "IO2" ∷ "GP2" ∷ "SC1" ∷ "ST1" ∷ "GP3" ∷ []

abbrev pub instance_match_criteria_open : String
instance_match_criteria_open = "Open"

abbrev pub instance_match_criteria_targeted : String
instance_match_criteria_targeted = "Targeted"

abbrev pub metadata_access_http_endpoint : String
metadata_access_http_endpoint = "HTTPEndpoint"

abbrev pub metadata_access_none : String
metadata_access_none = "None"

abbrev pub metadata_http_protocol_ipv4 : String
metadata_http_protocol_ipv4 = "IPv4"

abbrev pub metadata_http_protocol_ipv6 : String
metadata_http_protocol_ipv6 = "IPv6"

abbrev pub metadata_http_tokens_state_required : String
metadata_http_tokens_state_required = "Required"

abbrev pub metadata_http_tokens_state_optional : String
metadata_http_tokens_state_optional = "Optional"

abbrev pub capacity_reservation_type_default : String
capacity_reservation_type_default = "Default"

abbrev pub capacity_reservation_type_capacity_block : String
capacity_reservation_type_capacity_block = "CapacityBlock"

abbrev pub capacity_reservation_state_active : String
capacity_reservation_state_active = "Active"

abbrev pub capacity_reservation_state_expiring : String
capacity_reservation_state_expiring = "Expiring"

pub record Subnet : Type 0 where
  pub id : String
  pub zone : String
  pub zone_id : String

pub record SecurityGroup : Type 0 where
  pub id : String
  pub name : String

pub record SubnetSelectorTerm : Type 0 where
  pub tags : Option (Dict String String)
  pub id : String

pub record SecurityGroupSelectorTerm : Type 0 where
  pub tags : Option (Dict String String)
  pub id : String
  pub name : String

pub record CapacityReservationSelectorTerm : Type 0 where
  pub tags : Option (Dict String String)
  pub id : String
  pub owner_id : String
  pub instance_match_criteria : String

pub record BlockDevice : Type 0 where
  pub delete_on_termination : String
  pub encrypted : String
  pub iops : Option ℕ
  pub kms_key_id : String
  pub snapshot_id : String
  pub throughput : Option ℕ
  pub volume_size_gib : ℕ
  pub volume_type : String

pub record BlockDeviceMapping : Type 0 where
  pub device_name : String
  pub ebs : BlockDevice
  pub root_volume : String

pub record MetadataOptions : Type 0 where
  pub access : String
  pub http_ip_protocol : String
  pub http_put_response_hop_limit : ℕ
  pub http_tokens : String

pub record CapacityReservation : Type 0 where
  pub availability_zone : String
  pub end_time : Option ℕ
  pub id : String
  pub instance_match_criteria : String
  pub instance_type : String
  pub owner_id : String
  pub reservation_type : String
  pub state : String

-- `Overflow` is the JSON text of the fields beyond the typed ones, empty where there are none.
pub record KubeletConfiguration : Type 0 where
  pub max_pods : ℕ
  pub pods_per_core : ℕ
  pub system_reserved : Option (Dict String String)
  pub kube_reserved : Option (Dict String String)
  pub eviction_hard : Option (Dict String String)
  pub eviction_soft : Option (Dict String String)
  pub eviction_soft_grace_period : Option (Dict String String)
  pub eviction_max_pod_grace_period : Option ℕ
  pub image_gc_high_threshold_percent : Option ℕ
  pub image_gc_low_threshold_percent : Option ℕ
  pub cpu_cfs_quota : Option Bool
  pub overflow : String

-- The zero value of the type.
abbrev pub no_kubelet : KubeletConfiguration
no_kubelet = record {
  max_pods = 0;
  pods_per_core = 0;
  system_reserved = none;
  kube_reserved = none;
  eviction_hard = none;
  eviction_soft = none;
  eviction_soft_grace_period = none;
  eviction_max_pod_grace_period = none;
  image_gc_high_threshold_percent = none;
  image_gc_low_threshold_percent = none;
  cpu_cfs_quota = none;
  overflow = "";
}

pub record OpenshiftEc2NodeClassSpec : Type 0 where
  pub subnet_selector_terms : Option (List SubnetSelectorTerm)
  pub security_group_selector_terms : Option (List SecurityGroupSelectorTerm)
  pub capacity_reservation_selector_terms : List CapacityReservationSelectorTerm
  pub ip_address_association : String
  pub tags : Option (Dict String String)
  pub block_device_mappings : List BlockDeviceMapping
  pub instance_store_policy : String
  pub monitoring : String
  pub metadata_options : MetadataOptions
  pub version : String
  pub kubelet : KubeletConfiguration

pub record OpenshiftEc2NodeClassStatus : Type 0 where
  pub conditions : List Condition
  pub subnets : List Subnet
  pub security_groups : List SecurityGroup
  pub release_image : String
  pub version : String
  pub capacity_reservations : List CapacityReservation

pub record OpenshiftEc2NodeClass : Type 0 where
  pub name : String
  pub namespace : String
  pub generation : ℕ
  pub deletion_timestamp : Option ℕ
  pub finalizers : List String
  pub spec : OpenshiftEc2NodeClassSpec
  pub status : OpenshiftEc2NodeClassStatus
