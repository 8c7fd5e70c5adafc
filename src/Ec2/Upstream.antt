-- ===== src/Ec2/Upstream.antt =====
-- The EC2NodeClass of the AWS provider of Karpenter, which is not code of the repository, as far as the
-- controller writes and reads it.
use openshift_karpenter_oper.Base.{ℕ, String, Bool, Option, List}
use openshift_karpenter_oper.Base.Dict.{Dict}
use openshift_karpenter_oper.Kube.{Condition}

pub record AmiSelectorTerm : Type 0 where
  pub id : String

pub record SubnetTerm : Type 0 where
  pub tags : Option (Dict String String)
  pub id : String

pub record SecurityGroupTerm : Type 0 where
  pub tags : Option (Dict String String)
  pub id : String
  pub name : String

pub record CapacityReservationTerm : Type 0 where
  pub tags : Option (Dict String String)
  pub id : String
  pub owner_id : String
  pub instance_match_criteria : String

-- `v1.BlockDevice`. A quantity is kept as its text.
pub record EbsDevice : Type 0 where
  pub delete_on_termination : Option Bool
  pub encrypted : Option Bool
  pub iops : Option ℕ
  pub kms_key_id : Option String
  pub snapshot_id : Option String
  pub throughput : Option ℕ
  pub volume_size : Option String
  pub volume_type : Option String

pub record DeviceMapping : Type 0 where
  pub device_name : Option String
  pub root_volume : Bool
  pub ebs : EbsDevice

pub record InstanceMetadata : Type 0 where
  pub http_endpoint : Option String
  pub http_protocol_ipv6 : Option String
  pub http_put_response_hop_limit : Option ℕ
  pub http_tokens : Option String

-- `v1.KubeletConfiguration`. A duration is kept as the text that prints it.
pub record Kubelet : Type 0 where
  pub max_pods : Option ℕ
  pub pods_per_core : Option ℕ
  pub system_reserved : Option (Dict String String)
  pub kube_reserved : Option (Dict String String)
  pub eviction_hard : Option (Dict String String)
  pub eviction_soft : Option (Dict String String)
  pub eviction_soft_grace_period : Option (Dict String String)
  pub eviction_max_pod_grace_period : Option ℕ
  pub image_gc_high_threshold_percent : Option ℕ
  pub image_gc_low_threshold_percent : Option ℕ
  pub cpu_cfs_quota : Option Bool

pub record Ec2NodeClassSpec : Type 0 where
  pub user_data : Option String
  pub ami_family : Option String
  pub ami_selector_terms : List AmiSelectorTerm
  pub associate_public_ip_address : Option Bool
  pub tags : Option (Dict String String)
  pub detailed_monitoring : Option Bool
  pub block_device_mappings : List DeviceMapping
  pub instance_store_policy : Option String
  pub metadata_options : Option InstanceMetadata
  pub capacity_reservation_selector_terms : List CapacityReservationTerm
  pub kubelet : Option Kubelet
  pub instance_profile : Option String
  pub subnet_selector_terms : List SubnetTerm
  pub security_group_selector_terms : List SecurityGroupTerm

pub record SubnetStatus : Type 0 where
  pub id : String
  pub zone : String
  pub zone_id : String

pub record SecurityGroupStatus : Type 0 where
  pub id : String
  pub name : String

pub record CapacityReservationStatus : Type 0 where
  pub availability_zone : String
  pub end_time : Option ℕ
  pub id : String
  pub instance_match_criteria : String
  pub instance_type : String
  pub owner_id : String
  pub reservation_type : String
  pub state : String

pub record Ec2NodeClassStatus : Type 0 where
  pub subnets : List SubnetStatus
  pub security_groups : List SecurityGroupStatus
  pub capacity_reservations : List CapacityReservationStatus
  pub conditions : List Condition

pub record Ec2NodeClass : Type 0 where
  pub name : String
  pub namespace : String
  pub deletion_timestamp : Option ℕ
  pub spec : Ec2NodeClassSpec
  pub status : Ec2NodeClassStatus
