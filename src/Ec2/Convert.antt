-- ===== src/Ec2/Convert.antt =====
-- pkg/controllers/nodeclass/ec2/karpenter_util.go: the fields of the spec in the provider's types.
use openshift_karpenter_oper.Base.{
  ℕ, String, ◌<>◌, Bool, true, false, Option, none, some, List, [], ◌∷◌, map, if◌then◌else◌, ◌==◌,
  ◌&&◌, nat_eq, string_eq, to_lower, itoa,
}
use openshift_karpenter_oper.Base.Dict.{Dict, insert}
use openshift_karpenter_oper.Ec2.Types.{
  BlockDevice, BlockDeviceMapping, CapacityReservationSelectorTerm, OpenshiftEc2NodeClassSpec,
  ip_address_association_public, ip_address_association_subnet_default, monitoring_state_detailed,
  monitoring_state_basic, root_volume_designation_root_volume, delete_on_termination_policy_delete,
  delete_on_termination_policy_retain, encryption_state_encrypted, encryption_state_unencrypted,
  metadata_access_http_endpoint, metadata_access_none, metadata_http_protocol_ipv4,
  metadata_http_protocol_ipv6, metadata_http_tokens_state_required,
  metadata_http_tokens_state_optional,
}
use openshift_karpenter_oper.Ec2.Upstream.{
  CapacityReservationTerm, DeviceMapping, EbsDevice, InstanceMetadata, Kubelet,
}
use openshift_karpenter_oper.Ec2.Kubelet.{has_typed_fields}

-- `ptrIfNonEmpty`
unfoldable pub ptr_if_non_empty : String → Option String
ptr_if_non_empty s = if s == "" then none else some s

-- `ptrIfNonZero`
unfoldable pub ptr_if_non_zero : ℕ → Option ℕ
ptr_if_non_zero v = if v == 0 then none else some v

-- A switch on two texts, with `none` for all others.
abbrev switch : {A : Type 0} → String → A → String → A → String → Option A
switch a x b y text = if text == a then some x else if text == b then some y else none

-- `deleteOnTerminationToBool`
unfoldable pub delete_on_termination_to_bool : String → Option Bool
delete_on_termination_to_bool =
    switch delete_on_termination_policy_delete true delete_on_termination_policy_retain false

-- `encryptionStateToBool`
unfoldable pub encryption_state_to_bool : String → Option Bool
encryption_state_to_bool = switch encryption_state_encrypted true encryption_state_unencrypted false

-- `volumeSizeGiBToQuantity`
unfoldable pub volume_size_gib_to_quantity : ℕ → Option String
volume_size_gib_to_quantity size = if size == 0 then none else some (itoa size <> "Gi")

-- `volumeTypeToKarpenter`
unfoldable pub volume_type_to_karpenter : String → Option String
volume_type_to_karpenter vt = if vt == "" then none else some (to_lower vt)

-- `karpenterBlockDeviceFromBlockDevice`
unfoldable pub karpenter_block_device : BlockDevice → EbsDevice
unfolding delete_on_termination_to_bool encryption_state_to_bool ptr_if_non_empty
    volume_size_gib_to_quantity volume_type_to_karpenter
karpenter_block_device bd = record {
  delete_on_termination = delete_on_termination_to_bool bd.delete_on_termination;
  encrypted = encryption_state_to_bool bd.encrypted;
  iops = bd.iops;
  kms_key_id = ptr_if_non_empty bd.kms_key_id;
  snapshot_id = ptr_if_non_empty bd.snapshot_id;
  throughput = bd.throughput;
  volume_size = volume_size_gib_to_quantity bd.volume_size_gib;
  volume_type = volume_type_to_karpenter bd.volume_type;
}

-- `karpenterBlockDeviceMappingFromNodeClassSpec`, where an empty slice is nil.
unfoldable pub karpenter_block_device_mappings : OpenshiftEc2NodeClassSpec → List DeviceMapping
unfolding karpenter_block_device
karpenter_block_device_mappings spec =
    map
      (λ (mapping : BlockDeviceMapping). record {
        device_name = ptr_if_non_empty mapping.device_name;
        root_volume = mapping.root_volume == root_volume_designation_root_volume;
        ebs = karpenter_block_device mapping.ebs;
      })
      spec.block_device_mappings

-- `karpenterCapacityReservationSelectorTermsFromNodeClassSpec`
unfoldable pub karpenter_capacity_reservation_selector_terms :
    OpenshiftEc2NodeClassSpec → List CapacityReservationTerm
karpenter_capacity_reservation_selector_terms spec =
    map
      (λ (term : CapacityReservationSelectorTerm). record {
        tags = term.tags;
        id = term.id;
        owner_id = term.owner_id;
        instance_match_criteria = to_lower term.instance_match_criteria;
      })
      spec.capacity_reservation_selector_terms

-- `karpenterInstanceStorePolicyFromNodeClassSpec`
unfoldable pub karpenter_instance_store_policy : OpenshiftEc2NodeClassSpec → Option String
karpenter_instance_store_policy spec =
    if spec.instance_store_policy == "" then none else some spec.instance_store_policy

-- `karpenterAssociatePublicIPAddressFromNodeClassSpec`
unfoldable pub karpenter_associate_public_ip_address : OpenshiftEc2NodeClassSpec → Option Bool
karpenter_associate_public_ip_address spec =
    switch ip_address_association_public true ip_address_association_subnet_default false
      spec.ip_address_association

-- `karpenterDetailedMonitoringFromNodeClassSpec`
unfoldable pub karpenter_detailed_monitoring : OpenshiftEc2NodeClassSpec → Option Bool
karpenter_detailed_monitoring spec =
    switch monitoring_state_detailed true monitoring_state_basic false spec.monitoring

-- `karpenterMetadataOptionsFromNodeClassSpec`
unfoldable pub karpenter_metadata_options : OpenshiftEc2NodeClassSpec → Option InstanceMetadata
unfolding ptr_if_non_zero
karpenter_metadata_options spec =
    let mo = spec.metadata_options in
    if mo.access == ""
      && mo.http_ip_protocol == ""
      && mo.http_put_response_hop_limit == 0
      && mo.http_tokens == ""
    then none
    else some record {
      http_endpoint =
          switch metadata_access_http_endpoint "enabled" metadata_access_none "disabled" mo.access;
      http_protocol_ipv6 =
          switch metadata_http_protocol_ipv6 "enabled" metadata_http_protocol_ipv4 "disabled"
            mo.http_ip_protocol;
      http_put_response_hop_limit = ptr_if_non_zero mo.http_put_response_hop_limit;
      http_tokens =
          switch metadata_http_tokens_state_required "required" metadata_http_tokens_state_optional
            "optional" mo.http_tokens;
    }

-- `evictionThresholdMapToStringMap`, the loop over the entries of a map.
unfoldable pub copy_entries : Dict String String → Dict String String → Dict String String
copy_entries [] result = result
copy_entries ((k, v) ∷ m) result = copy_entries m (insert k v result)

unfoldable pub eviction_threshold_map_to_string_map :
    Option (Dict String String) → Option (Dict String String)
unfolding copy_entries
eviction_threshold_map_to_string_map none = none
eviction_threshold_map_to_string_map (some m) = some (copy_entries m [])

-- `time.ParseDuration`, with the text that prints the duration for its value.
module _ (parse_duration : String → Option String) where
  unfoldable pub parse_entries : Dict String String → Dict String String → Dict String String
  parse_entries [] result = result
  parse_entries ((k, v) ∷ m) result = elim (parse_duration v) [
    | none ↦ parse_entries m result
    | some d ↦ parse_entries m (insert k d result)
  ]

  -- `evictionSoftGracePeriodToDuration`
  unfoldable pub eviction_soft_grace_period_to_duration :
      Option (Dict String String) → Option (Dict String String)
  unfolding parse_entries
  eviction_soft_grace_period_to_duration none = none
  eviction_soft_grace_period_to_duration (some m) = some (parse_entries m [])

  -- `karpenterKubeletConfigurationFromNodeClassSpec`
  unfoldable pub karpenter_kubelet_configuration : OpenshiftEc2NodeClassSpec → Option Kubelet
  karpenter_kubelet_configuration spec =
      let k = spec.kubelet in
      if has_typed_fields k
      then some record {
        image_gc_high_threshold_percent = k.image_gc_high_threshold_percent;
        image_gc_low_threshold_percent = k.image_gc_low_threshold_percent;
        max_pods = ptr_if_non_zero k.max_pods;
        cpu_cfs_quota = k.cpu_cfs_quota;
        eviction_hard = eviction_threshold_map_to_string_map k.eviction_hard;
        eviction_soft = eviction_threshold_map_to_string_map k.eviction_soft;
        eviction_soft_grace_period =
            eviction_soft_grace_period_to_duration k.eviction_soft_grace_period;
        eviction_max_pod_grace_period = k.eviction_max_pod_grace_period;
        pods_per_core = ptr_if_non_zero k.pods_per_core;
        system_reserved = k.system_reserved;
        kube_reserved = k.kube_reserved;
      }
      else none
