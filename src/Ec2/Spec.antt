-- ===== src/Ec2/Spec.antt =====
-- pkg/controllers/nodeclass/ec2/userdata.go and controller.go: the spec of an EC2NodeClass.
pub mod Upgrade
use openshift_karpenter_oper.Base.{
  String, ◌<>◌, Bool, true, false, not, ◌&&◌, Option, none, some, List, [], ◌∷◌, map, Result, ok,
  err, message, wrapped, if◌then◌else◌, ◌==◌, ◌!=◌, string_eq, is_empty, is_some, get_or,
}
use openshift_karpenter_oper.Base.Dict.{Dict, lookup, insert}
use openshift_karpenter_oper.Kube.{HostedControlPlane, Secret}
use openshift_karpenter_oper.Hypershift.{waits_for_control_plane_upgrade}
use openshift_karpenter_oper.Hypershift.UserData.{get_text}
use openshift_karpenter_oper.Ec2.Types.{
  OpenshiftEc2NodeClass, SubnetSelectorTerm, SecurityGroupSelectorTerm,
}
use openshift_karpenter_oper.Ec2.Upstream.{
  AmiSelectorTerm, SubnetTerm, SecurityGroupTerm, DeviceMapping, Ec2NodeClass, Ec2NodeClassSpec,
}
use openshift_karpenter_oper.Ec2.Convert.{
  karpenter_associate_public_ip_address, karpenter_detailed_monitoring,
  karpenter_block_device_mappings, karpenter_instance_store_policy, karpenter_metadata_options,
  karpenter_capacity_reservation_selector_terms, karpenter_kubelet_configuration,
}
use openshift_karpenter_oper.Ec2.Tags.{merge_ec2_node_class_tags}

abbrev pub user_data_ami_label : String
user_data_ami_label = "hypershift.openshift.io/ami"

-- `hyperv1beta1.ArchitectureAMD64` and `hyperv1beta1.ArchitectureARM64`
abbrev pub architecture_amd64 : String
architecture_amd64 = "amd64"

abbrev pub architecture_arm64 : String
architecture_arm64 = "arm64"

-- `hyperv1beta1.AWSKarpenterDefaultInstanceProfile`
abbrev pub default_instance_profile_annotation : String
default_instance_profile_annotation =
    "hypershift.openshift.io/aws-karpenter-default-instance-profile"

-- `supportedArchitectures`
abbrev pub supported_architectures : List String
supported_architectures = architecture_amd64 ∷ architecture_arm64 ∷ []

-- `archToAMILabelKey`
unfoldable pub arch_to_ami_label_key : String → String
arch_to_ami_label_key arch =
    if arch == architecture_amd64 then user_data_ami_label else user_data_ami_label <> ("-" <> arch)

-- The loop of `amiSelectorTermsFromUserDataSecret`.
unfoldable pub ami_terms : List String → Dict String String → List AmiSelectorTerm
unfolding arch_to_ami_label_key
ami_terms [] labels = []
ami_terms (arch ∷ archs) labels = elim (lookup (arch_to_ami_label_key arch) labels) [
  | none ↦ ami_terms archs labels
  | some ami ↦ record { id = ami } ∷ ami_terms archs labels
]

-- `amiSelectorTermsFromUserDataSecret`
unfoldable pub ami_selector_terms_from_user_data_secret : Secret → Result (List AmiSelectorTerm)
unfolding ami_terms
ami_selector_terms_from_user_data_secret secret =
    let terms = ami_terms supported_architectures secret.labels in
    if is_empty terms
    then err (message "no AMIs found for supported architectures: [amd64 arm64]")
    else ok terms

-- `DefaultSubnetSelectorTags`
unfoldable pub default_subnet_selector_tags : String → Dict String String
default_subnet_selector_tags infra_id =
    insert ("kubernetes.io/cluster/" <> infra_id) "*"
      (("kubernetes.io/role/internal-elb", "1") ∷ [])

-- `DefaultSecurityGroupSelectorTags`
unfoldable pub default_security_group_selector_tags : String → Dict String String
default_security_group_selector_tags infra_id = ("karpenter.sh/discovery", infra_id) ∷ []

-- The mapping that `reconcileEC2NodeClass` sets where the OpenshiftEC2NodeClass has none.
abbrev pub default_root_volume_size : String
default_root_volume_size = "120Gi"

abbrev pub default_device_mapping : DeviceMapping
default_device_mapping = record {
  device_name = some "/dev/xvda";
  root_volume = false;
  ebs = record {
    delete_on_termination = none;
    encrypted = some true;
    iops = none;
    kms_key_id = none;
    snapshot_id = none;
    throughput = none;
    volume_size = some default_root_volume_size;
    volume_type = some "gp3";
  };
}

-- The branch of `reconcileEC2NodeClass` that decides on the fields that make nodes drift.
unfoldable pub keeps_release : Ec2NodeClass → OpenshiftEc2NodeClass → HostedControlPlane → Bool
keeps_release ec2 openshift hcp =
    waits_for_control_plane_upgrade hcp openshift.spec.version
    && not (is_empty ec2.spec.ami_selector_terms)
    && is_some ec2.spec.user_data

unfoldable pub release_fields :
    Ec2NodeClass
    → OpenshiftEc2NodeClass
    → HostedControlPlane
    → Secret
    → Result (Option String × List AmiSelectorTerm)
unfolding keeps_release
release_fields ec2 openshift hcp secret =
    if keeps_release ec2 openshift hcp
    then ok (ec2.spec.user_data, ec2.spec.ami_selector_terms)
    else elim (ami_selector_terms_from_user_data_secret secret) [
      | ok terms ↦ ok (some (get_text "value" secret.contents), terms)
      | err e ↦ wrapped "getting AMISelectorTerms" (err e)
    ]

unfoldable pub subnet_terms : Option (List SubnetSelectorTerm) → String → List SubnetTerm
unfolding default_subnet_selector_tags
subnet_terms none infra_id =
    record { tags = some (default_subnet_selector_tags infra_id); id = "" } ∷ []
subnet_terms (some terms) infra_id =
    map (λ (term : SubnetSelectorTerm). record { tags = term.tags; id = term.id }) terms

unfoldable pub security_group_terms :
    Option (List SecurityGroupSelectorTerm) → String → List SecurityGroupTerm
unfolding default_security_group_selector_tags
security_group_terms none infra_id =
    record { tags = some (default_security_group_selector_tags infra_id); id = ""; name = "" } ∷ []
security_group_terms (some terms) infra_id =
    map
      (λ (term : SecurityGroupSelectorTerm). record {
        tags = term.tags;
        id = term.id;
        name = term.name;
      })
      terms

-- `time.ParseDuration`, and whether a key matches one of the provider's `RestrictedTagPatterns`.
pub record Provider : Type 0 where
  pub parse_duration : String → Option String
  pub restricted : String → Bool

module _ (provider : Provider) where
  open provider use {parse_duration, restricted}

  -- The spec that `reconcileEC2NodeClass` writes, for its `userData` and `amiSelectorTerms`.
  unfoldable pub with_release :
      Option String × List AmiSelectorTerm
      → Ec2NodeClass
      → OpenshiftEc2NodeClass
      → HostedControlPlane
      → Ec2NodeClass
  with_release (user_data, ami_selector_terms) ec2 openshift hcp =
      let spec = openshift.spec in
      let mappings = karpenter_block_device_mappings spec in
      let profile = get_text default_instance_profile_annotation hcp.annotations in
      record ec2 {
        spec = record {
          user_data = user_data;
          ami_family = some "Custom";
          ami_selector_terms = ami_selector_terms;
          associate_public_ip_address = karpenter_associate_public_ip_address spec;
          tags = merge_ec2_node_class_tags restricted spec.tags hcp;
          detailed_monitoring = karpenter_detailed_monitoring spec;
          block_device_mappings =
              if is_empty mappings then default_device_mapping ∷ [] else mappings;
          instance_store_policy = karpenter_instance_store_policy spec;
          metadata_options = karpenter_metadata_options spec;
          capacity_reservation_selector_terms = karpenter_capacity_reservation_selector_terms spec;
          kubelet = karpenter_kubelet_configuration parse_duration spec;
          instance_profile = if profile != "" then some profile else none;
          subnet_selector_terms = subnet_terms spec.subnet_selector_terms hcp.infra_id;
          security_group_selector_terms =
              security_group_terms spec.security_group_selector_terms hcp.infra_id;
        };
      }

  -- `reconcileEC2NodeClass`
  unfoldable pub reconcile_ec2_node_class :
      Ec2NodeClass → OpenshiftEc2NodeClass → HostedControlPlane → Secret → Result Ec2NodeClass
  reconcile_ec2_node_class ec2 openshift hcp secret =
      elim (release_fields ec2 openshift hcp secret) [
        | err e ↦ err e
        | ok fields ↦ ok (with_release fields ec2 openshift hcp)
      ]
