-- ===== src/Tests/Ec2.antt =====
-- Runs of pkg/controllers/nodeclass/ec2 on one OpenshiftEC2NodeClass.
mod Controller
mod Kubelet
use text.Mathlib.TextEquality.{eq_iff}
use openshift_karpenter_oper.Base.{
  ◌≡◌, refl, ◌≢◌, ◌↔◌, ◌||◌, String, Bool, true, false, Option, none, some, List, [], ◌∷◌, arith,
  Result, ok, is_ok, if◌then◌else◌, ◌==◌, string_eq, All, get_or, is_some,
}
use openshift_karpenter_oper.Base.Dict.{Dict, lookup, NodupKeys}
use openshift_karpenter_oper.Hypershift.{
  waits_for_control_plane_upgrade, is_control_plane_upgrading, last_completed,
}
use openshift_karpenter_oper.Kube.{
  Condition, HostedControlPlane, ResourceTag, Secret, condition_false,
}
use openshift_karpenter_oper.Hypershift.Upgrade.{NewestCompleted}
use openshift_karpenter_oper.Ec2.Types.{OpenshiftEc2NodeClass, KubeletConfiguration}
use openshift_karpenter_oper.Ec2.Upstream.{Ec2NodeClass, AmiSelectorTerm}
use openshift_karpenter_oper.Ec2.Tags.{
  merge_ec2_node_class_tags, merged_tags, tag_conflict_condition, count_conflicts,
  conflict_condition,
}
use openshift_karpenter_oper.Ec2.Tags.Merge.{
  platform_value, allows, merged_value, merge_ec2_node_class_tags-lookup,
}
use openshift_karpenter_oper.Ec2.Tags.Conflicts.{tag_conflict_condition_iff}
use openshift_karpenter_oper.Ec2.Spec.{
  Provider, reconcile_ec2_node_class, release_fields, keeps_release, with_release,
  ami_selector_terms_from_user_data_secret, ami_terms, arch_to_ami_label_key,
}
use openshift_karpenter_oper.Ec2.Spec.Upgrade.{
  reconcile_ec2_node_class-settled, reconcile_ec2_node_class-waits, reconcile_ec2_node_class-is_ok,
}
use openshift_karpenter_oper.Tests.Objects.{hcp}

-- No key is restricted but one, and no duration parses.
abbrev pub provider : Provider
provider = record {
  parse_duration = λ s. none;
  restricted = λ (k : String). k == "karpenter.sh/nodepool";
}

abbrev own_tags : Dict String String
own_tags = ("team", "b") ∷ ("stage", "dev") ∷ []

own_tags-NodupKeys : NodupKeys own_tags
unfolding lookup string_eq
own_tags-NodupKeys = (refl, (refl, tt))

merge_ec2_node_class_tags-lookup_example :
    lookup "team" (get_or (merge_ec2_node_class_tags provider.restricted (some own_tags) hcp) [])
    ≡ (if provider.restricted "team"
        then none
        else merged_value
            (platform_value "team" (get_or hcp.resource_tags []) none)
            (allows "team" (get_or hcp.resource_tags []) false)
            (lookup "team" own_tags))
merge_ec2_node_class_tags-lookup_example =
    merge_ec2_node_class_tags-lookup provider.restricted (some own_tags) hcp "team"
      own_tags-NodupKeys

-- The platform keeps the tag "team", with which the NodeClass's value is lost.
kept :
    lookup "team" (get_or (merge_ec2_node_class_tags provider.restricted (some own_tags) hcp) [])
    ≡ some "a"
unfolding lookup string_eq
kept =
    merge_ec2_node_class_tags-lookup provider.restricted (some own_tags) hcp "team"
      own_tags-NodupKeys

abbrev conflict : Condition
conflict = conflict_condition (1, 0) 7

conflict_set : tag_conflict_condition (some own_tags) 7 hcp ≡ some conflict
unfolding tag_conflict_condition count_conflicts string_eq
conflict_set = refl

tag_conflict_condition_iff_example :
    (conflict.status ≡ condition_false)
    ↔ All
        (λ (e : String × String).
          lookup e.0 (merged_tags (get_or hcp.resource_tags []) own_tags) ≡ some e.1)
        own_tags
tag_conflict_condition_iff_example =
    tag_conflict_condition_iff (some own_tags) 7 hcp conflict (tt, tt) own_tags-NodupKeys
      conflict_set

abbrev pub openshift : OpenshiftEc2NodeClass
openshift = record {
  name = "default";
  namespace = "";
  generation = 1;
  deletion_timestamp = none;
  finalizers = [];
  spec = record {
    subnet_selector_terms = none;
    security_group_selector_terms = none;
    capacity_reservation_selector_terms = [];
    ip_address_association = "";
    tags = some own_tags;
    block_device_mappings = [];
    instance_store_policy = "";
    monitoring = "Detailed";
    metadata_options = record {
      access = "";
      http_ip_protocol = "";
      http_put_response_hop_limit = 0;
      http_tokens = "";
    };
    version = "";
    kubelet = record {
      max_pods = 0;
      pods_per_core = 0;
      system_reserved = none;
      kube_reserved = none;
      eviction_hard = none;
      eviction_soft = none;
      eviction_soft_grace_period = none;
      eviction_max_pod_grace_period = none;
      image_gc_high_threshold_percent = none;
      image_gc_low_threshold_percent = none;
      cpu_cfs_quota = none;
      overflow = "";
    };
  };
  status = record {
    conditions = [];
    subnets = [];
    security_groups = [];
    release_image = "";
    version = "";
    capacity_reservations = [];
  };
}

abbrev pub fresh : Ec2NodeClass
fresh = record {
  name = "default";
  namespace = "";
  deletion_timestamp = none;
  spec = record {
    user_data = none;
    ami_family = none;
    ami_selector_terms = [];
    associate_public_ip_address = none;
    tags = none;
    detailed_monitoring = none;
    block_device_mappings = [];
    instance_store_policy = none;
    metadata_options = none;
    capacity_reservation_selector_terms = [];
    kubelet = none;
    instance_profile = none;
    subnet_selector_terms = [];
    security_group_selector_terms = [];
  };
  status = record {
    subnets = [];
    security_groups = [];
    capacity_reservations = [];
    conditions = [];
  };
}

abbrev pub secret : Secret
secret = record {
  name = "user-data";
  labels = ("hypershift.openshift.io/ami", "ami-2") ∷ [];
  annotations = [];
  contents = ("value", "#ignition") ∷ [];
}

-- The control plane of `hcp` upgrades, so an EC2NodeClass with a release keeps it.
abbrev old : Ec2NodeClass
old = with_release provider (some "#old", record { id = "ami-1" } ∷ []) fresh openshift hcp

reconcile_ec2_node_class-is_ok_example :
    is_ok (reconcile_ec2_node_class provider fresh openshift hcp secret) ≡ (
      keeps_release fresh openshift hcp
      || is_some (lookup "hypershift.openshift.io/ami" secret.labels)
      || is_some (lookup "hypershift.openshift.io/ami-arm64" secret.labels))
reconcile_ec2_node_class-is_ok_example =
    reconcile_ec2_node_class-is_ok provider openshift hcp secret fresh

partial-ne-completed : ◌≢◌ {A = String} "Partial" "Completed"
partial-ne-completed = ground (arith, eq_iff "Partial" "Completed")

-- The hosted cluster is on its way from one image to another.
abbrev newest : NewestCompleted hcp.control_plane_version.history
newest = record {
  newer = record { state = "Partial"; image = "release:4.21"; version = "4.21" } ∷ [];
  entry = record { state = "Completed"; image = "release:4.20"; version = "4.20" };
  older = [];
  ordered = refl;
  pending = (partial-ne-completed, tt);
  completed = refl;
}

old_data : old.spec.user_data ≡ some "#old"
unfolding with_release
old_data = refl

old_amis : old.spec.ami_selector_terms ≢ []
unfolding with_release
old_amis e = cc

reconcile_ec2_node_class-waits_example :
    (new : Ec2NodeClass) × (reconcile_ec2_node_class provider old openshift hcp secret ≡ ok new)
    × (new.spec.user_data ≡ some "#old")
    × (new.spec.ami_selector_terms ≡ old.spec.ami_selector_terms)
reconcile_ec2_node_class-waits_example =
    reconcile_ec2_node_class-waits provider openshift hcp secret old "#old" refl
      (ground (arith, eq_iff "release:4.21" "")) newest
      (ground (arith, eq_iff "release:4.20" "release:4.21")) old_amis old_data

first_pass :
    reconcile_ec2_node_class provider fresh openshift hcp secret
    ≡ ok
        (with_release provider (some "#ignition", record { id = "ami-2" } ∷ []) fresh openshift hcp)
unfolding reconcile_ec2_node_class release_fields ami_selector_terms_from_user_data_secret ami_terms
    string_eq lookup keeps_release waits_for_control_plane_upgrade is_control_plane_upgrading
    last_completed
first_pass = refl

-- The Secret of a later release.
abbrev rotated : Secret
rotated = record secret {
  labels = ("hypershift.openshift.io/ami", "ami-3") ∷ [];
  contents = ("value", "#rotated") ∷ [];
}

reconcile_ec2_node_class-settled_example :
    let new =
      with_release provider (some "#ignition", record { id = "ami-2" } ∷ []) fresh openshift hcp in
    reconcile_ec2_node_class provider new openshift hcp rotated ≡ ok new
reconcile_ec2_node_class-settled_example =
    reconcile_ec2_node_class-settled provider openshift hcp secret fresh
      (with_release provider (some "#ignition", record { id = "ami-2" } ∷ []) fresh openshift hcp)
      rotated refl (ground (arith, eq_iff "release:4.21" "")) newest
      (ground (arith, eq_iff "release:4.20" "release:4.21")) first_pass
