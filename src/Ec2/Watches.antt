-- ===== src/Ec2/Watches.antt =====
-- pkg/controllers/nodeclass/ec2/controller.go: which events make the controller reconcile what.
use openshift_karpenter_oper.Base.{
  String, Bool, true, false, not, ◌||◌, List, [], Result, ok, err, if◌then◌else◌, ◌!=◌, string_eq,
  map, get_or,
}
use openshift_karpenter_oper.Kube.{HostedControlPlane, ControlPlaneVersion, ResourceTag}
use openshift_karpenter_oper.Hypershift.UserData.{
  get_text, WatchEvent, created, updated, deleted, generic,
}
use openshift_karpenter_oper.Ec2.Types.{OpenshiftEc2NodeClass}
use openshift_karpenter_oper.Ec2.Spec.{default_instance_profile_annotation}
use openshift_karpenter_oper.Ec2.Calls.{vap_name, vap_binding_name}

-- `hcpPredicate`, with `equality.Semantic.DeepEqual` for tags and for the version status.
module _ (same_tags : List ResourceTag → List ResourceTag → Bool)
    (same_version : ControlPlaneVersion → ControlPlaneVersion → Bool) where
  -- `ControlPlaneVersionChanged`
  unfoldable pub control_plane_version_changed : HostedControlPlane → HostedControlPlane → Bool
  control_plane_version_changed old new =
      not (same_version old.control_plane_version new.control_plane_version)

  unfoldable pub hcp_predicate : WatchEvent HostedControlPlane → Bool
  unfolding control_plane_version_changed
  hcp_predicate (created _) = true
  hcp_predicate (updated old new) =
      get_text default_instance_profile_annotation old.annotations
        != get_text default_instance_profile_annotation new.annotations
      || not (same_tags (get_or old.resource_tags []) (get_or new.resource_tags []))
      || control_plane_version_changed old new
  hcp_predicate (deleted _) = false
  hcp_predicate (generic _) = false

-- `mapToOpenShiftEC2NodeClasses`: the names to enqueue, none if the list fails.
unfoldable pub map_to_openshift_ec2_node_classes : Result (List OpenshiftEc2NodeClass) → List String
map_to_openshift_ec2_node_classes (err _) = []
map_to_openshift_ec2_node_classes (ok node_classes) =
    map (λ node_class. node_class.name) node_classes

-- `mapVAPToOpenShiftEC2NodeClasses` and `mapVAPBindingToOpenShiftEC2NodeClasses`
unfoldable pub map_vap : String → Result (List OpenshiftEc2NodeClass) → List String
map_vap name listed = if name != vap_name then [] else map_to_openshift_ec2_node_classes listed

unfoldable pub map_vap_binding : String → Result (List OpenshiftEc2NodeClass) → List String
map_vap_binding name listed =
    if name != vap_binding_name then [] else map_to_openshift_ec2_node_classes listed
