-- ===== src/DefaultNodeClass.antt =====
-- pkg/controllers/nodeclass/default/controller.go, pkg/cloudprovider/aws/nodeclass.go and
-- pkg/cloudprovider/azure/nodeclass.go: the NodeClass that every hosted cluster gets.
pub mod Desired
use openshift_karpenter_oper.Base.{
  ℕ, String, Bool, true, false, ◌||◌, Option, none, some, List, [], ◌∷◌, M, Result, ok, err, Err,
  message, pure, fail, lift, call, attempt, context, ◌>>=◌, ◌>>◌, is_hcp_not_found, if◌then◌else◌,
  ◌==◌, ◌!=◌, string_eq,
}
use openshift_karpenter_oper.Base.Dict.{Dict}
use openshift_karpenter_oper.Kube.{HostedControlPlane, Requeue, finished}
use openshift_karpenter_oper.Hypershift.{get_hosted_control_plane}
use openshift_karpenter_oper.Hypershift.UserData.{
  get_text, WatchEvent, created, updated, deleted, generic,
}
use openshift_karpenter_oper.Ec2.Types.{
  OpenshiftEc2NodeClassSpec, SubnetSelectorTerm, SecurityGroupSelectorTerm, no_kubelet,
}
use openshift_karpenter_oper.Azure.Types.{OpenshiftAzureNodeClassSpec}
use openshift_karpenter_oper.Ec2.Calls.{karpenter_core_e2e_override_annotation}
use openshift_karpenter_oper.Ec2.Spec.{
  default_subnet_selector_tags, default_security_group_selector_tags,
}

abbrev pub default_node_class_name : String
default_node_class_name = "default"

-- `hyperv1beta1.ProvisionerKarpenter`
abbrev pub provisioner_karpenter : String
provisioner_karpenter = "Karpenter"

-- The labels that the providers' `DefaultNodeClass` sets, and the spec of AWS, for an infrastructure id.
abbrev pub default_labels : Dict String String
default_labels = ("app.kubernetes.io/managed-by", "karpenter-operator") ∷ []

unfoldable pub default_spec : String → OpenshiftEc2NodeClassSpec
default_spec infra_id = record {
  subnet_selector_terms =
      some (record { tags = some (default_subnet_selector_tags infra_id); id = "" } ∷ []);
  security_group_selector_terms = some (
      record { tags = some (default_security_group_selector_tags infra_id); id = ""; name = "" }
      ∷ []);
  capacity_reservation_selector_terms = [];
  ip_address_association = "";
  tags = none;
  block_device_mappings = [];
  instance_store_policy = "";
  monitoring = "";
  metadata_options = record {
    access = "";
    http_ip_protocol = "";
    http_put_response_hop_limit = 0;
    http_tokens = "";
  };
  version = "";
  kubelet = no_kubelet;
}

-- The spec that the Azure provider's `DefaultNodeClass` sets, for its subnet.
unfoldable pub default_azure_spec : String → OpenshiftAzureNodeClassSpec
default_azure_spec vnet_subnet_id = record {
  vnet_subnet_id = vnet_subnet_id;
  os_disk_size_gib = 0;
  tags = none;
  kubelet = no_kubelet;
  host_encryption = "";
  version = "";
}

-- The calls of a reconcile, with their answers.
pub data Event (NodeClass : Type 0) : Type 0 where
  listed_hosted_control_planes : Result (List HostedControlPlane) → Event NodeClass
  wrote_node_class : NodeClass → Result (Unit {0}) → Event NodeClass

-- The provider's `DefaultNodeClass` gives what is to be written, `none` for a nil object. The provider and
-- the client of the hosted cluster may be nil.
pub record Deps : Type 1 where
  pub World : Type 0
  pub NodeClass : Type 0
  pub provider : Option (String → Result (Option NodeClass))
  pub create_or_update : Option (NodeClass → World → Result (Unit {0}) × World)
  pub list_hosted_control_planes : World → Result (List HostedControlPlane) × World

module _ (deps : Deps) where
  open deps use {World, NodeClass}

  write :
      (NodeClass → World → Result (Unit {0}) × World)
      → Option NodeClass
      → M World (Event NodeClass) (Unit {0})
  write create_or_update none = pure tt
  write create_or_update (some node_class) =
      context "reconciling default NodeClass"
        (call (create_or_update node_class) (wrote_node_class node_class))

  from_provider :
      String
      → Option (String → Result (Option NodeClass))
      → Option (NodeClass → World → Result (Unit {0}) × World)
      → M World (Event NodeClass) (Unit {0})
  from_provider infra_id none client = fail (message "default NodeClass provider is required")
  from_provider infra_id (some provider) none =
      fail (message "hosted cluster client is required for default NodeClass reconciliation")
  from_provider infra_id (some provider) (some create_or_update) = do
    node_class ← lift (provider infra_id)
    write create_or_update node_class

  -- `reconcileHCP`
  unfoldable pub reconcile_hcp : HostedControlPlane → M World (Event NodeClass) (Unit {0})
  unfolding from_provider write
  reconcile_hcp hcp =
      if hcp.provisioner_name != provisioner_karpenter
      then pure tt
      else if get_text karpenter_core_e2e_override_annotation hcp.annotations == "true"
      then pure tt
      else from_provider hcp.infra_id deps.provider deps.create_or_update

  after_lookup : Result HostedControlPlane → M World (Event NodeClass) Requeue
  after_lookup (err e) = if is_hcp_not_found e then pure finished else fail e
  after_lookup (ok hcp) = do reconcile_hcp hcp; pure finished

  -- `Reconcile`
  unfoldable pub reconcile : String → M World (Event NodeClass) Requeue
  unfolding after_lookup
  reconcile namespace = do
    got ← attempt (
        get_hosted_control_plane (call deps.list_hosted_control_planes listed_hosted_control_planes)
          namespace)
    after_lookup got

-- `hcpPredicate`. A function that is not set passes its events.
unfoldable pub hcp_predicate : WatchEvent HostedControlPlane → Bool
hcp_predicate (created _) = true
hcp_predicate (deleted _) = true
hcp_predicate (generic _) = true
hcp_predicate (updated old new) =
    old.infra_id != new.infra_id
    || old.provisioner_name != new.provisioner_name
    || get_text karpenter_core_e2e_override_annotation old.annotations
      != get_text karpenter_core_e2e_override_annotation new.annotations

-- `nodeClassPredicate`, by the name of an object.
unfoldable pub node_class_predicate : String → Bool
node_class_predicate name = name == default_node_class_name
