-- ===== src/Ec2/Calls.antt =====
-- pkg/controllers/nodeclass/ec2/controller.go: the calls of a reconcile, and what it takes from libraries.
use openshift_karpenter_oper.Base.{ℕ, String, Bool, Option, List, Result, string_eq}
use openshift_karpenter_oper.Base.Dict.{Dict}
use openshift_karpenter_oper.Kube.{Condition, HostedControlPlane, Secret}
use openshift_karpenter_oper.Kube.Admission.{PolicySpec, BindingSpec}
use openshift_karpenter_oper.Kube.Finalizers.{Finalizers}
use openshift_karpenter_oper.NodeClass.Status.{Conditions}
use openshift_karpenter_oper.Ec2.Types.{OpenshiftEc2NodeClass, OpenshiftEc2NodeClassStatus}
use openshift_karpenter_oper.Ec2.Upstream.{Ec2NodeClass}
use openshift_karpenter_oper.Ec2.Spec.{Provider}

abbrev pub finalizer : String
finalizer = "hypershift.openshift.io/ec2-nodeclass-finalizer"

abbrev pub karpenter_core_e2e_override_annotation : String
karpenter_core_e2e_override_annotation = "hypershift.openshift.io/karpenter-core-e2e-override"

abbrev pub karpenter_subnets_config_map_name : String
karpenter_subnets_config_map_name = "karpenter-subnets"

abbrev pub vap_name : String
vap_name = "karpenter.ec2nodeclass.hypershift.io"

abbrev pub vap_binding_name : String
vap_binding_name = "karpenter-binding.ec2nodeclass.hypershift.io"

-- `corev1.ConfigMap`
pub record ConfigMap : Type 0 where
  pub labels : Dict String String
  pub contents : Dict String String

-- Objects of three kinds, by what the code reads or writes of them.
pub data Object : Type 0 where
  ec2_node_class : String → Object
  config_map : String → Object

-- The changes that a reconcile asks for, with the answers. A ConfigMap is written by a change of what it
-- holds.
pub data Event : Type 0 where
  patched_finalizers : String → List String → Result (Unit {0}) → Event
  asked_to_delete : Object → Result (Unit {0}) → Event
  wrote_ec2_node_class : String → Result Ec2NodeClass → Event
  patched_status : String → OpenshiftEc2NodeClassStatus → Result (Unit {0}) → Event
  wrote_config_map : String → (ConfigMap → Result ConfigMap) → Result (Unit {0}) → Event
  wrote_policy : String → PolicySpec → Result (Unit {0}) → Event
  wrote_policy_binding : String → BindingSpec → Result (Unit {0}) → Event
  listed_hosted_control_planes : Result (List HostedControlPlane) → Event
  listed_secrets : Result (List Secret) → Event
  got_node_class : String → Result OpenshiftEc2NodeClass → Event
  listed_node_classes : Result (List OpenshiftEc2NodeClass) → Event
  got_object : Object → Result (Option ℕ) → Event

-- The clients of both clusters. `get` answers with the deletion timestamp of an object. A `create_or_update`
-- reads the object, applies the given change to it, or to a new one, and writes the outcome back if the
-- change does not fail. `sorted_set` is `sets.String`, with `List` for its elements, and `marshal` is
-- `json.Marshal`, which gives no error for texts. `api_group` is that of the provider's types. The policy
-- and its binding are given by their specs, which the changes of both set.
-- `same_status` is `reflect.DeepEqual`, `own_ec2` and `own_config_map` are `SetControllerReference` on the second object.
pub record Deps : Type 1 where
  pub World : Type 0
  pub finalizers : Finalizers
  pub provider : Provider
  pub conditions : Conditions
  pub remove_status_condition : List Condition → String → List Condition
  pub same_status : OpenshiftEc2NodeClassStatus → OpenshiftEc2NodeClassStatus → Bool
  pub own_ec2 : OpenshiftEc2NodeClass → Ec2NodeClass → Result Ec2NodeClass
  pub own_config_map : HostedControlPlane → ConfigMap → Result ConfigMap
  pub sorted_set : List String → List String
  pub marshal : List String → String
  pub api_group : String
  pub list_hosted_control_planes : World → Result (List HostedControlPlane) × World
  pub list_secrets : World → Result (List Secret) × World
  pub get_openshift_node_class : String → World → Result OpenshiftEc2NodeClass × World
  pub list_openshift_node_classes : World → Result (List OpenshiftEc2NodeClass) × World
  pub patch_finalizers : String → List String → World → Result (Unit {0}) × World
  pub patch_status : String → OpenshiftEc2NodeClassStatus → World → Result (Unit {0}) × World
  pub get : Object → World → Result (Option ℕ) × World
  pub delete : Object → World → Result (Unit {0}) × World
  pub create_or_update_ec2 :
      String → (Ec2NodeClass → Result Ec2NodeClass) → World → Result Ec2NodeClass × World
  pub create_or_update_config_map :
      String → (ConfigMap → Result ConfigMap) → World → Result (Unit {0}) × World
  pub create_or_update_policy : String → PolicySpec → World → Result (Unit {0}) × World
  pub create_or_update_binding : String → BindingSpec → World → Result (Unit {0}) × World
