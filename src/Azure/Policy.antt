-- ===== src/Azure/Policy.antt =====
-- pkg/controllers/nodeclass/azure/vap/controller.go: the policy that protects the AKSNodeClasses.
use openshift_karpenter_oper.Base.{
  String, Bool, ◌||◌, ◌==◌, string_eq, ◌<>◌, [], ◌∷◌, M, Result, context, call, pure, ◌>>◌,
}
use openshift_karpenter_oper.Kube.{Requeue, finished}
use openshift_karpenter_oper.Kube.Admission.{PolicySpec, BindingSpec}

abbrev pub vap_name : String
vap_name = "karpenter.aksnodeclass.hypershift.io"

abbrev pub vap_binding_name : String
vap_binding_name = "karpenter-binding.aksnodeclass.hypershift.io"

-- The watches of the policy and of its binding, by name (`isManaged`).
unfoldable pub is_managed : String → Bool
is_managed name = name == vap_name || name == vap_binding_name

-- `vapSpec`. `api_group` is that of the types of the provider.
unfoldable pub vap_spec : String → PolicySpec
vap_spec api_group = record {
  resource_rules =
      record {
        operations = "*" ∷ [];
        api_groups = api_group ∷ [];
        api_versions = "*" ∷ [];
        resources = "aksnodeclasses" ∷ [];
      }
      ∷ [];
  match_conditions =
      record {
        name = "exclude-hcco-user";
        expression = "'system:hosted-cluster-config' != request.userInfo.username";
      }
      ∷ [];
  validations =
      record {
        expression = "has(oldObject.spec) && has(object.spec) && object.spec == oldObject.spec";
        message =
            "AKSNodeClass resource can't be created/updated/deleted directly, please use "
            <> "OpenShiftAzureNodeClass resource instead";
      }
      ∷ [];
}

abbrev pub binding_spec : BindingSpec
binding_spec = record { policy_name = vap_name; validation_actions = "Deny" ∷ [] }

pub data PolicyEvent : Type 0 where
  wrote_policy : String → PolicySpec → Result (Unit {0}) → PolicyEvent
  wrote_binding : String → BindingSpec → Result (Unit {0}) → PolicyEvent

-- `CreateOrUpdate` of an object by its name, with a change that sets its spec.
pub record PolicyDeps : Type 1 where
  pub World : Type 0
  pub api_group : String
  pub create_or_update_policy : String → PolicySpec → World → Result (Unit {0}) × World
  pub create_or_update_binding : String → BindingSpec → World → Result (Unit {0}) × World

module _ (deps : PolicyDeps) where
  open deps use {World}

  -- `Reconcile`
  unfoldable pub reconcile_policies : M World PolicyEvent Requeue
  unfolding vap_spec
  reconcile_policies = do
    let spec = vap_spec deps.api_group
    context ("reconciling ValidatingAdmissionPolicy " <> vap_name)
        (call (deps.create_or_update_policy vap_name spec) (wrote_policy vap_name spec))
    context ("reconciling ValidatingAdmissionPolicyBinding " <> vap_binding_name) (
        call (deps.create_or_update_binding vap_binding_name binding_spec)
          (wrote_binding vap_binding_name binding_spec))
    pure finished
