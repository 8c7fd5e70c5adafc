-- ===== src/Ec2/Policy.antt =====
-- pkg/controllers/nodeclass/ec2/controller.go: the policy that protects the EC2NodeClasses.
use openshift_karpenter_oper.Base.{String, [], ◌∷◌}
use openshift_karpenter_oper.Kube.Admission.{PolicySpec, BindingSpec}
use openshift_karpenter_oper.Ec2.Calls.{vap_name}

-- The fields that `reconcileVAP` sets in the policy, for the API group of the provider's types.
unfoldable pub vap_spec : String → PolicySpec
vap_spec api_group = record {
  resource_rules =
      record {
        operations = "*" ∷ [];
        api_groups = api_group ∷ [];
        api_versions = "v1" ∷ [];
        resources = "ec2nodeclasses" ∷ [];
      }
      ∷ [];
  match_conditions =
      record {
        name = "exclude-hcco-user";
        expression = "'system:hosted-cluster-config' != request.userInfo.username";
      }
      ∷ [];
  validations =
      record {
        expression = "has(oldObject.spec) && has(object.spec) && object.spec == oldObject.spec";
        message =
            "EC2NodeClass resource can't be created/updated/deleted directly, please use OpenshiftEC2NodeClass resource instead";
      }
      ∷ [];
}

abbrev pub binding_spec : BindingSpec
binding_spec = record { policy_name = vap_name; validation_actions = "Deny" ∷ [] }
