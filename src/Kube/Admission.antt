-- ===== src/Kube/Admission.antt =====
-- The API server's `ValidatingAdmissionPolicySpec` and the spec of its binding, with the fields that are set.
use openshift_karpenter_oper.Base.{String, List}

pub record Rule : Type 0 where
  pub operations : List String
  pub api_groups : List String
  pub api_versions : List String
  pub resources : List String

pub record MatchCondition : Type 0 where
  pub name : String
  pub expression : String

pub record Validation : Type 0 where
  pub expression : String
  pub message : String

pub record PolicySpec : Type 0 where
  pub resource_rules : List Rule
  pub match_conditions : List MatchCondition
  pub validations : List Validation

pub record BindingSpec : Type 0 where
  pub policy_name : String
  pub validation_actions : List String
