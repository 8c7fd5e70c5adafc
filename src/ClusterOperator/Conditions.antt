-- ===== src/ClusterOperator/Conditions.antt =====
-- pkg/controllers/clusteroperator/controller.go: the conditions of a ClusterOperator and their transition times.
use openshift_karpenter_oper.Base.{
  ℕ, String, Bool, true, false, Option, none, some, List, [], ◌∷◌, if◌then◌else◌, ◌==◌, ◌!=◌,
  string_eq, nat_eq,
}
use openshift_karpenter_oper.Kube.{
  ConditionStatus, condition_true, condition_false, condition_unknown,
}

abbrev pub cluster_operator_name : String
cluster_operator_name = "karpenter"

abbrev pub reason_unsupported_platform : String
reason_unsupported_platform = "UnsupportedPlatform"

-- `configv1.ClusterOperatorStatusCondition`
pub record StatusCondition : Type 0 where
  pub type : String
  pub status : ConditionStatus
  pub last_transition_time : ℕ
  pub reason : String
  pub message : String

-- The apply configuration that `condition` builds. Its type and status are always set.
pub record NewCondition : Type 0 where
  pub type : String
  pub status : ConditionStatus
  pub last_transition_time : Option ℕ
  pub reason : String
  pub message : Option String

-- `configv1.ObjectReference`
pub record ObjectReference : Type 0 where
  pub group : String
  pub resource : String
  pub name : String
  pub namespace : String

-- The status of an `appsv1.Deployment`
pub record DeploymentStatus : Type 0 where
  pub available_replicas : ℕ
  pub updated_replicas : ℕ
  pub replicas : ℕ

-- `condition`
unfoldable pub condition : String → ConditionStatus → String → String → NewCondition
condition type status reason message = record {
  type = type;
  status = status;
  last_transition_time = none;
  reason = reason;
  message = if message != "" then some message else none;
}

-- `availableConditions`
unfoldable pub available_conditions : String → String → List NewCondition
unfolding condition
available_conditions reason message =
    condition "Available" condition_true reason message
    ∷ condition "Progressing" condition_false "AsExpected" ""
    ∷ condition "Degraded" condition_false "AsExpected" ""
    ∷ condition "Upgradeable" condition_true "AsExpected" ""
    ∷ []

-- `progressingConditions`
unfoldable pub progressing_conditions : String → String → List NewCondition
unfolding condition
progressing_conditions reason message =
    condition "Available" condition_true "AsExpected" ""
    ∷ condition "Progressing" condition_true reason message
    ∷ condition "Degraded" condition_false "AsExpected" ""
    ∷ condition "Upgradeable" condition_true "AsExpected" ""
    ∷ []

-- `degradedConditions`
unfoldable pub degraded_conditions : String → String → List NewCondition
unfolding condition
degraded_conditions reason message =
    condition "Available" condition_true "AsExpected" ""
    ∷ condition "Progressing" condition_false "AsExpected" ""
    ∷ condition "Degraded" condition_true reason message
    ∷ condition "Upgradeable" condition_true "AsExpected" ""
    ∷ []

-- `findCondition`
unfoldable pub find_condition : List StatusCondition → String → Option StatusCondition
find_condition [] type = none
find_condition (c ∷ more) type = if c.type == type then some c else find_condition more type

-- `==` on condition statuses.
abbrev pub same_status : ConditionStatus → ConditionStatus → Bool
same_status condition_true condition_true = true
same_status condition_false condition_false = true
same_status condition_unknown condition_unknown = true
same_status _ _ = false

-- A round of the loop of `applyStatus`: the time of a condition that is not set yet.
unfoldable pub stamped : ℕ → List StatusCondition → NewCondition → NewCondition
stamped now existing c = elim c.last_transition_time [
  | some _ ↦ c
  | none ↦ elim (find_condition existing c.type) [
    | none ↦ record c { last_transition_time = some now }
    | some prev ↦
        if same_status prev.status c.status
        then record c { last_transition_time = some prev.last_transition_time }
        else record c { last_transition_time = some now }
  ]
]
