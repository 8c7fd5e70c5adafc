-- ===== src/ClusterOperator.antt =====
-- pkg/controllers/clusteroperator/controller.go: what the operator reports of itself on OpenShift.
pub mod Conditions
pub mod Report
use openshift_karpenter_oper.Base.{
  ℕ, String, ◌<>◌, Bool, true, false, not, ◌&&◌, Option, none, some, List, [], ◌∷◌, ◌++◌, map, M,
  Result, ok, err, Err, pure, call, attempt, context, ◌>>=◌, ◌>>◌, is_not_found, if◌then◌else◌,
  ◌==◌, ◌!=◌, string_eq, nat_eq, ltb, find, is_some,
}
use openshift_karpenter_oper.Kube.{
  ConditionStatus, condition_true, condition_false, condition_unknown, Requeue, finished,
}
unfoldable pub use openshift_karpenter_oper.ClusterOperator.Conditions.{
  condition, available_conditions, progressing_conditions, degraded_conditions, find_condition,
  stamped,
}
pub use openshift_karpenter_oper.ClusterOperator.Conditions.{
  cluster_operator_name, reason_unsupported_platform, StatusCondition, NewCondition,
  ObjectReference, DeploymentStatus, same_status,
}

pub record ControllerConfig : Type 0 where
  pub namespace : String
  pub release_version : String
  pub additional_related_objects : List ObjectReference
  pub unsupported_platform : Option String

-- The status that is applied.
pub record AppliedStatus : Type 0 where
  pub conditions : List NewCondition
  pub version : String
  pub related_objects : List ObjectReference

-- The calls of a reconcile, with their answers.
pub data Event : Type 0 where
  got_karpenter : Result (Unit {0}) → Event
  got_deployment : Result DeploymentStatus → Event
  applied_operator : Result (Unit {0}) → Event
  got_operator : Result (List StatusCondition) → Event
  applied_status : AppliedStatus → Result (Unit {0}) → Event

-- The client, the clock, and `%v` of an error.
pub record Deps : Type 1 where
  pub World : Type 0
  pub get_karpenter : World → Result (Unit {0}) × World
  pub get_deployment : World → Result DeploymentStatus × World
  pub apply_operator : World → Result (Unit {0}) × World
  pub get_operator : World → Result (List StatusCondition) × World
  pub apply_status : AppliedStatus → World → Result (Unit {0}) × World
  pub now : World → ℕ
  pub show : Err → String

module _ (config : ControllerConfig) where
  -- `relatedObjects`
  unfoldable pub related_objects : List ObjectReference
  related_objects =
      record { group = ""; resource = "namespaces"; name = config.namespace; namespace = "" }
      ∷ record {
        group = "apps";
        resource = "deployments";
        name = "karpenter-operator";
        namespace = config.namespace;
      }
      ∷ record {
        group = "rbac.authorization.k8s.io";
        resource = "clusterroles";
        name = "karpenter-operator";
        namespace = "";
      }
      ∷ record {
        group = "rbac.authorization.k8s.io";
        resource = "clusterrolebindings";
        name = "karpenter-operator";
        namespace = "";
      }
      ∷ ((if is_some config.unsupported_platform
            then []
            else record {
              group = "karpenter.sh";
              resource = "nodepools";
              name = "";
              namespace = "";
            }
              ∷ record {
                group = "karpenter.sh";
                resource = "nodeclaims";
                name = "";
                namespace = "";
              }
              ∷ [])
          ++ config.additional_related_objects)

  module _ (deps : Deps) where
    open deps use {World}

    -- The switch of `operandConditions`.
    unfoldable pub deployment_conditions : Result DeploymentStatus → List NewCondition
    deployment_conditions (err e) =
        if is_not_found e
        then progressing_conditions "OperandNotYetCreated"
            "Waiting for karpenter Deployment to be created"
        else degraded_conditions "OperandCheckFailed"
            ("Failed to get operand Deployment: " <> deps.show e)
    deployment_conditions (ok deploy) =
        if ltb deploy.available_replicas 1
        then progressing_conditions "OperandNotReady"
            "Waiting for karpenter Deployment to become available"
        else if deploy.updated_replicas != deploy.replicas
        then progressing_conditions "OperandRollingOut" "Karpenter Deployment is rolling out"
        else available_conditions "AsExpected" ("at version " <> config.release_version)

    after_karpenter : Result (Unit {0}) → M World Event (List NewCondition)
    after_karpenter (err e) =
        if is_not_found e
        then pure
            (available_conditions "KarpenterNotFound" ("at version " <> config.release_version))
        else pure (
            degraded_conditions "KarpenterCheckFailed"
              ("Failed to get Karpenter CR: " <> deps.show e))
    after_karpenter (ok _) = do
      deploy ← attempt (call deps.get_deployment got_deployment)
      pure (deployment_conditions deploy)

    -- `operandConditions`
    unfoldable pub operand_conditions : M World Event (List NewCondition)
    unfolding after_karpenter
    operand_conditions = do
      karp ← attempt (call deps.get_karpenter got_karpenter)
      after_karpenter karp

    send_status : List NewCondition → List StatusCondition → M World Event (Unit {0})
    send_status conditions existing w =
        let status : AppliedStatus = record {
          conditions = map (stamped (deps.now w) existing) conditions;
          version = config.release_version;
          related_objects = related_objects;
        } in
        call (deps.apply_status status) (applied_status status) w

    -- `applyStatus`
    unfoldable pub apply_status : List NewCondition → M World Event (Unit {0})
    unfolding send_status
    apply_status conditions = do
      context "applying ClusterOperator" (call deps.apply_operator applied_operator)
      existing ← context "reading existing ClusterOperator" (call deps.get_operator got_operator)
      send_status conditions existing

    unfoldable pub conditions_of_platform : Option String → M World Event (List NewCondition)
    conditions_of_platform (some platform) = pure (
        available_conditions reason_unsupported_platform
          ("Karpenter is not supported on platform " <> (platform <> ", no operand is deployed")))
    conditions_of_platform none = operand_conditions

    -- `Reconcile`
    unfoldable pub reconcile : M World Event Requeue
    unfolding conditions_of_platform
    reconcile = do
      conditions ← conditions_of_platform config.unsupported_platform
      context "updating ClusterOperator status" (apply_status conditions)
      pure finished
