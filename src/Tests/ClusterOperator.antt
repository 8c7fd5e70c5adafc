-- ===== src/Tests/ClusterOperator.antt =====
-- Runs of pkg/controllers/clusteroperator/controller.go on a cluster whose operand rolls out.
use openshift_karpenter_oper.Base.{
  ℕ, ◌≡◌, refl, none, some, List, [], ◌∷◌, ok, string_eq, if◌then◌else◌, ◌||◌, ◌==◌, ◌!=◌, nat_eq,
}
use openshift_karpenter_oper.Kube.{condition_true, condition_false}
use openshift_karpenter_oper.ClusterOperator.{
  NewCondition, StatusCondition, ControllerConfig, DeploymentStatus, AppliedStatus, Deps,
  got_karpenter, got_deployment, applied_operator, got_operator, applied_status, reconcile,
}
use openshift_karpenter_oper.ClusterOperator.Report.{reports, stored, reconcile-deployed}

abbrev config : ControllerConfig
config = record {
  namespace = "openshift-karpenter";
  release_version = "4.21";
  additional_related_objects = [];
  unsupported_platform = none;
}

abbrev deploy : DeploymentStatus
deploy = record { available_replicas = 1; updated_replicas = 1; replicas = 2 }

abbrev available : NewCondition
available = record {
  type = "Available";
  status = condition_true;
  last_transition_time = none;
  reason = "AsExpected";
  message = none;
}

abbrev progressing : NewCondition
progressing = record available { type = "Progressing" }

abbrev existing : List StatusCondition
existing = stored (record available { last_transition_time = some 5 }) ∷ []

-- The world is the clock, and nothing changes.
abbrev still : Deps
still = record {
  World = ℕ;
  get_karpenter = λ w. (ok tt, w);
  get_deployment = λ w. (ok deploy, w);
  apply_operator = λ w. (ok tt, w);
  get_operator = λ w. (ok existing, w);
  apply_status = λ s w. (ok tt, w);
  now = λ w. w;
  show = λ e. "";
}

reconcile-deployed_example :
    (status : AppliedStatus) × ((reconcile config still 7).2
      ≡ got_karpenter (ok tt)
        ∷ got_deployment (ok deploy)
        ∷ applied_operator (ok tt)
        ∷ got_operator (ok existing)
        ∷ applied_status status (ok tt)
        ∷ [])
    × (reports status.conditions
        ≡ ("Available", condition_true)
          ∷ (
            "Progressing",
            if deploy.available_replicas == 0 || deploy.updated_replicas != deploy.replicas
                then condition_true
                else condition_false,
          )
          ∷ ("Degraded", condition_false)
          ∷ ("Upgradeable", condition_true)
          ∷ [])
reconcile-deployed_example =
    reconcile-deployed config still deploy existing 7 7 7 7 7 refl refl refl refl refl
