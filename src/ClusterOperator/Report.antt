-- ===== src/ClusterOperator/Report.antt =====
-- pkg/controllers/clusteroperator/controller.go: what is reported, and when a transition time changes.
use openshift_karpenter_oper.Base.{
  ℕ, String, ◌≡◌, ◌≢◌, refl, ap, ◌∙◌, ◌||◌, Option, none, some, List, [], ◌∷◌, map, arith, ok,
  Bool-cases, Option-cases, inl, inr, All, ◌==◌, ◌!=◌, string_eq, nat_eq, get_or, if◌then◌else◌,
}
use openshift_karpenter_oper.Kube.{ConditionStatus, condition_true, condition_false}
use openshift_karpenter_oper.ClusterOperator.{
  StatusCondition, NewCondition, DeploymentStatus, ControllerConfig, AppliedStatus, got_karpenter,
  got_deployment, applied_operator, got_operator, applied_status, Deps, available_conditions,
  progressing_conditions, find_condition, same_status, stamped, related_objects,
  deployment_conditions, operand_conditions, apply_status, reconcile,
}

-- A condition as the API server keeps it once it is applied.
abbrev pub stored : NewCondition → StatusCondition
stored c = record {
  type = c.type;
  status = c.status;
  last_transition_time = get_or c.last_transition_time 0;
  reason = c.reason;
  message = get_or c.message "";
}

abbrev pub UniqueTypes : List NewCondition → Type 0
UniqueTypes [] = Unit
UniqueTypes (c ∷ more) = All (λ (d : NewCondition). d.type ≢ c.type) more × UniqueTypes more

module _ (now : ℕ) (existing : List StatusCondition) where
  stamped-preset :
      (later : ℕ) (l : List StatusCondition) (c : NewCondition) {t : ℕ}
      → c.last_transition_time ≡ some t
      → stamped later l c ≡ c
  unfolding stamped
  stamped-preset later l c preset = simp (preset, stamped)

  stamped-fields :
      (c : NewCondition)
      → (t : ℕ) × (stamped now existing c ≡ record c { last_transition_time = some t })
  unfolding stamped
  stamped-fields c = elim (Option-cases c.last_transition_time) [
    | inr (t, preset) ↦ (
      t,
      stamped-preset now existing c preset
          ∙ ap (λ (n : Option ℕ). record c { last_transition_time = n }) preset,
    )
    | inl unset ↦ elim (Option-cases (find_condition existing c.type)) [
      | inl absent ↦ (now, rw (unset, absent, stamped) refl)
      | inr (prev, there) ↦ elim (Bool-cases (same_status prev.status c.status)) [
        | inl same ↦ (prev.last_transition_time, rw (unset, there, same, stamped) refl)
        | inr differ ↦ (now, rw (unset, there, differ, stamped) refl)
      ]
    ]
  ]

  abbrev kept_list : List NewCondition → List StatusCondition
  kept_list cs = map stored (map (stamped now existing) cs)

abbrev pub reports : List NewCondition → List (String × ConditionStatus)
reports = map (λ (c : NewCondition). (c.type, c.status))

stamped-reports :
    (now : ℕ) (existing : List StatusCondition) (cs : List NewCondition)
    → reports (map (stamped now existing) cs) ≡ reports cs
stamped-reports now existing [] = refl
stamped-reports now existing (c ∷ cs) =
    let (t, e) = stamped-fields now existing c in rw (e, stamped-reports now existing cs) refl

module _ (config : ControllerConfig) (deps : Deps) where
  deployment-reports :
      (deploy : DeploymentStatus)
      → reports (deployment_conditions config deps (ok deploy))
        ≡ ("Available", condition_true)
          ∷ (
            "Progressing",
            if deploy.available_replicas == 0 || deploy.updated_replicas != deploy.replicas
                then condition_true
                else condition_false,
          )
          ∷ ("Degraded", condition_false)
          ∷ ("Upgradeable", condition_true)
          ∷ []
  unfolding deployment_conditions available_conditions progressing_conditions
  deployment-reports deploy = ground arith

  -- On a supported platform with the Karpenter object and its Deployment, a reconcile that reads all it
  -- asks for ends with the application of a status that is available, not degraded and upgradeable,
  -- and that is progressing exactly while no replica is available or some replica is not updated.
  pub reconcile-deployed :
      (deploy : DeploymentStatus) (existing : List StatusCondition) (w w1 w2 w3 w4 : deps.World)
      → config.unsupported_platform ≡ none
      → deps.get_karpenter w ≡ (ok tt, w1)
      → deps.get_deployment w1 ≡ (ok deploy, w2)
      → deps.apply_operator w2 ≡ (ok tt, w3)
      → deps.get_operator w3 ≡ (ok existing, w4)
      → (status : AppliedStatus) × ((reconcile config deps w).2
          ≡ got_karpenter (ok tt)
            ∷ got_deployment (ok deploy)
            ∷ applied_operator (ok tt)
            ∷ got_operator (ok existing)
            ∷ applied_status status (deps.apply_status status w4).0
            ∷ [])
        × (reports status.conditions
            ≡ ("Available", condition_true)
              ∷ (
                "Progressing",
                if deploy.available_replicas == 0 || deploy.updated_replicas != deploy.replicas
                    then condition_true
                    else condition_false,
              )
              ∷ ("Degraded", condition_false)
              ∷ ("Upgradeable", condition_true)
              ∷ [])
  unfolding reconcile operand_conditions apply_status
  reconcile-deployed deploy existing w w1 w2 w3 w4 supported karpenter found applied read =
      let cs = deployment_conditions config deps (ok deploy) in
      (
        record {
          conditions = map (stamped (deps.now w4) existing) cs;
          version = config.release_version;
          related_objects = related_objects config;
        },
        ground arith,
        stamped-reports (deps.now w4) existing cs ∙ deployment-reports deploy,
      )
