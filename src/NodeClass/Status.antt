-- ===== src/NodeClass/Status.antt =====
-- pkg/controllers/nodeclass/status/conditions.go: the conditions of an OpenShift NodeClass, from those of
-- the provider's NodeClass.
use openshift_karpenter_oper.Base.{
  ℕ, String, ◌<>◌, ◌≡◌, ◌≢◌, Bool, true, false, Option, none, some, List, [], ◌∷◌, if◌then◌else◌,
  ◌==◌, string_eq,
}
use openshift_karpenter_oper.Kube.{Condition, condition_true, condition_false}

abbrev pub condition_type_ready : String
condition_type_ready = "Ready"

abbrev pub condition_type_version_resolved : String
condition_type_version_resolved = "VersionResolved"

abbrev pub condition_type_supported_version_skew : String
condition_type_supported_version_skew = "SupportedVersionSkew"

abbrev pub condition_reason_resolution_failed : String
condition_reason_resolution_failed = "ResolutionFailed"

-- `meta.SetStatusCondition` and `meta.FindStatusCondition`.
pub record Conditions : Type 0 where
  pub set_status_condition : Condition → List Condition → List Condition
  pub find_status_condition : List Condition → String → Option Condition

-- What is documented of them: a condition that is set is found under its type, with the fields it
-- was set with but for the transition time; that one is kept if the status is kept. Conditions of
-- other types stay.
pub record IsLawful (c : Conditions) : Type 0 where
  pub find-set_self :
      (n : Condition) (l : List Condition)
      → (m : Condition) × (c.find_status_condition (c.set_status_condition n l) n.type ≡ some m)
        × (m.status ≡ n.status)
        × (m.reason ≡ n.reason)
        × (m.message ≡ n.message)
        × (m.observed_generation ≡ n.observed_generation)
  pub find-set_other :
      (n : Condition) (l : List Condition) (type : String)
      → type ≢ n.type
      → c.find_status_condition (c.set_status_condition n l) type ≡ c.find_status_condition l type
  pub find-set_same_status :
      (n o m : Condition) (l : List Condition)
      → c.find_status_condition l n.type ≡ some o
      → n.status ≡ o.status
      → c.find_status_condition (c.set_status_condition n l) n.type ≡ some m
      → m.last_transition_time ≡ o.last_transition_time

-- `versionResolved != nil && versionResolved.Status == metav1.ConditionTrue`
unfoldable pub is_true : Option Condition → Bool
is_true none = false
is_true (some condition) = elim condition.status [ condition_true ↦ true | _ ↦ false ]

-- The condition `notReady`.
unfoldable pub not_ready : Option Condition → ℕ → Condition
not_ready version_resolved generation =
    let unknown : Condition = record {
      type = condition_type_ready;
      status = condition_false;
      observed_generation = generation;
      last_transition_time = 0;
      reason = condition_reason_resolution_failed;
      message = "Version resolution status is unknown";
    } in
    elim version_resolved [
      | none ↦ unknown
      | some resolved ↦ record unknown {
        reason = resolved.reason;
        message = "Version resolution failed: " <> resolved.message;
      }
    ]

module _ (c : Conditions) where
  -- The loop over the provider's conditions: the conditions so far and `providerReady`.
  unfoldable pub copy_conditions :
      List Condition → List Condition → Option Condition → List Condition × Option Condition
  copy_conditions [] result provider_ready = (result, provider_ready)
  copy_conditions (condition ∷ more) result provider_ready =
      if condition.type == condition_type_ready
      then copy_conditions more result (some condition)
      else copy_conditions more (c.set_status_condition condition result) provider_ready

  unfoldable pub set_ready : List Condition × Option Condition → ℕ → List Condition
  set_ready (result, provider_ready) generation =
      let version_resolved = c.find_status_condition result condition_type_version_resolved in
      if is_true version_resolved
      then elim provider_ready [ none ↦ result | some ready ↦ c.set_status_condition ready result ]
      else c.set_status_condition (not_ready version_resolved generation) result

  -- `SyncConditions`
  unfoldable pub sync_conditions : List Condition → List Condition → ℕ → List Condition
  sync_conditions conditions provider_conditions generation =
      set_ready (copy_conditions provider_conditions conditions none) generation
