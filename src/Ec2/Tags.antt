-- ===== src/Ec2/Tags.antt =====
-- pkg/controllers/nodeclass/ec2/controller.go: the tags of an EC2NodeClass, from those of the cluster and
-- of the OpenshiftEC2NodeClass, and the condition that reports their conflicts.
pub mod Merge
pub mod Conflicts
use openshift_karpenter_oper.Base.{
  ℕ, ◌+◌, String, ◌<>◌, Bool, true, false, not, ◌&&◌, ◌||◌, Option, none, some, List, [], ◌∷◌,
  if◌then◌else◌, ◌==◌, string_eq, nat_eq, is_empty, find, itoa, get_or, is_some, ltb,
}
use openshift_karpenter_oper.Base.Dict.{Dict, lookup, insert}
use openshift_karpenter_oper.Kube.{
  ResourceTag, Condition, condition_true, condition_false, HostedControlPlane,
}

-- `hyperv1beta1.AWSResourceTagOverridePolicyAllow`
abbrev pub override_policy_allow : String
override_policy_allow = "Allow"

-- The loop over the platform's tags of `mergeEC2NodeClassTags`: `tags` and `allowOverride`.
unfoldable pub add_platform_tags :
    List ResourceTag → Dict String String → Dict String Bool → Dict String String × Dict String Bool
add_platform_tags [] tags allow_override = (tags, allow_override)
add_platform_tags (tag ∷ more) tags allow_override =
    add_platform_tags more (insert tag.key tag.value tags) (
      if tag.override_policy == override_policy_allow
      then insert tag.key true allow_override
      else allow_override)

-- The loop over the tags of the NodeClass.
unfoldable pub add_node_class_tags :
    Dict String String → Dict String String → Dict String Bool → Dict String String
add_node_class_tags [] tags allow_override = tags
add_node_class_tags ((k, v) ∷ more) tags allow_override =
    add_node_class_tags more
      (if is_some (lookup k tags) && not (get_or (lookup k allow_override) false)
        then tags
        else insert k v tags)
      allow_override

-- Both loops, over all tags of the platform and of the NodeClass.
unfoldable pub merged_tags : List ResourceTag → Dict String String → Dict String String
merged_tags platform node_class =
    let p = add_platform_tags platform [] [] in add_node_class_tags node_class p.0 p.1

-- `restricted` is whether one of the provider's `RestrictedTagPatterns` matches a key.
module _ (restricted : String → Bool) where
  -- The loop of `filterRestrictedTags`.
  unfoldable pub filter_loop :
      Dict String String → Dict String String → List String → Dict String String × List String
  filter_loop [] filtered removed = (filtered, removed)
  filter_loop ((k, v) ∷ tags) filtered removed =
      if restricted k
      then filter_loop tags filtered (k ∷ removed)
      else filter_loop tags (insert k v filtered) removed

  -- `filterRestrictedTags`
  unfoldable pub filter_restricted_tags : Dict String String → Dict String String × List String
  unfolding filter_loop
  filter_restricted_tags [] = ([], [])
  filter_restricted_tags (tag ∷ tags) = filter_loop (tag ∷ tags) [] []

  -- `mergeEC2NodeClassTags`. A nil map of tags has no entries.
  unfoldable pub merge_ec2_node_class_tags :
      Option (Dict String String) → HostedControlPlane → Option (Dict String String)
  merge_ec2_node_class_tags tags hcp =
      let filtered =
        (filter_restricted_tags (merged_tags (get_or hcp.resource_tags []) (get_or tags []))).0 in
      if not (is_some tags) && is_empty filtered then none else some filtered

-- The loop of `setAWSResourceTagConflictCondition`: `blocked` and `overridden`.
unfoldable pub count_conflicts : List ResourceTag → Dict String String → ℕ → ℕ → ℕ × ℕ
count_conflicts platform [] blocked overridden = (blocked, overridden)
count_conflicts platform ((k, v) ∷ tags) blocked overridden =
    elim (find (λ (t : ResourceTag). t.key == k) platform) [
      | none ↦ count_conflicts platform tags blocked overridden
      | some tag ↦
          if tag.value == v
          then count_conflicts platform tags blocked overridden
          else if tag.override_policy == override_policy_allow
          then count_conflicts platform tags blocked (overridden + 1)
          else count_conflicts platform tags (blocked + 1) overridden
    ]

-- `hyperv1beta1.NodePoolAWSResourceTagConflictConditionType` and its reasons.
abbrev pub conflict_condition_type : String
conflict_condition_type = "AWSResourceTagConflict"

abbrev pub no_conflict_reason : String
no_conflict_reason = "NoTagConflict"

abbrev pub conflict_detected_reason : String
conflict_detected_reason = "TagConflictDetected"

-- The condition that is set for the counts of the loop.
unfoldable pub conflict_condition : ℕ × ℕ → ℕ → Condition
conflict_condition (blocked, overridden) generation =
    if blocked == 0
    then record {
      type = conflict_condition_type;
      status = condition_false;
      observed_generation = generation;
      last_transition_time = 0;
      reason = no_conflict_reason;
      message =
          if ltb 0 overridden
          then itoa overridden
            <> " AWS resource tag override(s) applied; nodeclass values used (allowed by HostedCluster)"
          else "No AWS resource tag conflicts detected";
    }
    else record {
      type = conflict_condition_type;
      status = condition_true;
      observed_generation = generation;
      last_transition_time = 0;
      reason = conflict_detected_reason;
      message =
          let preserved =
            itoa blocked
            <> " AWS resource tag conflict(s) detected; HostedCluster values preserved (override not allowed)" in
          if ltb 0 overridden
          then preserved
            <> ("; " <> itoa overridden <> " override(s) applied (allowed by HostedCluster)")
          else preserved;
    }

-- `setAWSResourceTagConflictCondition`: the condition to set, or `none` where it is removed.
unfoldable pub tag_conflict_condition :
    Option (Dict String String) → ℕ → HostedControlPlane → Option Condition
unfolding conflict_condition count_conflicts
tag_conflict_condition tags generation hcp =
    let platform = get_or hcp.resource_tags [] in
    if is_empty platform || is_empty (get_or tags [])
    then none
    else some (conflict_condition (count_conflicts platform (get_or tags []) 0 0) generation)
