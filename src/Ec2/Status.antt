-- ===== src/Ec2/Status.antt =====
-- pkg/controllers/nodeclass/ec2/controller.go: the status of an OpenshiftEC2NodeClass, from that of the
-- EC2NodeClass.
use openshift_karpenter_oper.Base.{
  ℕ, String, ◌<>◌, Option, none, some, List, [], ◌∷◌, map, if◌then◌else◌, ◌==◌, string_eq, to_upper,
}
use openshift_karpenter_oper.Base.Dict.{Dict}
use openshift_karpenter_oper.Kube.{Condition, HostedControlPlane}
use openshift_karpenter_oper.NodeClass.Status.{Conditions, sync_conditions}
use openshift_karpenter_oper.Ec2.Types.{
  CapacityReservation, OpenshiftEc2NodeClass, OpenshiftEc2NodeClassStatus,
  capacity_reservation_type_default, capacity_reservation_type_capacity_block,
  capacity_reservation_state_active, capacity_reservation_state_expiring,
}
use openshift_karpenter_oper.Ec2.Upstream.{
  CapacityReservationStatus, Ec2NodeClassStatus, SecurityGroupStatus, SubnetStatus,
}
use openshift_karpenter_oper.Ec2.Tags.{conflict_condition_type, tag_conflict_condition}

-- `upstreamInstanceMatchCriteria`. The slice of an empty text is a panic, here `none`.
unfoldable pub upstream_instance_match_criteria : String → Option String
upstream_instance_match_criteria String.[] = none
upstream_instance_match_criteria (String.◌∷◌ c s) = some (to_upper (String.◌∷◌ c String.[]) <> s)

-- `upstreamReservationType`
unfoldable pub upstream_reservation_type : String → String
upstream_reservation_type value =
    if value == "capacity-block"
    then capacity_reservation_type_capacity_block
    else capacity_reservation_type_default

-- `upstreamReservationState`
unfoldable pub upstream_reservation_state : String → String
upstream_reservation_state value =
    if value == "expiring"
    then capacity_reservation_state_expiring
    else capacity_reservation_state_active

-- A round of the loop over the reservations of `reconcileStatus`.
unfoldable pub resolved_reservation : CapacityReservationStatus → Option CapacityReservation
unfolding upstream_instance_match_criteria upstream_reservation_type upstream_reservation_state
resolved_reservation cr = elim (upstream_instance_match_criteria cr.instance_match_criteria) [
  | none ↦ none
  | some criteria ↦ some record {
    availability_zone = cr.availability_zone;
    end_time = cr.end_time;
    id = cr.id;
    instance_match_criteria = criteria;
    instance_type = cr.instance_type;
    owner_id = cr.owner_id;
    reservation_type = upstream_reservation_type cr.reservation_type;
    state = upstream_reservation_state cr.state;
  }
]

-- The loop itself, which panics with any of its rounds.
unfoldable pub resolved_reservations :
    List CapacityReservationStatus → Option (List CapacityReservation)
unfolding resolved_reservation
resolved_reservations [] = some []
resolved_reservations (cr ∷ more) =
    let rest = resolved_reservations more in
    elim (resolved_reservation cr) [
      | none ↦ none
      | some resolved ↦ elim rest [ none ↦ none | some all_ ↦ some (resolved ∷ all_) ]
    ]

-- `meta.SetStatusCondition` and `meta.FindStatusCondition`, and `meta.RemoveStatusCondition`.
module _ (c : Conditions) (remove_status_condition : List Condition → String → List Condition) where
  -- `setAWSResourceTagConflictCondition`
  unfoldable pub set_tag_conflict_condition :
      List Condition → Option (Dict String String) → ℕ → HostedControlPlane → List Condition
  set_tag_conflict_condition conditions tags generation hcp =
      elim (tag_conflict_condition tags generation hcp) [
        | none ↦ remove_status_condition conditions conflict_condition_type
        | some condition ↦ c.set_status_condition condition conditions
      ]

  -- The status that `reconcileStatus` sets, or `none` where it panics.
  unfoldable pub reconciled_status :
      Ec2NodeClassStatus
      → OpenshiftEc2NodeClass
      → HostedControlPlane
      → Option OpenshiftEc2NodeClassStatus
  unfolding set_tag_conflict_condition resolved_reservations
  reconciled_status provider openshift hcp =
      elim (resolved_reservations provider.capacity_reservations) [
        | none ↦ none
        | some reservations ↦ some (record openshift.status {
          security_groups =
              map (λ (sg : SecurityGroupStatus). record { id = sg.id; name = sg.name })
                provider.security_groups;
          subnets =
              map (λ (s : SubnetStatus). record { id = s.id; zone = s.zone; zone_id = s.zone_id })
                provider.subnets;
          capacity_reservations = reservations;
          conditions =
              set_tag_conflict_condition
                (sync_conditions c openshift.status.conditions provider.conditions
                  openshift.generation)
                openshift.spec.tags openshift.generation hcp;
        })
      ]
