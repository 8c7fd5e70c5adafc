-- ===== src/AutoNode.antt =====
-- pkg/controllers/hcp/autonodestatus/controller.go: the node, NodeClaim and vCPU counts of a hosted cluster.
pub mod Counts
pub mod Watches
use native.Mathlib.Decide.{ℕ_discrete}
use openshift_karpenter_oper.Base.{
  ℕ, ◌+◌, ◌%◌, ◌^◌, String, Bool, true, false, Option, none, some, List, [], ◌∷◌, M, Result, ok,
  err, Err, pure, fail, call, attempt, context, ◌>>=◌, ◌>>◌, is_hcp_not_found, if◌then◌else◌, ◌==◌,
  ◌!=◌, string_eq, contains, map, length, is_some, get_or, Eq,
}
use openshift_karpenter_oper.Base.Dict.{Dict, lookup}
use openshift_karpenter_oper.Kube.{HostedControlPlane, NodeClaim, AutoNodeStatus, Requeue, finished}
use openshift_karpenter_oper.Hypershift.{get_hosted_control_plane}
use openshift_karpenter_oper.Hypershift.UserData.{WatchEvent, created, updated, deleted, generic}

-- `karpenterv1.NodePoolLabelKey` and `corev1.ResourceCPU`
abbrev pub node_pool_label_key : String
node_pool_label_key = "karpenter.sh/nodepool"

abbrev pub resource_cpu : String
resource_cpu = "cpu"

-- An `int32` and an `int64` are kept as their bit patterns.
abbrev pub int32 : ℕ → ℕ
int32 n = n % 2 ^ 32

abbrev pub int64 : ℕ → ℕ
int64 n = n % 2 ^ 64

-- `corev1.Node`
pub record Node : Type 0 where
  pub name : String
  pub labels : Dict String String

-- `resource.Quantity`, by its text: `Value`, as an `int64`, and `Equal`. "0" is the zero quantity,
-- which Go gives for a resource that is missing.
pub record Quantities : Type 0 where
  pub value : String → ℕ
  pub equal : String → String → Bool

unfoldable pub has_node_pool_label : Node → Bool
has_node_pool_label node = is_some (lookup node_pool_label_key node.labels)

-- The counter of the loop over the nodes of `reconcileAutoNodeStatus`.
unfoldable pub count_nodes : ℕ → List Node → ℕ
unfolding has_node_pool_label
count_nodes count [] = count
count_nodes count (node ∷ nodes) =
    count_nodes (if has_node_pool_label node then int32 (count + 1) else count) nodes

-- The set that the same loop builds.
unfoldable pub live_nodes : List Node → List String
live_nodes = map (λ node. node.name)

-- `hyperv1beta1.AutoNodeStatus` and semantic equality on it.
pub AutoNodeStatus-discrete : Discrete AutoNodeStatus
AutoNodeStatus-discrete = hlevel ℕ_discrete

instance unfoldable pub status_eq : Eq AutoNodeStatus
status_eq = record { dec = AutoNodeStatus-discrete }

-- The calls of a reconcile, with their answers.
pub data Event : Type 0 where
  listed_hosted_control_planes : Result (List HostedControlPlane) → Event
  listed_nodes : Result (List Node) → Event
  listed_node_claims : Result (List NodeClaim) → Event
  applied_status : String → AutoNodeStatus → Result (Unit {0}) → Event

pub record Deps : Type 1 where
  pub World : Type 0
  pub quantities : Quantities
  pub list_hosted_control_planes : World → Result (List HostedControlPlane) × World
  pub list_nodes : World → Result (List Node) × World
  pub list_node_claims : World → Result (List NodeClaim) × World
  pub apply_status : String → AutoNodeStatus → World → Result (Unit {0}) × World

module _ (quantities : Quantities) where
  -- The loop of `sumNodeClaimVCPUs`. A claim that is passed over leaves the total as it is.
  unfoldable pub sum_loop : ℕ → List NodeClaim → List String → ℕ
  sum_loop total [] live = total
  sum_loop total (claim ∷ claims) live =
      sum_loop
        (if contains live claim.node_name
          then elim (lookup resource_cpu claim.capacity) [
            | none ↦ total
            | some cpu ↦ int64 (total + quantities.value cpu)
          ]
          else total)
        claims live

  -- `sumNodeClaimVCPUs`
  unfoldable pub sum_node_claim_vcpus : List NodeClaim → List String → ℕ
  sum_node_claim_vcpus claims live = int32 (sum_loop 0 claims live)

  -- The status that `reconcileAutoNodeStatus` wants.
  unfoldable pub desired_status : List Node → List NodeClaim → AutoNodeStatus
  desired_status nodes claims = record {
    node_count = some (count_nodes 0 nodes);
    node_claim_count = some (int32 (length claims));
    vcpus = some (sum_node_claim_vcpus claims (live_nodes nodes));
  }

module _ (deps : Deps) where
  open deps use {World}

  -- `reconcileAutoNodeStatus`
  unfoldable pub reconcile_auto_node_status : HostedControlPlane → M World Event (Unit {0})
  reconcile_auto_node_status hcp = do
    nodes ← context "listing nodes" (call deps.list_nodes listed_nodes)
    claims ← context "listing NodeClaims" (call deps.list_node_claims listed_node_claims)
    let desired = desired_status deps.quantities nodes claims
    if hcp.auto_node == desired
        then pure tt
        else context "applying AutoNode status"
            (call (deps.apply_status hcp.name desired) (applied_status hcp.name desired))

  unfoldable pub after_lookup : Result HostedControlPlane → M World Event Requeue
  after_lookup (ok hcp) = do
    context "reconciling AutoNode status" (reconcile_auto_node_status hcp)
    pure finished
  after_lookup (err e) = if is_hcp_not_found e then pure finished else fail e

  -- `Reconcile`
  unfoldable pub reconcile : String → M World Event Requeue
  unfolding after_lookup
  reconcile namespace = do
    got ← attempt (
        get_hosted_control_plane (call deps.list_hosted_control_planes listed_hosted_control_planes)
          namespace)
    after_lookup got

-- `nodeClaimPredicate`
unfoldable pub node_claim_predicate : Quantities → WatchEvent NodeClaim → Bool
node_claim_predicate q (created _) = true
node_claim_predicate q (deleted _) = true
node_claim_predicate q (generic _) = false
node_claim_predicate q (updated old new) =
    let cpu = λ (claim : NodeClaim). get_or (lookup resource_cpu claim.capacity) "0" in
    if q.equal (cpu old) (cpu new) then old.node_name != new.node_name else true

-- `countChangePredicate`
unfoldable pub count_change_predicate : WatchEvent Node → Bool
unfolding has_node_pool_label
count_change_predicate (created _) = true
count_change_predicate (deleted _) = true
count_change_predicate (generic _) = false
count_change_predicate (updated old new) =
    if has_node_pool_label old
    then (if has_node_pool_label new then false else true)
    else has_node_pool_label new
