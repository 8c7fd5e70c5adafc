-- ===== src/Deletion.antt =====
-- pkg/controllers/hcp/deletion/controller.go: the Karpenter finalizer of the HostedControlPlane, and
-- the deletion of the Karpenter resources of a hosted cluster that is torn down.
pub mod Finalizer
pub mod Cleanup
pub mod Live
use openshift_karpenter_oper.Base.{
  ℕ, ◌-◌, ◌*◌, String, Bool, true, false, not, ◌&&◌, Option, none, some, List, [], ◌∷◌, M, Result,
  ok, err, Err, wrap, pure, fail, call, attempt, context, ◌>>=◌, ◌>>◌, is_hcp_not_found,
  if◌then◌else◌, ◌!=◌, string_eq, is_some, is_empty, ltb,
}
use openshift_karpenter_oper.Base.Dict.{Dict, insert}
use openshift_karpenter_oper.Kube.{
  HostedControlPlane, NodePool, NodeClaim, Requeue, finished, requeue_after,
}
use openshift_karpenter_oper.Kube.Finalizers.{Finalizers}
use openshift_karpenter_oper.Hypershift.{get_hosted_control_plane, is_cluster_deleting}
use openshift_karpenter_oper.Hypershift.UserData.{get_text}

abbrev pub karpenter_finalizer : String
karpenter_finalizer = "hypershift.openshift.io/karpenter-finalizer"

-- Times are in seconds.
abbrev pub node_claim_deletion_timeout : ℕ
node_claim_deletion_timeout = 180

abbrev pub karpenter_deletion_requeue_interval : ℕ
karpenter_deletion_requeue_interval = 15

-- `karpenterv1.NodeClaimTerminationTimestampAnnotationKey`
abbrev pub termination_annotation : String
termination_annotation = "karpenter.sh/nodeclaim-termination-timestamp"

-- The calls of a reconcile, with their answers.
pub data Event : Type 0 where
  listed_hosted_control_planes : Result (List HostedControlPlane) → Event
  got_capi_cluster : String → String → Result (Option (Unit {0})) → Event
  patched_hosted_control_plane : HostedControlPlane → Result (Unit {0}) → Event
  listed_node_pools : Result (List NodePool) → Event
  deleted_node_pool : NodePool → Result (Unit {0}) → Event
  listed_node_claims : Result (List NodeClaim) → Event
  deleted_node_claim : NodeClaim → Result (Unit {0}) → Event
  patched_node_claim : NodeClaim → Result (Unit {0}) → Event

-- The clients of the management cluster and of the hosted cluster, the clock, and `time`'s RFC 3339.
pub record Deps : Type 1 where
  pub World : Type 0
  pub finalizers : Finalizers
  pub list_hosted_control_planes : World → Result (List HostedControlPlane) × World
  pub get_capi_cluster : String → String → World → Result (Option (Unit {0})) × World
  pub patch_hosted_control_plane : HostedControlPlane → World → Result (Unit {0}) × World
  pub list_node_pools : World → Result (List NodePool) × World
  pub delete_node_pool : NodePool → World → Result (Unit {0}) × World
  pub list_node_claims : World → Result (List NodeClaim) × World
  pub delete_node_claim : NodeClaim → World → Result (Unit {0}) × World
  pub patch_node_claim : NodeClaim → World → Result (Unit {0}) × World
  pub now : World → ℕ
  pub format : ℕ → String

module _ (deps : Deps) where
  open deps use {World, now, format, finalizers}

  -- The loop of `deleteNodePools`.
  unfoldable pub delete_each_node_pool : List NodePool → M World Event (Unit {0})
  delete_each_node_pool [] = pure tt
  delete_each_node_pool (pool ∷ pools) =
      let rest = delete_each_node_pool pools in
      if is_some pool.deletion_timestamp then rest else do
        context "deleting NodePool" (call (deps.delete_node_pool pool) (deleted_node_pool pool))
        rest

  -- `deleteNodePools`
  unfoldable pub delete_node_pools : M World Event Bool
  delete_node_pools = do
    pools ← context "listing NodePools" (call deps.list_node_pools listed_node_pools)
    delete_each_node_pool pools
    pure (is_empty pools)

  -- The copy that `handleForcefulNodeClaimDeletion` sends.
  unfoldable pub terminated_copy : NodeClaim → ℕ → NodeClaim
  terminated_copy claim deletion_timestamp = record claim {
    annotations = insert termination_annotation (format deletion_timestamp) claim.annotations;
  }

  -- `handleForcefulNodeClaimDeletion`, of a claim with the given deletion timestamp.
  unfoldable pub handle_forceful_node_claim_deletion : NodeClaim → ℕ → M World Event (Unit {0})
  unfolding terminated_copy
  handle_forceful_node_claim_deletion claim deletion_timestamp =
      if get_text termination_annotation claim.annotations != ""
      then pure tt
      else let copy = terminated_copy claim deletion_timestamp in
        context "applying NodeClaim termination annotation"
          (call (deps.patch_node_claim copy) (patched_node_claim copy))

  -- The variable `force` of `deleteNodeClaims`, which is always set.
  abbrev pub force : Bool
  force = true

  -- One round of the loop of `deleteNodeClaims`.
  unfoldable pub delete_node_claim : NodeClaim → Option ℕ → M World Event (Unit {0})
  unfolding handle_forceful_node_claim_deletion
  delete_node_claim claim none w =
      context "deleting NodeClaim" (call (deps.delete_node_claim claim) (deleted_node_claim claim))
        w
  delete_node_claim claim (some deletion_timestamp) w =
      let elapsed = now w - deletion_timestamp in
      if not force && ltb elapsed node_claim_deletion_timeout
      then pure tt w
      else context "handling forceful NodeClaim deletion"
          (handle_forceful_node_claim_deletion claim deletion_timestamp) w

  unfoldable pub delete_each_node_claim : List NodeClaim → M World Event (Unit {0})
  delete_each_node_claim [] = pure tt
  delete_each_node_claim (claim ∷ claims) = do
    delete_node_claim claim claim.deletion_timestamp
    delete_each_node_claim claims

  -- `deleteNodeClaims`
  unfoldable pub delete_node_claims : M World Event Bool
  delete_node_claims = do
    claims ← context "listing NodeClaims" (call deps.list_node_claims listed_node_claims)
    delete_each_node_claim claims
    pure (is_empty claims)

  -- `cleanupKarpenterResources`
  unfoldable pub cleanup_karpenter_resources : M World Event Bool
  cleanup_karpenter_resources = do
    node_pools_gone ← delete_node_pools
    if node_pools_gone then delete_node_claims else pure false

  unfoldable pub patch_finalizers :
      String → HostedControlPlane → List String → M World Event Requeue
  patch_finalizers text hcp fs =
      let copy = record hcp { finalizers = fs } in
      do
        context text
            (call (deps.patch_hosted_control_plane copy) (patched_hosted_control_plane copy))
        pure finished

  -- What `reconcileDeletion` does once it knows whether all resources are gone.
  unfoldable pub after_cleanup : HostedControlPlane → Bool → M World Event Requeue
  after_cleanup hcp false = pure (requeue_after karpenter_deletion_requeue_interval)
  after_cleanup hcp true =
      if is_some hcp.deletion_timestamp
      then patch_finalizers "removing finalizer from HostedControlPlane" hcp
          (finalizers.remove_finalizer hcp.finalizers karpenter_finalizer)
      else pure finished

  -- `reconcileDeletion`
  unfoldable pub reconcile_deletion : HostedControlPlane → M World Event Requeue
  reconcile_deletion hcp =
      if finalizers.contains_finalizer hcp.finalizers karpenter_finalizer
      then (do cleaned_up ← cleanup_karpenter_resources; after_cleanup hcp cleaned_up)
      else pure finished

  -- What `Reconcile` does once it knows whether the cluster is being deleted.
  unfoldable pub reconcile_hcp : HostedControlPlane → Bool → M World Event Requeue
  reconcile_hcp hcp true = reconcile_deletion hcp
  reconcile_hcp hcp false =
      if finalizers.contains_finalizer hcp.finalizers karpenter_finalizer
      then pure finished
      else patch_finalizers "adding finalizer to HostedControlPlane" hcp
          (finalizers.add_finalizer hcp.finalizers karpenter_finalizer)

  unfoldable pub capi_cluster : String → String → M World Event (Option (Unit {0}))
  capi_cluster namespace name =
      call (deps.get_capi_cluster namespace name) (got_capi_cluster namespace name)

  unfoldable pub after_lookup : Result HostedControlPlane → M World Event Requeue
  unfolding capi_cluster
  after_lookup (ok hcp) = do
    cluster_deleting ←
        context "checking cluster deletion state" (is_cluster_deleting capi_cluster hcp)
    reconcile_hcp hcp cluster_deleting
  after_lookup (err e) = if is_hcp_not_found e then pure finished else fail e

  -- `Reconcile`
  unfoldable pub reconcile : String → M World Event Requeue
  unfolding after_lookup
  reconcile namespace = do
    got ← attempt (
        get_hosted_control_plane (call deps.list_hosted_control_planes listed_hosted_control_planes)
          namespace)
    after_lookup got
