-- ===== src/Tests/Deletion.antt =====
-- Runs of pkg/controllers/hcp/deletion/controller.go on a small hosted cluster.
use text.Mathlib.TextEquality.{eq_iff}
use openshift_karpenter_oper.Base.{
  ◌≡◌, refl, ◌≢◌, ◌⊎◌, true, false, none, some, List, [], ◌∷◌, arith, ok, err, api, not_found,
  string_eq, is_ok, is_empty,
}
use openshift_karpenter_oper.Base.Dict.{lookup}
use openshift_karpenter_oper.Kube.{HostedControlPlane, NodePool, NodeClaim, asks_again}
use openshift_karpenter_oper.Hypershift.{
  get_hosted_control_plane, is_cluster_deleting, one_hosted_control_plane,
}
use openshift_karpenter_oper.Deletion.{
  karpenter_finalizer, listed_hosted_control_planes, got_capi_cluster, patched_hosted_control_plane,
  listed_node_pools, listed_node_claims, deleted_node_claim, patched_node_claim, Deps,
  delete_each_node_pool, delete_node_pools, delete_node_claim, delete_each_node_claim,
  delete_node_claims, terminated_copy, cleanup_karpenter_resources, patch_finalizers, after_cleanup,
  reconcile_deletion, reconcile_hcp, reconcile,
}
use openshift_karpenter_oper.Deletion.Finalizer.{Removed, reconcile-Removed}
use openshift_karpenter_oper.Deletion.Cleanup.{pool_calls, claim_calls, cleanup-calls}
use openshift_karpenter_oper.Deletion.Live.{reconcile-live}
use openshift_karpenter_oper.Tests.Objects.{hcp, plain, plain-IsLawful}

record Cluster : Type 0 where
  control_planes : List HostedControlPlane
  pools : List NodePool
  claims : List NodeClaim

-- A cluster in which nothing is finalized while a reconcile runs.
abbrev still : Deps
still = record {
  World = Cluster;
  finalizers = plain;
  list_hosted_control_planes = λ w. (ok w.control_planes, w);
  get_capi_cluster = λ namespace name w. (err (api not_found), w);
  patch_hosted_control_plane = λ h w. (ok tt, record w { control_planes = h ∷ [] });
  list_node_pools = λ w. (ok w.pools, w);
  delete_node_pool = λ p w. (ok tt, w);
  list_node_claims = λ w. (ok w.claims, w);
  delete_node_claim = λ c w. (ok tt, w);
  patch_node_claim = λ c w. (ok tt, w);
  now = λ w. 1000;
  format = λ t. "then";
}

abbrev dying : HostedControlPlane
dying = record hcp { finalizers = karpenter_finalizer ∷ []; deletion_timestamp = some 900 }

abbrev empty : Cluster
empty = record { control_planes = dying ∷ []; pools = []; claims = [] }

last_run :
    (reconcile still "clusters-one" empty).2
    ≡ listed_hosted_control_planes (ok (dying ∷ []))
      ∷ listed_node_pools (ok [])
      ∷ listed_node_claims (ok [])
      ∷ patched_hosted_control_plane (record dying { finalizers = [] }) (ok tt)
      ∷ []
unfolding reconcile get_hosted_control_plane one_hosted_control_plane is_cluster_deleting
    reconcile_hcp reconcile_deletion cleanup_karpenter_resources delete_node_pools
    delete_node_claims delete_each_node_pool delete_each_node_claim after_cleanup patch_finalizers
    string_eq
last_run = refl

reconcile-Removed_example : Removed still (reconcile still "clusters-one" empty).2
unfolding string_eq
reconcile-Removed_example =
    reconcile-Removed still plain-IsLawful "clusters-one" empty (rw last_run)

abbrev claim : NodeClaim
claim = record {
  name = "claim-1";
  deletion_timestamp = none;
  annotations = [];
  node_name = "";
  provider_id = "";
  capacity = [];
}

abbrev terminating : NodeClaim
terminating = record claim { name = "claim-2"; deletion_timestamp = some 950 }

abbrev busy : Cluster
busy = record empty { claims = claim ∷ terminating ∷ [] }

busy_run : cleanup_karpenter_resources still busy ≡ (
  ok false,
  busy,
  listed_node_pools (ok [])
      ∷ listed_node_claims (ok (claim ∷ terminating ∷ []))
      ∷ deleted_node_claim claim (ok tt)
      ∷ patched_node_claim (terminated_copy still terminating 950) (ok tt)
      ∷ [],
)
unfolding cleanup_karpenter_resources delete_node_pools delete_node_claims delete_each_node_pool
    delete_each_node_claim delete_node_claim string_eq lookup
busy_run = refl

cleanup-calls_example :
    (pools : List NodePool) × (ok busy.pools ≡ ok pools)
    × (((pools ≢ [])
          × (false ≡ false)
          × ((cleanup_karpenter_resources still busy).2
              ≡ listed_node_pools (ok pools) ∷ pool_calls still pools))
        ⊎ ((pools ≡ [])
            × (claims : List NodeClaim) × (false ≡ is_empty claims)
            × ((cleanup_karpenter_resources still busy).2
                ≡ listed_node_pools (ok [])
                  ∷ listed_node_claims (ok claims)
                  ∷ claim_calls still claims)))
cleanup-calls_example = cleanup-calls still busy {done = false} (rw busy_run)

reconcile-live_example :
    ((reconcile still "clusters-one" (record empty { control_planes = hcp ∷ [] })).2
      ≡ listed_hosted_control_planes (ok (hcp ∷ []))
        ∷ got_capi_cluster "clusters-one" "one-x7" (err (api not_found))
        ∷ patched_hosted_control_plane
            (record hcp { finalizers = karpenter_finalizer ∷ [] })
            (ok tt)
        ∷ [])
    × (is_ok (reconcile still "clusters-one" (record empty { control_planes = hcp ∷ [] })).0 ≡ true)
    × (asks_again (reconcile still "clusters-one" (record empty { control_planes = hcp ∷ [] })).0
        ≡ false)
reconcile-live_example =
    let w : Cluster = record empty { control_planes = hcp ∷ [] } in
    reconcile-live still "clusters-one" hcp (err (api not_found)) w w w refl refl
      (ground (arith, eq_iff "one-x7" "")) refl refl
