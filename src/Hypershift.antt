-- ===== src/Hypershift.antt =====
-- pkg/hypershift: the HostedControlPlane of the operator's namespace, its upgrade and its deletion.
pub mod Upgrade
pub mod UserData
pub mod Enqueue
use openshift_karpenter_oper.Base.{
  String, ◌<>◌, Bool, true, false, Option, none, some, List, [], ◌∷◌, M, Result, ok, err, Err, wrap,
  message, hosted_control_plane_not_found, pure, fail, lift, call, attempt, context, ◌>>=◌,
  is_not_found, if◌then◌else◌, ◌==◌, ◌!=◌, string_eq, ◌&&◌, is_some, length, itoa, quote, find,
}
use openshift_karpenter_oper.Kube.{HostedControlPlane, UpdateHistory}

-- The switch of `GetHostedControlPlane` on the number of items.
unfoldable pub one_hosted_control_plane :
    String → List HostedControlPlane → Result HostedControlPlane
one_hosted_control_plane namespace [] =
    err (wrap ("in namespace " <> quote namespace) hosted_control_plane_not_found)
one_hosted_control_plane namespace (hcp ∷ []) = ok hcp
one_hosted_control_plane namespace (hcp ∷ other ∷ more) = err (
    message (
      "expected one hosted control plane in namespace "
      <> quote namespace
      <> ", found "
      <> itoa (length (hcp ∷ other ∷ more))))

-- The first update of the history that is completed, as the loop of `isControlPlaneUpgrading` finds it.
unfoldable pub last_completed : List UpdateHistory → Option UpdateHistory
last_completed = find (λ entry. entry.state == "Completed")

-- `isControlPlaneUpgrading`
unfoldable pub is_control_plane_upgrading : HostedControlPlane → Bool
unfolding last_completed
is_control_plane_upgrading hcp =
    let desired_image = hcp.control_plane_version.desired_image in
    if desired_image == "" then false else elim (last_completed hcp.control_plane_version.history) [
      | none ↦ false
      | some entry ↦ entry.image != desired_image
    ]

-- `WaitsForControlPlaneUpgrade`
unfoldable pub waits_for_control_plane_upgrade : HostedControlPlane → String → Bool
waits_for_control_plane_upgrade hcp version = version == "" && is_control_plane_upgrading hcp

module _ {W E : Type 0} where
  -- `GetHostedControlPlane`, over the call that lists the namespace.
  unfoldable pub get_hosted_control_plane :
      M W E (List HostedControlPlane) → String → M W E HostedControlPlane
  get_hosted_control_plane list namespace = do
    items ← context "listing hosted control planes" list
    lift (one_hosted_control_plane namespace items)

  after_capi_cluster : Result (Option (Unit {0})) → M W E Bool
  after_capi_cluster (ok deletion_timestamp) = pure (is_some deletion_timestamp)
  after_capi_cluster (err e) =
      if is_not_found e then pure false else fail (wrap "getting CAPI Cluster" e)

  -- `IsClusterDeleting`, over the call that gets the deletion mark of the CAPI Cluster of a namespace and name.
  unfoldable pub is_cluster_deleting :
      (String → String → M W E (Option (Unit {0}))) → HostedControlPlane → M W E Bool
  unfolding after_capi_cluster
  is_cluster_deleting get_capi_cluster hcp =
      if is_some hcp.deletion_timestamp
      then pure true
      else if hcp.infra_id == ""
      then pure false
      else do got ← attempt (get_capi_cluster hcp.namespace hcp.infra_id); after_capi_cluster got
