-- ===== src/Deletion/Live.antt =====
-- pkg/controllers/hcp/deletion/controller.go: a cluster that is not being deleted gets the finalizer once.
use openshift_karpenter_oper.Base.{
  String, ◌≡◌, ◌≢◌, true, false, Option, none, some, [], ◌∷◌, arith, Result, ok, err, is_not_found,
  string_eq, if◌then◌else◌, is_ok,
}
use openshift_karpenter_oper.Kube.{HostedControlPlane, asks_again}
use openshift_karpenter_oper.Hypershift.{
  get_hosted_control_plane, is_cluster_deleting, one_hosted_control_plane,
}
use openshift_karpenter_oper.Deletion.{
  karpenter_finalizer, listed_hosted_control_planes, got_capi_cluster, patched_hosted_control_plane,
  Deps, patch_finalizers, reconcile_hcp, reconcile,
}

-- The CAPI Cluster is there and not marked for deletion, or it is not found.
abbrev pub IsLive : Result (Option (Unit {0})) → Type 0
IsLive (ok deletion_timestamp) = deletion_timestamp ≡ none
IsLive (err e) = is_not_found e ≡ true

module _ (deps : Deps) where
  open deps use {finalizers}

  -- Where neither the only HostedControlPlane of the namespace, which has an infrastructure id, nor its
  -- CAPI Cluster is being deleted, a run reads both, and then stores the object with the Karpenter finalizer
  -- added if it lacks it, and writes nothing if it has it. It asks for no later run, and fails only if that
  -- write fails.
  pub reconcile-live :
      (namespace : String) (hcp : HostedControlPlane) (answer : Result (Option (Unit {0})))
      (w w1 w2 : deps.World)
      → deps.list_hosted_control_planes w ≡ (ok (hcp ∷ []), w1)
      → hcp.deletion_timestamp ≡ none
      → hcp.infra_id ≢ ""
      → deps.get_capi_cluster hcp.namespace hcp.infra_id w1 ≡ (answer, w2)
      → IsLive answer
      → let copy = record hcp {
        finalizers = finalizers.add_finalizer hcp.finalizers karpenter_finalizer;
      } in
        let sent = (deps.patch_hosted_control_plane copy w2).0 in
        let has = finalizers.contains_finalizer hcp.finalizers karpenter_finalizer in
        ((reconcile deps namespace w).2
          ≡ listed_hosted_control_planes (ok (hcp ∷ []))
            ∷ got_capi_cluster hcp.namespace hcp.infra_id answer
            ∷ (if has then [] else patched_hosted_control_plane copy sent ∷ []))
        × (is_ok (reconcile deps namespace w).0 ≡ (if has then true else is_ok sent))
        × (asks_again (reconcile deps namespace w).0 ≡ false)
  unfolding reconcile get_hosted_control_plane one_hosted_control_plane is_cluster_deleting
      reconcile_hcp patch_finalizers
  reconcile-live namespace hcp (ok none) w w1 w2 listed unmarked infra got live =
      (ground arith, ground arith, ground arith)
  reconcile-live namespace hcp (ok (some _)) w w1 w2 listed unmarked infra got live = cc
  reconcile-live namespace hcp (err e) w w1 w2 listed unmarked infra got live =
      (ground arith, ground arith, ground arith)
