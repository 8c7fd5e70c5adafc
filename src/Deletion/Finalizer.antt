-- ===== src/Deletion/Finalizer.antt =====
-- pkg/controllers/hcp/deletion/controller.go: when the finalizer of the HostedControlPlane goes.
use openshift_karpenter_oper.Base.{
  ℕ, String, ◌≡◌, refl, ◌≢◌, inl, inr, Bool, true, false, not, Option, none, some, List, [], ◌∷◌,
  arith, Result, ok, Result-cases, Bool-cases, any-append, never_and_then, context, pure, is_empty,
  any, is_some, string_eq, if◌then◌else◌,
}
use openshift_karpenter_oper.Kube.{HostedControlPlane, NodePool, NodeClaim}
use openshift_karpenter_oper.Kube.Finalizers.{IsLawful}
use openshift_karpenter_oper.Hypershift.{
  get_hosted_control_plane, is_cluster_deleting, one_hosted_control_plane,
}
use openshift_karpenter_oper.Deletion.{
  karpenter_finalizer, Event, listed_hosted_control_planes, patched_hosted_control_plane,
  listed_node_pools, listed_node_claims, Deps, delete_each_node_pool, delete_node_pools,
  delete_node_claim, delete_each_node_claim, delete_node_claims, cleanup_karpenter_resources,
  patch_finalizers, after_cleanup, reconcile_deletion, reconcile_hcp, capi_cluster, after_lookup,
  reconcile,
}

module _ (deps : Deps) where
  open deps use {finalizers}

  -- A call that stores the HostedControlPlane without the Karpenter finalizer.
  abbrev pub removes : Event → Bool
  removes (patched_hosted_control_plane hcp _) =
      not (finalizers.contains_finalizer hcp.finalizers karpenter_finalizer)
  removes _ = false

  -- The object that is stored when the finalizer goes.
  abbrev pub without : HostedControlPlane → HostedControlPlane
  without hcp = record hcp {
    finalizers = finalizers.remove_finalizer hcp.finalizers karpenter_finalizer;
  }

  delete_each_node_pool-keeps :
      (pools : List NodePool) (w : deps.World)
      → any removes (delete_each_node_pool deps pools w).2 ≡ false
  unfolding delete_each_node_pool
  delete_each_node_pool-keeps [] w = refl
  delete_each_node_pool-keeps (pool ∷ pools) w = ground (
    arith,
    delete_each_node_pool-keeps pools w,
    delete_each_node_pool-keeps pools (deps.delete_node_pool pool w).1,
  )

  delete_node_claim-keeps :
      (claim : NodeClaim) (t : Option ℕ) (w : deps.World)
      → any removes (delete_node_claim deps claim t w).2 ≡ false
  unfolding delete_node_claim
  delete_node_claim-keeps claim none w = refl
  delete_node_claim-keeps claim (some t) w = ground arith

  delete_each_node_claim-keeps :
      (claims : List NodeClaim) (w : deps.World)
      → any removes (delete_each_node_claim deps claims w).2 ≡ false
  unfolding delete_each_node_claim
  delete_each_node_claim-keeps [] w = refl
  delete_each_node_claim-keeps (claim ∷ claims) w =
      never_and_then removes (delete_node_claim deps claim claim.deletion_timestamp w)
        (λ _. delete_each_node_claim deps claims)
        (delete_node_claim-keeps claim claim.deletion_timestamp w)
        (λ _. delete_each_node_claim-keeps claims)

  delete_node_pools-keeps : (w : deps.World) → any removes (delete_node_pools deps w).2 ≡ false
  unfolding delete_node_pools
  delete_node_pools-keeps w = elim (Result-cases (deps.list_node_pools w).0) [
    | inr (e, bad) ↦ rw bad
    | inl (pools, listed) ↦ rw listed (
        never_and_then removes (delete_each_node_pool deps pools (deps.list_node_pools w).1)
          (λ _. pure (is_empty pools)) (delete_each_node_pool-keeps pools _) (λ _ _. refl))
  ]

  delete_node_claims-keeps : (w : deps.World) → any removes (delete_node_claims deps w).2 ≡ false
  unfolding delete_node_claims
  delete_node_claims-keeps w = elim (Result-cases (deps.list_node_claims w).0) [
    | inr (e, bad) ↦ rw bad
    | inl (claims, listed) ↦ rw listed (
        never_and_then removes (delete_each_node_claim deps claims (deps.list_node_claims w).1)
          (λ _. pure (is_empty claims)) (delete_each_node_claim-keeps claims _) (λ _ _. refl))
  ]

  gone_or_not-keeps :
      (gone : Bool) (w : deps.World)
      → any removes ((if gone then delete_node_claims deps else pure false) w).2 ≡ false
  gone_or_not-keeps true w = delete_node_claims-keeps w
  gone_or_not-keeps false w = refl

  cleanup-keeps : (w : deps.World) → any removes (cleanup_karpenter_resources deps w).2 ≡ false
  unfolding cleanup_karpenter_resources
  cleanup-keeps w =
      never_and_then removes (delete_node_pools deps w)
        (λ gone. if gone then delete_node_claims deps else pure false) (delete_node_pools-keeps w)
        gone_or_not-keeps

  cleanup-done :
      (w : deps.World)
      → (cleanup_karpenter_resources deps w).0 ≡ ok true
      → (cleanup_karpenter_resources deps w).2
        ≡ listed_node_pools (ok []) ∷ listed_node_claims (ok []) ∷ []
  unfolding cleanup_karpenter_resources delete_node_pools delete_node_claims delete_each_node_pool
      delete_each_node_claim
  cleanup-done w done = ground arith

  -- A run that takes the finalizer away, taken apart.
  pub record Removed (t : List Event) : Type 0 where
    pub hcp : HostedControlPlane
    pub marked : hcp.deletion_timestamp ≢ none
    pub held : finalizers.contains_finalizer hcp.finalizers karpenter_finalizer ≡ true
    pub answer : Result (Unit {0})
    pub whole :
        t
        ≡ listed_hosted_control_planes (ok (hcp ∷ []))
          ∷ listed_node_pools (ok [])
          ∷ listed_node_claims (ok [])
          ∷ patched_hosted_control_plane (without hcp) answer
          ∷ []

  module _ (laws : IsLawful finalizers) where
    reconcile_deletion-removes :
        (hcp : HostedControlPlane) (w : deps.World)
        → any removes (reconcile_deletion deps hcp w).2 ≡ true
        → (hcp.deletion_timestamp ≢ none)
          × (finalizers.contains_finalizer hcp.finalizers karpenter_finalizer ≡ true)
          × (answer : Result (Unit {0})) × ((reconcile_deletion deps hcp w).2
              ≡ listed_node_pools (ok [])
                ∷ listed_node_claims (ok [])
                ∷ patched_hosted_control_plane (without hcp) answer
                ∷ [])
    unfolding reconcile_deletion after_cleanup patch_finalizers
    reconcile_deletion-removes hcp w h =
        elim (Result-cases (cleanup_karpenter_resources deps w).0) [
          | inr (e, bad) ↦ absurd (ground (arith, cleanup-keeps w))
          | inl (false, bad) ↦ absurd (
              ground (
                arith,
                cleanup-keeps w,
                any-append removes (cleanup_karpenter_resources deps w).2 [],
              ))
          | inl (true, good) ↦ (
            ground (arith, cleanup-done w good),
            ground (arith, cleanup-done w good),
            (deps.patch_hosted_control_plane (without hcp)
                (cleanup_karpenter_resources deps w).1).0,
            ground (arith, cleanup-done w good),
          )
        ]

    reconcile_deletion-unmarked :
        (hcp : HostedControlPlane) (w : deps.World)
        → hcp.deletion_timestamp ≡ none
        → any removes (reconcile_deletion deps hcp w).2 ≡ false
    reconcile_deletion-unmarked hcp w unmarked =
        elim (Bool-cases (any removes (reconcile_deletion deps hcp w).2)) [
          | inl removed ↦ absurd ((reconcile_deletion-removes hcp w removed).0 unmarked)
          | inr kept ↦ kept
        ]

    reconcile_hcp-unmarked :
        (hcp : HostedControlPlane)
        → hcp.deletion_timestamp ≡ none
        → (deleting : Bool) (w : deps.World)
        → any removes (reconcile_hcp deps hcp deleting w).2 ≡ false
    unfolding reconcile_hcp patch_finalizers
    reconcile_hcp-unmarked hcp unmarked true w = reconcile_deletion-unmarked hcp w unmarked
    reconcile_hcp-unmarked hcp unmarked false w =
        ground (arith, laws.contains-add hcp.finalizers karpenter_finalizer)

    after_lookup-unmarked :
        (hcp : HostedControlPlane) (w : deps.World)
        → hcp.deletion_timestamp ≡ none
        → any removes (after_lookup deps (ok hcp) w).2 ≡ false
    unfolding after_lookup is_cluster_deleting
    after_lookup-unmarked hcp w unmarked =
        never_and_then removes
          (context "checking cluster deletion state" (is_cluster_deleting (capi_cluster deps) hcp)
            w)
          (reconcile_hcp deps hcp) (ground arith) (reconcile_hcp-unmarked hcp unmarked)

    after_lookup-marked :
        (hcp : HostedControlPlane) (w : deps.World)
        → is_some hcp.deletion_timestamp ≡ true
        → (after_lookup deps (ok hcp) w).2 ≡ (reconcile_deletion deps hcp w).2
    unfolding after_lookup is_cluster_deleting reconcile_hcp
    after_lookup-marked hcp w marked = ground arith

    reconcile-one :
        (namespace : String) (w : deps.World) (hcp : HostedControlPlane)
        → (deps.list_hosted_control_planes w).0 ≡ ok (hcp ∷ [])
        → (reconcile deps namespace w).2
          ≡ listed_hosted_control_planes (ok (hcp ∷ []))
            ∷ (after_lookup deps (ok hcp) (deps.list_hosted_control_planes w).1).2
    unfolding reconcile get_hosted_control_plane one_hosted_control_plane
    reconcile-one namespace w hcp listed = rw listed

    one-Removed :
        (namespace : String) (w : deps.World) (hcp : HostedControlPlane)
        → (deps.list_hosted_control_planes w).0 ≡ ok (hcp ∷ [])
        → any removes (reconcile deps namespace w).2 ≡ true
        → Removed (reconcile deps namespace w).2
    one-Removed namespace w hcp listed h =
        let w' = (deps.list_hosted_control_planes w).1 in
        let run = reconcile-one namespace w hcp listed in
        elim (Bool-cases (is_some hcp.deletion_timestamp)) [
          | inr unmarked ↦ absurd (ground (arith, run, after_lookup-unmarked hcp w' (ground arith)))
          | inl marked ↦
              let same = after_lookup-marked hcp w' marked in
              let (unexpired, held, answer, whole) =
                reconcile_deletion-removes hcp w' (ground (arith, run, same)) in
              record {
                hcp = hcp;
                marked = unexpired;
                held = held;
                answer = answer;
                whole = ground (arith, run, same, whole);
              }
        ]

    -- If a reconcile stores the HostedControlPlane without the Karpenter finalizer, then that object
    -- was the only one of the namespace, it carries a deletion timestamp and held the finalizer, the
    -- lists of NodePools and of NodeClaims both came back empty in this run, and these three reads and
    -- the write are all calls of the run, in this order.
    pub reconcile-Removed :
        (namespace : String) (w : deps.World)
        → any removes (reconcile deps namespace w).2 ≡ true
        → Removed (reconcile deps namespace w).2
    unfolding reconcile get_hosted_control_plane one_hosted_control_plane
    reconcile-Removed namespace w h = elim (Result-cases (deps.list_hosted_control_planes w).0) [
      | inr (e, bad) ↦ absurd (ground arith)
      | inl ([], nothing) ↦ absurd (ground arith)
      | inl (hcp ∷ other ∷ more, many) ↦ absurd (ground arith)
      | inl (hcp ∷ [], listed) ↦ one-Removed namespace w hcp listed h
    ]
