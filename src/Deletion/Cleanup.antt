-- ===== src/Deletion/Cleanup.antt =====
-- pkg/controllers/hcp/deletion/controller.go: what a clean-up deletes and marks, and how a live
-- HostedControlPlane gets its finalizer.
use mathlib.Core.List.{append-nil}
use openshift_karpenter_oper.Base.{
  ℕ, ◌≡◌, refl, ◌≢◌, ◌⊎◌, inl, inr, Bool, false, Option, none, some, List, [], ◌∷◌, ◌++◌, arith, ok,
  Result-cases, Bool-cases, is_empty, string_eq, if◌then◌else◌, ◌==◌,
}
use openshift_karpenter_oper.Kube.{NodePool, NodeClaim}
use openshift_karpenter_oper.Hypershift.UserData.{get_text}
use openshift_karpenter_oper.Deletion.{
  termination_annotation, Event, listed_node_pools, deleted_node_pool, listed_node_claims,
  deleted_node_claim, patched_node_claim, Deps, delete_each_node_pool, delete_node_pools,
  delete_node_claim, delete_each_node_claim, delete_node_claims, terminated_copy,
  cleanup_karpenter_resources,
}

module _ (deps : Deps) where
  -- The calls that the NodePools of a list need: one deletion for each that is not being deleted.
  abbrev pub pool_calls : List NodePool → List Event
  pool_calls [] = []
  pool_calls (pool ∷ pools) = elim pool.deletion_timestamp [
    | none ↦ deleted_node_pool pool (ok tt) ∷ pool_calls pools
    | some _ ↦ pool_calls pools
  ]

  -- The call that a NodeClaim needs: a deletion, or the termination annotation unless it has one.
  abbrev claim_call : NodeClaim → Option ℕ → List Event
  claim_call claim none = deleted_node_claim claim (ok tt) ∷ []
  claim_call claim (some t) =
      if get_text termination_annotation claim.annotations == ""
      then patched_node_claim (terminated_copy deps claim t) (ok tt) ∷ []
      else []

  abbrev pub claim_calls : List NodeClaim → List Event
  claim_calls [] = []
  claim_calls (claim ∷ claims) = claim_call claim claim.deletion_timestamp ++ claim_calls claims

  delete_each_node_pool-calls :
      (pools : List NodePool) (w : deps.World)
      → (delete_each_node_pool deps pools w).0 ≡ ok tt
      → (delete_each_node_pool deps pools w).2 ≡ pool_calls pools
  unfolding delete_each_node_pool
  delete_each_node_pool-calls [] w h = refl
  delete_each_node_pool-calls (pool ∷ pools) w h = ground (
    arith,
    delete_each_node_pool-calls pools w,
    delete_each_node_pool-calls pools (deps.delete_node_pool pool w).1,
  )

  delete_node_claim-calls :
      (claim : NodeClaim) (t : Option ℕ) (w : deps.World)
      → (delete_node_claim deps claim t w).0 ≡ ok tt
      → (delete_node_claim deps claim t w).2 ≡ claim_call claim t
  unfolding delete_node_claim
  delete_node_claim-calls claim none w h = ground arith
  delete_node_claim-calls claim (some t) w h = ground arith

  delete_each_node_claim-calls :
      (claims : List NodeClaim) (w : deps.World)
      → (delete_each_node_claim deps claims w).0 ≡ ok tt
      → (delete_each_node_claim deps claims w).2 ≡ claim_calls claims
  unfolding delete_each_node_claim
  delete_each_node_claim-calls [] w h = refl
  delete_each_node_claim-calls (claim ∷ claims) w h = ground (
    arith,
    delete_node_claim-calls claim claim.deletion_timestamp w,
    delete_each_node_claim-calls claims (delete_node_claim deps claim claim.deletion_timestamp w).1,
  )

  delete_node_pools-calls :
      (w : deps.World) {gone : Bool}
      → (delete_node_pools deps w).0 ≡ ok gone
      → (pools : List NodePool) × ((deps.list_node_pools w).0 ≡ ok pools)
        × (gone ≡ is_empty pools)
        × ((delete_node_pools deps w).2 ≡ listed_node_pools (ok pools) ∷ pool_calls pools)
  unfolding delete_node_pools
  delete_node_pools-calls w h = elim (Result-cases (deps.list_node_pools w).0) [
    | inr (e, bad) ↦ absurd (ground arith)
    | inl (pools, listed) ↦
        let run = delete_each_node_pool deps pools (deps.list_node_pools w).1 in
        (
          pools,
          listed,
          ground arith,
          ground (
            arith,
            append-nil run.2,
            delete_each_node_pool-calls pools (deps.list_node_pools w).1,
          ),
        )
  ]

  delete_node_claims-calls :
      (w : deps.World) {gone : Bool}
      → (delete_node_claims deps w).0 ≡ ok gone
      → (claims : List NodeClaim) × (gone ≡ is_empty claims)
        × ((delete_node_claims deps w).2 ≡ listed_node_claims (ok claims) ∷ claim_calls claims)
  unfolding delete_node_claims
  delete_node_claims-calls w h = elim (Result-cases (deps.list_node_claims w).0) [
    | inr (e, bad) ↦ absurd (ground arith)
    | inl (claims, listed) ↦
        let run = delete_each_node_claim deps claims (deps.list_node_claims w).1 in
        (
          claims,
          ground arith,
          ground (
            arith,
            append-nil run.2,
            delete_each_node_claim-calls claims (deps.list_node_claims w).1,
          ),
        )
  ]

  -- A clean-up that ends well has listed the NodePools. If there are any, it has deleted exactly those
  -- that were not being deleted, has left the NodeClaims alone and reports that it is not done. If
  -- there are none, it has listed the NodeClaims, deleted exactly those that were not being deleted,
  -- set the termination annotation on exactly those that were and had none, and reports whether the
  -- list was empty.
  pub cleanup-calls :
      (w : deps.World) {done : Bool}
      → (cleanup_karpenter_resources deps w).0 ≡ ok done
      → (pools : List NodePool) × ((deps.list_node_pools w).0 ≡ ok pools)
        × (((pools ≢ [])
              × (done ≡ false)
              × ((cleanup_karpenter_resources deps w).2
                  ≡ listed_node_pools (ok pools) ∷ pool_calls pools))
            ⊎ ((pools ≡ [])
                × (claims : List NodeClaim) × (done ≡ is_empty claims)
                × ((cleanup_karpenter_resources deps w).2
                    ≡ listed_node_pools (ok [])
                      ∷ listed_node_claims (ok claims)
                      ∷ claim_calls claims)))
  unfolding cleanup_karpenter_resources
  cleanup-calls w {done} h = elim (Result-cases (delete_node_pools deps w).0) [
    | inr (e, bad) ↦ absurd (ground arith)
    | inl (gone, pooled) ↦
        let (pools, listed, empty, calls) = delete_node_pools-calls w {gone = gone} pooled in
        elim (Bool-cases gone) [
          | inr left ↦ (
            pools,
            listed,
            inl (ground arith, ground arith, ground (arith, append-nil (pool_calls pools))),
          )
          | inl none_left ↦
              let w' = (delete_node_pools deps w).1 in
              let (claims, empty', calls') =
                delete_node_claims-calls w' {gone = done} (ground arith) in
              (pools, listed, inr (ground arith, claims, empty', ground arith))
        ]
  ]
