-- ===== src/AutoNode/Watches.antt =====
-- pkg/controllers/hcp/autonodestatus/controller.go: what the watches pass over changes no count.
use openshift_karpenter_oper.Base.{
  ℕ, String, ◌≡◌, true, false, List, [], ◌∷◌, ◌++◌, arith, Bool-cases, Option-cases, inl, inr,
  if◌then◌else◌, string_eq, contains, get_or,
}
use openshift_karpenter_oper.Base.Dict.{lookup}
use openshift_karpenter_oper.Kube.{NodeClaim}
use openshift_karpenter_oper.Hypershift.UserData.{updated}
use openshift_karpenter_oper.AutoNode.{
  Node, Quantities, resource_cpu, has_node_pool_label, count_nodes, node_claim_predicate,
  count_change_predicate,
}
use openshift_karpenter_oper.AutoNode.Counts.{claim_vcpus}

-- `Quantity.Equal` holds of quantities of one value only, and the zero quantity is 0.
pub record IsLawful (q : Quantities) : Type 0 where
  pub value-equal : (a b : String) → q.equal a b ≡ true → q.value a ≡ q.value b
  pub value-zero : q.value "0" ≡ 0

count_nodes-split :
    (old new : Node) (before after : List Node) (count : ℕ)
    → has_node_pool_label new ≡ has_node_pool_label old
    → count_nodes count (before ++ (new ∷ after)) ≡ count_nodes count (before ++ (old ∷ after))
unfolding count_nodes
count_nodes-split old new [] after count h = rw (h, count_nodes)
count_nodes-split old new (node ∷ before) after count h = count_nodes-split old new before after _ h

-- A change of a node that the watch on nodes passes over leaves the count of the nodes as it was,
-- whatever other nodes there are.
pub count_change_predicate-unchanged :
    (old new : Node) (before after : List Node)
    → count_change_predicate (updated old new) ≡ false
    → count_nodes 0 (before ++ (new ∷ after)) ≡ count_nodes 0 (before ++ (old ∷ after))
unfolding count_change_predicate
count_change_predicate-unchanged old new before after h =
    count_nodes-split old new before after 0 (ground arith)

module _ (q : Quantities) (lawful : IsLawful q) where
  claim_vcpus-get_or :
      (claim : NodeClaim) (live : List String)
      → claim_vcpus q live claim ≡ (
          if contains live claim.node_name
          then q.value (get_or (lookup resource_cpu claim.capacity) "0")
          else 0)
  claim_vcpus-get_or claim live = elim (Option-cases (lookup resource_cpu claim.capacity)) [
    | inl unknown ↦ rw (unknown, lawful.value-zero)
    | inr (cpu, known) ↦ rw known
  ]

  -- A change of a claim that the watch on claims passes over leaves its vCPUs as they were, whatever
  -- nodes there are.
  pub node_claim_predicate-unchanged :
      (old new : NodeClaim) (live : List String)
      → node_claim_predicate q (updated old new) ≡ false
      → claim_vcpus q live new ≡ claim_vcpus q live old
  unfolding node_claim_predicate
  node_claim_predicate-unchanged old new live h =
      let cpu = λ (claim : NodeClaim). get_or (lookup resource_cpu claim.capacity) "0" in
      rw (claim_vcpus-get_or old live, claim_vcpus-get_or new live)
        (elim (Bool-cases (q.equal (cpu old) (cpu new))) [
          | inr differ ↦ absurd (ground arith)
          | inl same ↦ ground (arith, lawful.value-equal (cpu old) (cpu new) same)
        ])
