-- ===== src/AutoNode/Counts.antt =====
-- pkg/controllers/hcp/autonodestatus/controller.go: the counts, against sums without a word size, and
-- when they are written.
use openshift_karpenter_oper.Base.{
  ℕ, ◌+◌, ◌^◌, ◌<◌, ◌≡◌, String, true, none, some, List, [], ◌∷◌, arith, ok, Bool-cases,
  Option-cases, length-select-le, inl, inr, if◌then◌else◌, string_eq, contains, length, select, ◌∙◌,
  ◌==◌, is_ok,
}
use openshift_karpenter_oper.Base.Dict.{lookup}
use openshift_karpenter_oper.Kube.{HostedControlPlane, NodeClaim}
use openshift_karpenter_oper.Hypershift.{get_hosted_control_plane, one_hosted_control_plane}
use openshift_karpenter_oper.AutoNode.{
  Node, Quantities, int32, int64, resource_cpu, has_node_pool_label, count_nodes, live_nodes,
  sum_loop, sum_node_claim_vcpus, desired_status, status_eq, listed_hosted_control_planes,
  listed_nodes, listed_node_claims, applied_status, Deps, reconcile_auto_node_status, reconcile,
}

-- The nodes that Karpenter owns.
abbrev pub karpenter_nodes : List Node → List Node
karpenter_nodes = select has_node_pool_label

count_nodes-eq :
    (count : ℕ) (nodes : List Node)
    → count < 2 ^ 32
    → count_nodes count nodes ≡ int32 (count + length (karpenter_nodes nodes))
unfolding count_nodes
count_nodes-eq count [] h = omega arith
count_nodes-eq count (node ∷ nodes) h = elim (Bool-cases (has_node_pool_label node)) [
  | inl owned ↦
      rw (owned, count_nodes)
        (omega (arith, count_nodes-eq (int32 (count + 1)) nodes (omega arith)))
  | inr foreign ↦ rw (foreign, count_nodes) (omega (arith, count_nodes-eq count nodes h))
]

same_low_bits : (n : ℕ) → int32 (int64 n) ≡ int32 n
same_low_bits n = omega arith

module _ (q : Quantities) where
  -- The vCPUs of a claim: those it reports, if its node is in the cluster.
  abbrev pub claim_vcpus : List String → NodeClaim → ℕ
  claim_vcpus live claim =
      if contains live claim.node_name
      then elim (lookup resource_cpu claim.capacity) [ none ↦ 0 | some cpu ↦ q.value cpu ]
      else 0

  abbrev pub total_vcpus : List String → List NodeClaim → ℕ
  total_vcpus live [] = 0
  total_vcpus live (claim ∷ claims) = claim_vcpus live claim + total_vcpus live claims

  sum_loop-eq :
      (total : ℕ) (claims : List NodeClaim) (live : List String)
      → total < 2 ^ 64
      → sum_loop q total claims live ≡ int64 (total + total_vcpus live claims)
  unfolding sum_loop
  sum_loop-eq total [] live h = omega arith
  sum_loop-eq total (claim ∷ claims) live h = elim (Bool-cases (contains live claim.node_name)) [
    | inr gone ↦ rw (gone, sum_loop) (omega (arith, sum_loop-eq total claims live h))
    | inl there ↦ elim (Option-cases (lookup resource_cpu claim.capacity)) [
      | inl unknown ↦ rw (there, unknown) (omega (arith, sum_loop-eq total claims live h))
      | inr (cpu, known) ↦
          rw (there, known)
            (omega (arith, sum_loop-eq (int64 (total + q.value cpu)) claims live (omega arith)))
    ]
  ]

  -- The counts are those of the nodes with the nodepool label, of all claims, and of the vCPUs of the
  -- claims whose node is there, each cut to 32 bits once: the 64-bit total on the way loses nothing of it.
  pub desired_status-eq :
      (nodes : List Node) (claims : List NodeClaim)
      → desired_status q nodes claims ≡ record {
        node_count = some (int32 (length (karpenter_nodes nodes)));
        node_claim_count = some (int32 (length claims));
        vcpus = some (int32 (total_vcpus (live_nodes nodes) claims));
      }
  unfolding desired_status sum_node_claim_vcpus
  desired_status-eq nodes claims =
      let live = live_nodes nodes in
      rw (count_nodes-eq 0 nodes (omega arith), sum_loop-eq 0 claims live (omega arith))
        (ground (arith, same_low_bits (total_vcpus live claims)))

  -- Below 2^31 of each the counts are the true ones, and none of them reads as a negative `int32`.
  pub desired_status-exact :
      (nodes : List Node) (claims : List NodeClaim)
      → length nodes < 2 ^ 31
      → length claims < 2 ^ 31
      → total_vcpus (live_nodes nodes) claims < 2 ^ 31
      → desired_status q nodes claims ≡ record {
        node_count = some (length (karpenter_nodes nodes));
        node_claim_count = some (length claims);
        vcpus = some (total_vcpus (live_nodes nodes) claims);
      }
  desired_status-exact nodes claims h k l =
      let n = length (karpenter_nodes nodes) in
      let fits : (m : ℕ) → m < 2 ^ 31 → int32 m ≡ m = λ m p. omega arith in
      let a = fits n (omega (arith, length-select-le has_node_pool_label nodes)) in
      desired_status-eq nodes claims
      ∙ rw (a, fits (length claims) k, fits (total_vcpus (live_nodes nodes) claims) l)

module _ (deps : Deps) where
  -- A run that reads the one HostedControlPlane, the nodes and the claims writes the status that it
  -- wants to that object, unless the object has it already; then it writes nothing. It ends well if
  -- that write does.
  pub reconcile-writes :
      (namespace : String) (hcp : HostedControlPlane) (nodes : List Node) (claims : List NodeClaim)
      (w w1 w2 w3 : deps.World)
      → deps.list_hosted_control_planes w ≡ (ok (hcp ∷ []), w1)
      → deps.list_nodes w1 ≡ (ok nodes, w2)
      → deps.list_node_claims w2 ≡ (ok claims, w3)
      → let desired = desired_status deps.quantities nodes claims in
        let sent = (deps.apply_status hcp.name desired w3).0 in
        let same = hcp.auto_node == desired in
        ((reconcile deps namespace w).2
          ≡ listed_hosted_control_planes (ok (hcp ∷ []))
            ∷ listed_nodes (ok nodes)
            ∷ listed_node_claims (ok claims)
            ∷ (if same then [] else applied_status hcp.name desired sent ∷ []))
        × (is_ok (reconcile deps namespace w).0 ≡ (if same then true else is_ok sent))
  unfolding reconcile get_hosted_control_plane one_hosted_control_plane reconcile_auto_node_status
  reconcile-writes namespace hcp nodes claims w w1 w2 w3 listed found claimed =
      (ground arith, ground arith)
