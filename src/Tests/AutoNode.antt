-- ===== src/Tests/AutoNode.antt =====
-- Runs of pkg/controllers/hcp/autonodestatus/controller.go on a cluster of two nodes.
use openshift_karpenter_oper.Base.{
  ℕ, ◌≡◌, refl, true, false, none, some, [], ◌∷◌, arith, ok, is_ok, length, if◌then◌else◌, ◌==◌,
  string_eq,
}
use openshift_karpenter_oper.Base.Dict.{lookup}
use openshift_karpenter_oper.Kube.{NodeClaim}
use openshift_karpenter_oper.Hypershift.UserData.{updated}
use openshift_karpenter_oper.AutoNode.{
  Deps, Node, Quantities, count_change_predicate, desired_status, has_node_pool_label, live_nodes,
  node_claim_predicate, reconcile, status_eq, applied_status, listed_hosted_control_planes,
  listed_nodes, listed_node_claims,
}
use openshift_karpenter_oper.AutoNode.Counts.{
  karpenter_nodes, total_vcpus, desired_status-exact, reconcile-writes,
}
use openshift_karpenter_oper.AutoNode.Watches.{IsLawful}
use openshift_karpenter_oper.Tests.Objects.{hcp}

abbrev own : Node
own = record { name = "node-1"; labels = ("karpenter.sh/nodepool", "default") ∷ [] }

abbrev other_node : Node
other_node = record { name = "node-2"; labels = [] }

abbrev claim : NodeClaim
claim = record {
  name = "claim-1";
  deletion_timestamp = none;
  annotations = [];
  node_name = "node-1";
  provider_id = "";
  capacity = ("cpu", "4") ∷ [];
}

-- Quantities of the two texts that occur here.
abbrev quantities : Quantities
quantities = record { value = λ t. if t == "4" then 4 else 0; equal = ◌==◌ }

value_zero : quantities.value "0" ≡ 0
unfolding string_eq
value_zero = refl

quantities-IsLawful : IsLawful quantities
quantities-IsLawful = record { value-equal = λ a b h. ground arith; value-zero = value_zero }

abbrev cluster : Deps
cluster = record {
  World = ℕ;
  quantities = quantities;
  list_hosted_control_planes = λ w. (ok (hcp ∷ []), w);
  list_nodes = λ w. (ok (own ∷ other_node ∷ []), w);
  list_node_claims = λ w. (ok (claim ∷ []), w);
  apply_status = λ name status w. (ok tt, w);
}

four : total_vcpus quantities (live_nodes (own ∷ other_node ∷ [])) (claim ∷ []) ≡ 4
unfolding live_nodes string_eq lookup
four = refl

desired_status-exact_example :
    desired_status quantities (own ∷ other_node ∷ []) (claim ∷ []) ≡ record {
      node_count = some (length (karpenter_nodes (own ∷ other_node ∷ [])));
      node_claim_count = some 1;
      vcpus = some (total_vcpus quantities (live_nodes (own ∷ other_node ∷ [])) (claim ∷ []));
    }
desired_status-exact_example =
    desired_status-exact quantities (own ∷ other_node ∷ []) (claim ∷ []) (omega arith) (omega arith)
      (omega (arith, four))

reconcile-writes_example :
    let desired = desired_status quantities (own ∷ other_node ∷ []) (claim ∷ []) in
    let same = hcp.auto_node == desired in
    ((reconcile cluster "clusters-one" 0).2
      ≡ listed_hosted_control_planes (ok (hcp ∷ []))
        ∷ listed_nodes (ok (own ∷ other_node ∷ []))
        ∷ listed_node_claims (ok (claim ∷ []))
        ∷ (if same then [] else applied_status "hcp" desired (ok tt) ∷ []))
    × (is_ok (reconcile cluster "clusters-one" 0).0 ≡ (if same then true else true))
reconcile-writes_example =
    reconcile-writes cluster "clusters-one" hcp (own ∷ other_node ∷ []) (claim ∷ []) 0 0 0 0 refl
      refl refl

ignored : count_change_predicate (updated own (record own { name = "node-3" })) ≡ false
unfolding count_change_predicate has_node_pool_label lookup string_eq
ignored = refl

abbrev marked : NodeClaim
marked = record claim { deletion_timestamp = some 5 }

passed : node_claim_predicate quantities (updated claim marked) ≡ false
unfolding node_claim_predicate lookup string_eq
passed = refl
