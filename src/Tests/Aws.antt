-- ===== src/Tests/Aws.antt =====
-- Runs of pkg/cloudprovider/aws/node_identity_verifier.go against an account with one instance.
use openshift_karpenter_oper.Base.{
  ℕ, ◌≡◌, refl, ◌⊎◌, ◌≤◌, ◌<◌, true, none, some, List, [], ◌∷◌, ◌++◌, String, ok, any, All, length,
  after_last, string_eq,
}
use openshift_karpenter_oper.Kube.{NodeClaim}
use openshift_karpenter_oper.Aws.{
  Deps, Described, ec2_instance_id, has_private_dns_name, instance_ids, matches_private_dns_name,
  verify, verify_batches,
}
use openshift_karpenter_oper.Aws.Batches.{chunk}
use openshift_karpenter_oper.Aws.Verification.{shows, asked, verify-asks, verify-answer}

abbrev claim : NodeClaim
claim = record {
  name = "claim-1";
  deletion_timestamp = none;
  annotations = [];
  node_name = "";
  provider_id = "aws:///us-east-1a/i-0123";
  capacity = [];
}

abbrev pending : NodeClaim
pending = record claim { name = "claim-2"; provider_id = "" }

-- Every answer shows the one instance.
abbrev account : Deps
account = record {
  World = ℕ;
  describe_instances = λ ids w.
      (ok (record { instances = record { private_dns_name = some "node-1" } ∷ [] } ∷ []), w);
}

asks : instance_ids (pending ∷ claim ∷ []) ≡ "i-0123" ∷ []
unfolding instance_ids ec2_instance_id string_eq after_last
asks = refl

verify-asks_example :
    All
      (λ (d : Described). (0 < length d.ids) × (length d.ids ≤ 1000))
      (verify account "node-1" (pending ∷ claim ∷ []) 0).2
    × (rest : List String) × (asked account "node-1"
            (verify account "node-1" (pending ∷ claim ∷ []) 0).2
          ++ rest
        ≡ instance_ids (pending ∷ claim ∷ []))
verify-asks_example = verify-asks account "node-1" (pending ∷ claim ∷ []) 0

found : (verify account "node-1" (claim ∷ []) 0).0 ≡ ok true
unfolding verify verify_batches matches_private_dns_name has_private_dns_name instance_ids
    ec2_instance_id string_eq chunk after_last
found = refl

verify-answer_example :
    (any (shows account "node-1") (verify account "node-1" (claim ∷ []) 0).2 ≡ true)
    × ((true ≡ true)
        ⊎ (asked account "node-1" (verify account "node-1" (claim ∷ []) 0).2
            ≡ instance_ids (claim ∷ [])))
verify-answer_example = verify-answer account "node-1" (claim ∷ []) 0 {b = true} found

no_slash : after_last "/" "i-0123" ≡ none
unfolding after_last
no_slash = refl
