-- ===== src/Tests/MachineApprover.antt =====
-- Runs of pkg/controllers/machineapprover/controller.go on one pending request for a serving certificate.
use openshift_karpenter_oper.Base.{
  ◌↔◌, Memᴰ, false, ◌≡◌, refl, inr, true, none, some, String, List, Result, any, after_last, [],
  ◌∷◌, ok, err, api, not_found, string_eq, trim_prefix,
}
use openshift_karpenter_oper.Kube.{NodeClaim, finished}
use openshift_karpenter_oper.MachineApprover.{
  Csr, CsrCondition, certificate_denied, Deps, got_csr, listed_node_claims, verified,
  updated_approval, kubelet_serving_signer, is_certificate_request_pending, approved_copy,
  target_of, authorize, authorize_serving_csr, approve, reconcile, csr_filter_fn,
}
use openshift_karpenter_oper.MachineApprover.Approval.{Approved, is_update, reconcile-Approved}
use openshift_karpenter_oper.MachineApprover.OnAws.{on_aws, Identified, reconcile-Identified}
use openshift_karpenter_oper.Aws.{
  Reservation, verify, verify_batches, matches_private_dns_name, has_private_dns_name, instance_ids,
  ec2_instance_id,
}
use openshift_karpenter_oper.Aws.Batches.{chunk}
use openshift_karpenter_oper.MachineApprover.Queue.{reconcile-decided, csr_filter_fn_iff}
use openshift_karpenter_oper.MachineApprover.Exactly.{Approvable, reconcile-sends_iff}

abbrev csr : Csr
csr = record {
  name = "csr-1";
  deletion_timestamp = none;
  signer_name = kubelet_serving_signer;
  username = "system:node:ip-10-0-0-1";
  groups = "system:nodes" ∷ "system:authenticated" ∷ [];
  request = [];
  conditions = [];
}

abbrev claim : NodeClaim
claim = record {
  name = "claim-1";
  deletion_timestamp = none;
  annotations = [];
  node_name = "ip-10-0-0-1";
  provider_id = "aws:///us-east-1a/i-1";
  capacity = [];
}

abbrev other_claim : NodeClaim
other_claim = record claim { name = "claim-2"; node_name = "" }

-- A cluster whose world is the one request.
abbrev cluster : Deps
cluster = record {
  World = Csr;
  get = λ name w. (ok w, w);
  list = λ w. (ok (other_claim ∷ claim ∷ []), w);
  verify = λ node claims w. (ok true, w);
  update_approval = λ sent w. (ok tt, sent);
  pem_decode = λ bytes. none;
  parse_certificate_request = λ bytes. err (api not_found);
}

serving_run :
    (reconcile cluster "csr-1" csr).2
    ≡ got_csr "csr-1" (ok csr)
      ∷ listed_node_claims (ok (other_claim ∷ claim ∷ []))
      ∷ verified "ip-10-0-0-1" (claim ∷ []) (ok true)
      ∷ updated_approval (approved_copy csr) (ok tt)
      ∷ []
unfolding reconcile authorize authorize_serving_csr approve is_certificate_request_pending
    trim_prefix string_eq
serving_run = refl

reconcile-Approved_example : Approved cluster "csr-1" csr (reconcile cluster "csr-1" csr).2
reconcile-Approved_example = reconcile-Approved cluster "csr-1" csr (rw serving_run)

-- A request that somebody else denied.
abbrev denial : CsrCondition
denial = record { type = certificate_denied; status = "True"; reason = "Manual"; message = "" }

reconcile-decided_example :
    (csr_filter_fn (record csr { conditions = denial ∷ [] }) ≡ false)
    × (reconcile cluster "csr-1" (record csr { conditions = denial ∷ [] }) ≡ (
      ok finished,
      record csr { conditions = denial ∷ [] },
      got_csr "csr-1" (ok (record csr { conditions = denial ∷ [] })) ∷ [],
    ))
reconcile-decided_example =
    reconcile-decided cluster "csr-1" (record csr { conditions = denial ∷ [] })
      (record csr { conditions = denial ∷ [] }) denial refl (Memᴰ.head refl) (inr refl)

reconcile-sends_iff_example :
    (any is_update (reconcile cluster "csr-1" csr).2 ≡ true) ↔ Approvable cluster "csr-1" csr
reconcile-sends_iff_example = reconcile-sends_iff cluster "csr-1" csr

csr_filter_fn_iff_example : csr_filter_fn csr ≡ true
unfolding string_eq
csr_filter_fn_iff_example = (csr_filter_fn_iff csr).1 (tt, inr (refl, refl))

-- EC2 knows the instance of the claim by the name of the node.
abbrev describe : List String → Csr → Result (List Reservation) × Csr
describe ids w =
    (ok (record { instances = record { private_dns_name = some "ip-10-0-0-1" } ∷ [] } ∷ []), w)

sent_on_aws : any is_update (reconcile (on_aws cluster describe) "csr-1" csr).2 ≡ true
unfolding reconcile authorize authorize_serving_csr approve is_certificate_request_pending
    trim_prefix string_eq target_of verify verify_batches matches_private_dns_name
    has_private_dns_name instance_ids ec2_instance_id chunk after_last
sent_on_aws = refl

reconcile-Identified_example :
    Identified cluster describe "csr-1" csr (reconcile (on_aws cluster describe) "csr-1" csr).2
reconcile-Identified_example = reconcile-Identified cluster describe "csr-1" csr sent_on_aws
