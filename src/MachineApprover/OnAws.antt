-- ===== src/MachineApprover/OnAws.antt =====
-- pkg/controllers/machineapprover with the verifier of pkg/cloudprovider/aws, as the operator runs it on AWS.
use openshift_karpenter_oper.Base.{String, ◌≡◌, refl, true, List, ◌++◌, Result, any}
use openshift_karpenter_oper.Aws
use openshift_karpenter_oper.Aws.{Reservation, Described, instance_ids, verify}
use openshift_karpenter_oper.Aws.Verification.{shows, asked, verify-answer, verify-asks}
use openshift_karpenter_oper.MachineApprover.{Deps, Event, reconcile}
use openshift_karpenter_oper.MachineApprover.Approval.{Approved, is_update, reconcile-Approved}

-- The machine approver of a cluster on AWS: `NodeIdentityVerifier` is the verifier of EC2, whose calls
-- `describe` answers.
module _ (deps : Deps)
    (describe : List String → deps.World → Result (List Reservation) × deps.World) where
  abbrev pub ec2 : Aws.Deps
  ec2 = record { World = deps.World; describe_instances = describe }

  abbrev pub on_aws : Deps
  on_aws = record deps { verify = λ node claims w. let r = verify ec2 node claims w in (r.0, r.1) }

  -- What EC2 was asked before an approval, in the state of the run: `calls` are those of the verifier, for
  -- the node and the claims of the approval.
  pub record Identified (name : String) (w : deps.World) (t : List Event) : Type 0 where
    pub approved : Approved on_aws name w t
    pub calls : List Described
    pub made :
        calls
        ≡ (verify ec2 approved.authorized.node approved.authorized.claims
            (deps.list (deps.get name w).1).1).2
    pub shown : any (shows ec2 approved.authorized.node) calls ≡ true
    pub rest : List String
    pub own :
        asked ec2 approved.authorized.node calls ++ rest ≡ instance_ids approved.authorized.claims

  -- On AWS an approval is sent only if an answer of EC2 in the same run, to a call that names instances of
  -- the claims that the request concerns and no others, showed an instance whose private DNS name is that
  -- of the node which the request names; and what holds of every approval holds of it.
  pub reconcile-Identified :
      (name : String) (w : deps.World)
      → any is_update (reconcile on_aws name w).2 ≡ true
      → Identified name w (reconcile on_aws name w).2
  reconcile-Identified name w sent =
      let a = reconcile-Approved on_aws name w sent in
      let at : deps.World = (deps.list (deps.get name w).1).1 in
      let r = verify ec2 a.authorized.node a.authorized.claims at in
      let asks = verify-asks ec2 a.authorized.node a.authorized.claims at in
      record {
        approved = a;
        calls = r.2;
        made = refl;
        shown = (verify-answer ec2 a.authorized.node a.authorized.claims at a.authorized.told).0;
        rest = asks.1;
        own = asks.2;
      }
