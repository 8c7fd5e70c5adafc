-- ===== src/MachineApprover/Approval.antt =====
-- pkg/controllers/machineapprover/controller.go: what a reconcile has seen when it approves.
use text.Mathlib.TextEquality.{eq_iff}
use openshift_karpenter_oper.Base.{
  All-mono, select-All, find-eq-some, is_some, String, ◌≡◌, refl, ◌≢◌, ◌⊎◌, inl, inr, Bool, true,
  false, none, List, [], ◌∷◌, ◌++◌, Memᴰ, arith, Result, ok, Result-cases, Bool-cases, Option-cases,
  and_then-ok, any-append, ◌∙◌, any, All, trim_prefix, string_eq,
}
use openshift_karpenter_oper.Kube.{NodeClaim}
use openshift_karpenter_oper.MachineApprover.{
  Csr, Event, got_csr, listed_node_claims, verified, updated_approval, Deps, client_kubelet_signer,
  kubelet_serving_signer, node_user_prefix, is_certificate_request_pending, approved_copy,
  parse_csr, unclaimed, target_of, authorize_client_csr, authorize_serving_csr, authorize, approve,
  approve_if, reconcile,
}

abbrev pub is_update : Event → Bool
is_update (updated_approval _ _) = true
is_update _ = false

signers_differ : client_kubelet_signer ≢ kubelet_serving_signer
signers_differ = ground (arith, eq_iff client_kubelet_signer kubelet_serving_signer)

module _ (deps : Deps) where
  -- Whose node a request is for, by its signer, and the claims that the verifier is asked about: the
  -- request's own subject and claims that have no node, or the user that sent it and claims of that node.
  abbrev pub Concerns : Csr → String → List NodeClaim → Type 0
  Concerns csr node claims =
      ((csr.signer_name ≡ client_kubelet_signer)
        × (name : String) × (parse_csr deps csr.request ≡ ok name)
        × (node ≡ trim_prefix name node_user_prefix)
        × All (λ c. c.node_name ≡ "") claims)
      ⊎ ((csr.signer_name ≡ kubelet_serving_signer)
          × (node ≡ trim_prefix csr.username node_user_prefix)
          × All (λ c. c.node_name ≡ node) claims)

  pub record Authorized (csr : Csr) (w : deps.World) (t : List Event) : Type 0 where
    pub node : String
    pub listed : List NodeClaim
    pub claims : List NodeClaim
    pub nonempty : claims ≢ []
    pub named : node ≢ ""
    pub subset : All (λ c. Memᴰ c listed) claims
    pub concerns : Concerns csr node claims
    pub trace : t ≡ listed_node_claims (ok listed) ∷ verified node claims (ok true) ∷ []
    pub told : (deps.verify node claims (deps.list w).1).0 ≡ ok true

  client-Authorized :
      (csr : Csr) (w : deps.World)
      → csr.signer_name ≡ client_kubelet_signer
      → (authorize_client_csr deps csr w).0 ≡ ok true
      → Authorized csr w (authorize_client_csr deps csr w).2
  unfolding authorize_client_csr
  client-Authorized csr w signer done = elim (Result-cases (parse_csr deps csr.request)) [
    | inr (e, bad) ↦ absurd (ground arith)
    | inl (name, parsed) ↦ elim (Result-cases (deps.list w).0) [
      | inr (e, bad) ↦ absurd (ground arith)
      | inl (listed, found) ↦ record {
        node = trim_prefix name node_user_prefix;
        listed = listed;
        claims = unclaimed listed;
        nonempty = ground arith;
        named = ground arith;
        subset = All-mono _ (λ c h. h.0) (select-All _ listed);
        concerns =
            inl
              (signer, name, parsed, refl, All-mono _ (λ c h. ground arith) (select-All _ listed));
        trace = ground arith;
        told = ground arith;
      }
    ]
  ]

  serving-Authorized :
      (csr : Csr) (w : deps.World)
      → csr.signer_name ≡ kubelet_serving_signer
      → (authorize_serving_csr deps csr w).0 ≡ ok true
      → Authorized csr w (authorize_serving_csr deps csr w).2
  unfolding authorize_serving_csr
  serving-Authorized csr w signer done = elim (Result-cases (deps.list w).0) [
    | inr (e, bad) ↦ absurd (ground arith)
    | inl (listed, found) ↦
        elim (Option-cases (target_of (trim_prefix csr.username node_user_prefix) listed)) [
          | inl nobody ↦ absurd (ground arith)
          | inr (claim, target) ↦
              let (member, same) = find-eq-some _ listed target in
              record {
                node = trim_prefix csr.username node_user_prefix;
                listed = listed;
                claims = claim ∷ [];
                nonempty = λ e. cc;
                named = ground arith;
                subset = (member, tt);
                concerns = inr (signer, refl, (ground arith, tt));
                trace = ground arith;
                told = ground arith;
              }
        ]
  ]

  pub authorize-client :
      (csr : Csr) (w : deps.World)
      → csr.signer_name ≡ client_kubelet_signer
      → authorize deps csr w ≡ authorize_client_csr deps csr w
  unfolding authorize
  authorize-client csr w signer = ground arith

  pub authorize-serving :
      (csr : Csr) (w : deps.World)
      → csr.signer_name ≡ kubelet_serving_signer
      → authorize deps csr w ≡ authorize_serving_csr deps csr w
  unfolding authorize
  authorize-serving csr w signer = ground (arith, signers_differ)

  pub authorize-unknown :
      (csr : Csr) (w : deps.World)
      → csr.signer_name ≢ client_kubelet_signer
      → csr.signer_name ≢ kubelet_serving_signer
      → (authorize deps csr w).0 ≢ ok true
  unfolding authorize
  authorize-unknown csr w other unknown done = ground arith

  -- A request that is authorized was checked with the verifier, about claims that were listed.
  authorize-Authorized :
      (csr : Csr) (w : deps.World)
      → (authorize deps csr w).0 ≡ ok true
      → Authorized csr w (authorize deps csr w).2
  authorize-Authorized csr w done = elim (string_eq.dec csr.signer_name client_kubelet_signer) [
    | yes client ↦
        let same = authorize-client csr w client in
        rw same (client-Authorized csr w client (rw same at done))
    | no other ↦ elim (string_eq.dec csr.signer_name kubelet_serving_signer) [
      | yes serving ↦
          let same = authorize-serving csr w serving in
          rw same (serving-Authorized csr w serving (rw same at done))
      | no unknown ↦ absurd (ground (arith, authorize-unknown csr w other unknown))
    ]
  ]

  -- Reads on the way to a decision: none of them approves.
  pub authorize-no_update :
      (csr : Csr) (w : deps.World) → any is_update (authorize deps csr w).2 ≡ false
  unfolding authorize authorize_client_csr authorize_serving_csr
  authorize-no_update csr w = ground arith

  -- A run that approves, taken apart.
  pub record Approved (name : String) (w : deps.World) (t : List Event) : Type 0 where
    pub csr : Csr
    pub present : csr.deletion_timestamp ≡ none
    pub pending : is_certificate_request_pending csr ≡ true
    pub reads : List Event
    pub answer : Result (Unit {0})
    pub authorized : Authorized csr (deps.get name w).1 reads
    pub whole :
        t ≡ got_csr name (ok csr) ∷ (reads ++ updated_approval (approved_copy csr) answer ∷ [])

  -- What a run leaves once the request is read, present and pending.
  pub reconcile-pending :
      (name : String) (w : deps.World) (csr : Csr) {b : Bool}
      → (deps.get name w).0 ≡ ok csr
      → is_some csr.deletion_timestamp ≡ false
      → is_certificate_request_pending csr ≡ true
      → (authorize deps csr (deps.get name w).1).0 ≡ ok b
      → let run = authorize deps csr (deps.get name w).1 in
        (reconcile deps name w).2
        ≡ got_csr name (ok csr) ∷ (run.2 ++ (approve_if deps csr b run.1).2)
  unfolding reconcile
  reconcile-pending name w csr got present pending granted = rw got (
      rw (present, pending)
        (rw (and_then-ok (authorize deps csr (deps.get name w).1) (approve_if deps csr) granted)))

  pub reconcile-denied :
      (name : String) (w : deps.World) (csr : Csr)
      → (deps.get name w).0 ≡ ok csr
      → is_some csr.deletion_timestamp ≡ false
      → is_certificate_request_pending csr ≡ true
      → (authorize deps csr (deps.get name w).1).0 ≡ ok false
      → any is_update (reconcile deps name w).2 ≡ false
  unfolding approve_if
  reconcile-denied name w csr got present pending denied =
      rw (reconcile-pending name w csr got present pending denied) (
        ground (
          arith,
          any-append is_update (authorize deps csr (deps.get name w).1).2 [],
          authorize-no_update csr (deps.get name w).1,
        ))

  pub approve_if-calls :
      (csr : Csr) (w : deps.World)
      → (approve_if deps csr true w).2
        ≡ updated_approval (approved_copy csr) (deps.update_approval (approved_copy csr) w).0 ∷ []
  unfolding reconcile approve
  approve_if-calls csr w = ground arith

  -- If a reconcile sends an approval, then it read a request that was not deleted and still pending,
  -- listed the claims, asked the verifier whether the node that the request names is one of them, was
  -- told yes, and then sent the copy of that request with the approval appended, once and last. The
  -- node's name is not empty; the claims asked about are some of those listed, not none of them; for
  -- a client certificate none of them has a node yet, and for a serving certificate they have that node.
  pub reconcile-Approved :
      (name : String) (w : deps.World)
      → any is_update (reconcile deps name w).2 ≡ true
      → Approved name w (reconcile deps name w).2
  unfolding reconcile
  reconcile-Approved name w sent = elim (Result-cases (deps.get name w).0) [
    | inr (e, bad) ↦ absurd (ground arith)
    | inl (csr, got) ↦ elim (Bool-cases (is_some csr.deletion_timestamp)) [
      | inl deleted ↦ absurd (ground arith)
      | inr present ↦ elim (Bool-cases (is_certificate_request_pending csr)) [
        | inr decided ↦ absurd (ground arith)
        | inl pending ↦ elim (Result-cases (authorize deps csr (deps.get name w).1).0) [
          | inr (e, bad) ↦ absurd (ground (arith, authorize-no_update csr (deps.get name w).1))
          | inl (false, denied) ↦
              absurd (ground (arith, reconcile-denied name w csr got present pending denied))
          | inl (true, granted) ↦ record {
            csr = csr;
            present = ground arith;
            pending = pending;
            reads = (authorize deps csr (deps.get name w).1).2;
            answer =
                (deps.update_approval (approved_copy csr)
                  (authorize deps csr (deps.get name w).1).1).0;
            authorized = authorize-Authorized csr _ granted;
            whole =
                reconcile-pending name w csr got present pending granted
                ∙ rw (approve_if-calls csr);
          }
        ]
      ]
    ]
  ]
