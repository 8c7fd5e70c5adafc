-- ===== src/MachineApprover/Exactly.antt =====
-- pkg/controllers/machineapprover/controller.go: which requests are approved.
use openshift_karpenter_oper.Base.{
  String, ◌≡◌, refl, ◌≢◌, ◌↔◌, ◌⊎◌, inl, inr, true, false, none, some, List, [], ◌∷◌, arith, ok,
  Result-cases, Bool-cases, Option-cases, any, any-append, trim_prefix, string_eq, is_some,
}
use openshift_karpenter_oper.Kube.{NodeClaim}
use openshift_karpenter_oper.MachineApprover.{
  Csr, Deps, client_kubelet_signer, kubelet_serving_signer, node_user_prefix,
  is_certificate_request_pending, parse_csr, unclaimed, target_of, authorize_client_csr,
  authorize_serving_csr, authorize, reconcile, approve_if,
}
use openshift_karpenter_oper.MachineApprover.Queue.{IsUndecided, is_certificate_request_pending_iff}
use openshift_karpenter_oper.MachineApprover.Approval.{
  is_update, authorize-client, authorize-serving, authorize-unknown, reconcile-pending,
  approve_if-calls, authorize-no_update, reconcile-denied,
}

-- The second list has those claims of the first that have no node, in their order.
abbrev pub NodelessOf : List NodeClaim → List NodeClaim → Type 0
NodelessOf [] claims = claims ≡ []
NodelessOf (c ∷ listed) claims =
    ((c.node_name ≢ "") × NodelessOf listed claims)
    ⊎ ((c.node_name ≡ "") × (rest : List NodeClaim) × (claims ≡ c ∷ rest) × NodelessOf listed rest)

-- The claim is the first of the list that has the node.
abbrev pub FirstOf : String → List NodeClaim → NodeClaim → Type 0
FirstOf node [] claim = ⊥
FirstOf node (c ∷ listed) claim =
    ((c.node_name ≡ node) × (claim ≡ c)) ⊎ ((c.node_name ≢ node) × FirstOf node listed claim)

unclaimed-NodelessOf : (listed : List NodeClaim) → NodelessOf listed (unclaimed listed)
unfolding unclaimed
unclaimed-NodelessOf [] = refl
unclaimed-NodelessOf (c ∷ listed) = elim (string_eq.dec c.node_name "") [
  | yes free ↦ inr (free, unclaimed listed, ground arith, unclaimed-NodelessOf listed)
  | no taken ↦
      let same : unclaimed (c ∷ listed) ≡ unclaimed listed = ground arith in
      rw same (inl (taken, unclaimed-NodelessOf listed))
]

NodelessOf-unclaimed :
    (listed claims : List NodeClaim) → NodelessOf listed claims → claims ≡ unclaimed listed
unfolding unclaimed
NodelessOf-unclaimed [] claims h = h
NodelessOf-unclaimed (c ∷ listed) claims (inl (taken, h)) =
    ground (arith, NodelessOf-unclaimed listed claims h)
NodelessOf-unclaimed (c ∷ listed) claims (inr (free, rest, same, h)) =
    ground (arith, NodelessOf-unclaimed listed rest h)

target_of_iff :
    (node : String) (listed : List NodeClaim) (claim : NodeClaim)
    → (target_of node listed ≡ some claim) ↔ FirstOf node listed claim
unfolding target_of
target_of_iff node [] claim = (λ e. cc, λ h. absurd h)
target_of_iff node (c ∷ listed) claim = ground (arith, target_of_iff node listed claim)

-- Whose node a request is for, by its signer, and the claims that the verifier is to be asked about: the
-- request's own subject and all claims without a node, or the user that sent it and the first claim of
-- that node.
abbrev pub Chosen : Deps → Csr → String → List NodeClaim → List NodeClaim → Type 0
Chosen deps csr node listed claims =
    ((csr.signer_name ≡ client_kubelet_signer)
      × (name : String) × (parse_csr deps csr.request ≡ ok name)
      × (node ≡ trim_prefix name node_user_prefix)
      × NodelessOf listed claims)
    ⊎ ((csr.signer_name ≡ kubelet_serving_signer)
        × (node ≡ trim_prefix csr.username node_user_prefix)
        × (claim : NodeClaim) × (claims ≡ claim ∷ [])
        × FirstOf node listed claim)

module _ (deps : Deps) where
  -- The verifier confirms the node of a request, in the state of the world that it finds.
  pub record Confirmed (csr : Csr) (w : deps.World) : Type 0 where
    pub node : String
    pub named : node ≢ ""
    pub listed : List NodeClaim
    pub found : (deps.list w).0 ≡ ok listed
    pub claims : List NodeClaim
    pub some_ : claims ≢ []
    pub chosen : Chosen deps csr node listed claims
    pub told : (deps.verify node claims (deps.list w).1).0 ≡ ok true

  client-Confirmed :
      (csr : Csr) (w : deps.World)
      → csr.signer_name ≡ client_kubelet_signer
      → (authorize_client_csr deps csr w).0 ≡ ok true
      → Confirmed csr w
  unfolding authorize_client_csr
  client-Confirmed csr w signer done = elim (Result-cases (parse_csr deps csr.request)) [
    | inr (e, bad) ↦ absurd (ground arith)
    | inl (name, parsed) ↦ elim (Result-cases (deps.list w).0) [
      | inr (e, bad) ↦ absurd (ground arith)
      | inl (listed, found) ↦ record {
        node = trim_prefix name node_user_prefix;
        named = ground arith;
        listed = listed;
        found = found;
        claims = unclaimed listed;
        some_ = ground arith;
        chosen = inl (signer, name, parsed, refl, unclaimed-NodelessOf listed);
        told = ground arith;
      }
    ]
  ]

  serving-Confirmed :
      (csr : Csr) (w : deps.World)
      → csr.signer_name ≡ kubelet_serving_signer
      → (authorize_serving_csr deps csr w).0 ≡ ok true
      → Confirmed csr w
  unfolding authorize_serving_csr
  serving-Confirmed csr w signer done = elim (Result-cases (deps.list w).0) [
    | inr (e, bad) ↦ absurd (ground arith)
    | inl (listed, found) ↦
        let node = trim_prefix csr.username node_user_prefix in
        elim (Option-cases (target_of node listed)) [
          | inl nobody ↦ absurd (ground arith)
          | inr (claim, target) ↦ record {
            node = node;
            named = ground arith;
            listed = listed;
            found = found;
            claims = claim ∷ [];
            some_ = λ e. cc;
            chosen = inr (signer, refl, claim, refl, (target_of_iff node listed claim).0 target);
            told = ground arith;
          }
        ]
  ]

  Confirmed-client :
      (csr : Csr) (w : deps.World) (c : Confirmed csr w) (name : String)
      → parse_csr deps csr.request ≡ ok name
      → c.node ≡ trim_prefix name node_user_prefix
      → c.claims ≡ unclaimed c.listed
      → (authorize_client_csr deps csr w).0 ≡ ok true
  unfolding authorize_client_csr
  Confirmed-client csr w c name parsed same all = ground (arith, c.named, c.found, c.some_, c.told)

  Confirmed-serving :
      (csr : Csr) (w : deps.World) (c : Confirmed csr w) (claim : NodeClaim)
      → c.node ≡ trim_prefix csr.username node_user_prefix
      → c.claims ≡ claim ∷ []
      → target_of c.node c.listed ≡ some claim
      → (authorize_serving_csr deps csr w).0 ≡ ok true
  unfolding authorize_serving_csr
  Confirmed-serving csr w c claim same one target = ground (arith, c.named, c.found, c.told)

  authorize_iff :
      (csr : Csr) (w : deps.World) → ((authorize deps csr w).0 ≡ ok true) ↔ Confirmed csr w
  authorize_iff csr w = (
    λ done. elim (string_eq.dec csr.signer_name client_kubelet_signer) [
      | yes client ↦ client-Confirmed csr w client (rw (authorize-client deps csr w client) at done)
      | no other ↦ elim (string_eq.dec csr.signer_name kubelet_serving_signer) [
        | yes serving ↦
            serving-Confirmed csr w serving (rw (authorize-serving deps csr w serving) at done)
        | no unknown ↦ absurd (authorize-unknown deps csr w other unknown done)
      ]
    ],
    λ c. elim c.chosen [
      | inl (client, name, parsed, same, all) ↦
          rw (authorize-client deps csr w client)
            (Confirmed-client csr w c name parsed same (NodelessOf-unclaimed c.listed c.claims all))
      | inr (serving, same, claim, one, first) ↦
          rw (authorize-serving deps csr w serving) (
            Confirmed-serving csr w c claim same one
              ((target_of_iff c.node c.listed claim).1 first))
    ],
  )

  -- A request that is to be approved.
  pub record Approvable (name : String) (w : deps.World) : Type 0 where
    pub csr : Csr
    pub read : (deps.get name w).0 ≡ ok csr
    pub present : csr.deletion_timestamp ≡ none
    pub undecided : IsUndecided csr
    pub confirmed : Confirmed csr (deps.get name w).1

  Approvable-sent :
      (name : String) (w : deps.World)
      → Approvable name w
      → any is_update (reconcile deps name w).2 ≡ true
  Approvable-sent name w a =
      let v = (deps.get name w).1 in
      let run = authorize deps a.csr v in
      let granted = (authorize_iff a.csr v).1 a.confirmed in
      rw
        (reconcile-pending deps name w a.csr a.read (ground (arith, a.present))
          ((is_certificate_request_pending_iff a.csr).1 a.undecided) granted)
        (ground (
          arith,
          any-append is_update run.2 (approve_if deps a.csr true run.1).2,
          approve_if-calls deps a.csr run.1,
        ))

  sent-Approvable :
      (name : String) (w : deps.World)
      → any is_update (reconcile deps name w).2 ≡ true
      → Approvable name w
  unfolding reconcile
  sent-Approvable name w sent = elim (Result-cases (deps.get name w).0) [
    | inr (e, bad) ↦ absurd (ground arith)
    | inl (csr, got) ↦ elim (Bool-cases (is_some csr.deletion_timestamp)) [
      | inl deleted ↦ absurd (ground arith)
      | inr present ↦ elim (Bool-cases (is_certificate_request_pending csr)) [
        | inr decided ↦ absurd (ground arith)
        | inl pending ↦ elim (Result-cases (authorize deps csr (deps.get name w).1).0) [
          | inr (e, bad) ↦ absurd (ground (arith, authorize-no_update deps csr (deps.get name w).1))
          | inl (false, denied) ↦
              absurd (ground (arith, reconcile-denied deps name w csr got present pending denied))
          | inl (true, granted) ↦ record {
            csr = csr;
            read = got;
            present = ground arith;
            undecided = (is_certificate_request_pending_iff csr).0 pending;
            confirmed = (authorize_iff csr (deps.get name w).1).0 granted;
          }
        ]
      ]
    ]
  ]

  -- A reconcile sends an approval exactly when the request that it reads is not being deleted, is
  -- undecided, and names a node that the verifier confirms when it is asked about the claims that are then
  -- listed: for a client certificate the subject names the node, and all the claims without a node are
  -- asked about, of which there is one at least; for a serving certificate the user names it, and the first
  -- claim of that node is asked about. A request of another signer is never approved.
  pub reconcile-sends_iff :
      (name : String) (w : deps.World)
      → (any is_update (reconcile deps name w).2 ≡ true) ↔ Approvable name w
  reconcile-sends_iff name w = (sent-Approvable name w, Approvable-sent name w)
