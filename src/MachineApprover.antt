-- ===== src/MachineApprover.antt =====
-- pkg/controllers/machineapprover/controller.go: which certificate signing requests of kubelets are
-- reconciled, and which of these are approved.
pub mod Approval
pub mod Queue
pub mod OnAws
pub mod Exactly
use openshift_karpenter_oper.Base.{
  ℕ, String, ◌<>◌, Bool, true, false, not, ◌&&◌, ◌||◌, Option, none, some, List, [], ◌∷◌, ◌++◌, M,
  Result, ok, err, Err, wrap, message, pure, fail, lift, call, attempt, context, ◌>>=◌, ◌>>◌,
  is_not_found, if◌then◌else◌, ◌==◌, ◌!=◌, string_eq, contains, any, select, find, trim_prefix,
  is_some,
}
use openshift_karpenter_oper.Kube.{NodeClaim, Requeue, finished}

-- `certificatesv1.CertificateSigningRequestCondition`
pub record CsrCondition : Type 0 where
  pub type : String
  pub status : String
  pub reason : String
  pub message : String

-- `certificatesv1.CertificateSigningRequest`
pub record Csr : Type 0 where
  pub name : String
  pub deletion_timestamp : Option ℕ
  pub signer_name : String
  pub username : String
  pub groups : List String
  pub request : List ℕ
  pub conditions : List CsrCondition

-- The constants of `certificatesv1`.
abbrev pub certificate_approved : String
certificate_approved = "Approved"

abbrev pub certificate_denied : String
certificate_denied = "Denied"

abbrev pub client_kubelet_signer : String
client_kubelet_signer = "kubernetes.io/kube-apiserver-client-kubelet"

abbrev pub kubelet_serving_signer : String
kubelet_serving_signer = "kubernetes.io/kubelet-serving"

abbrev pub controller_name : String
controller_name = "karpenter-machine-approver"

abbrev pub node_bootstrapper_username : String
node_bootstrapper_username =
    "system:serviceaccount:openshift-machine-config-operator:node-bootstrapper"

abbrev pub node_group : String
node_group = "system:nodes"

abbrev pub node_user_prefix : String
node_user_prefix = "system:node:"

is_decision : CsrCondition → Bool
is_decision c = c.type == certificate_approved || c.type == certificate_denied

-- `isCertificateRequestPending`
unfoldable pub is_certificate_request_pending : Csr → Bool
unfolding is_decision
is_certificate_request_pending csr = not (any is_decision csr.conditions)

-- `csrFilterFn`
unfoldable pub csr_filter_fn : Csr → Bool
csr_filter_fn csr =
    if not (is_certificate_request_pending csr)
    then false
    else if csr.signer_name == client_kubelet_signer
    then csr.username == node_bootstrapper_username
    else if csr.signer_name == kubelet_serving_signer
    then contains csr.groups node_group
    else false

-- The calls of a reconcile, with their answers.
pub data Event : Type 0 where
  got_csr : String → Result Csr → Event
  listed_node_claims : Result (List NodeClaim) → Event
  verified : String → List NodeClaim → Result Bool → Event
  updated_approval : Csr → Result (Unit {0}) → Event

-- What the controller works with: the client of the hosted cluster, the certificate client, the
-- cloud's `NodeIdentityVerifier`, and Go's `pem` and `x509`. `pem_decode` gives the block's type and
-- bytes, and `parse_certificate_request` the common name of the request's subject.
pub record Deps : Type 1 where
  pub World : Type 0
  pub get : String → World → Result Csr × World
  pub list : World → Result (List NodeClaim) × World
  pub verify : String → List NodeClaim → World → Result Bool × World
  pub update_approval : Csr → World → Result (Unit {0}) × World
  pub pem_decode : List ℕ → Option (String × List ℕ)
  pub parse_certificate_request : List ℕ → Result String

-- The filter of `authorizeClientCSR`: claims that have no node yet.
unfoldable pub unclaimed : List NodeClaim → List NodeClaim
unclaimed = select (λ claim. claim.node_name == "")

-- The loop of `findTargetNodeClaim`.
unfoldable pub target_of : String → List NodeClaim → Option NodeClaim
target_of node_name = find (λ claim. claim.node_name == node_name)

abbrev pub approval : CsrCondition
approval = record {
  type = certificate_approved;
  status = "True";
  reason = "KarpenterCSRApprove";
  message = "Auto approved by " <> controller_name;
}

-- The copy that `approve` sends.
unfoldable pub approved_copy : Csr → Csr
approved_copy csr = record csr { conditions = csr.conditions ++ approval ∷ [] }

module _ (deps : Deps) where
  open deps use {World, get, list, verify, update_approval, pem_decode, parse_certificate_request}

  -- `parseCSR`
  unfoldable pub parse_csr : List ℕ → Result String
  parse_csr pem_bytes = elim (pem_decode pem_bytes) [
    | none ↦ err (message "PEM block type must be CERTIFICATE REQUEST")
    | some (type, bytes) ↦
        if type == "CERTIFICATE REQUEST"
        then parse_certificate_request bytes
        else err (message "PEM block type must be CERTIFICATE REQUEST")
  ]

  -- `listNodeClaims`
  unfoldable pub list_node_claims : M World Event (List NodeClaim)
  list_node_claims = context "listing NodeClaims" (call list listed_node_claims)

  ask_verifier : String → List NodeClaim → M World Event Bool
  ask_verifier node_name claims = call (verify node_name claims) (verified node_name claims)

  verify_unclaimed : String → List NodeClaim → M World Event Bool
  verify_unclaimed node_name [] = pure false
  verify_unclaimed node_name (claim ∷ claims) = ask_verifier node_name (claim ∷ claims)

  -- `authorizeClientCSR`
  unfoldable pub authorize_client_csr : Csr → M World Event Bool
  unfolding parse_csr list_node_claims verify_unclaimed ask_verifier unclaimed
  authorize_client_csr csr = do
    common_name ← lift (parse_csr csr.request)
    let node_name = trim_prefix common_name node_user_prefix
    if node_name == ""
        then fail (message "subject common name does not have a valid node name")
        else do node_claims ← list_node_claims; verify_unclaimed node_name (unclaimed node_claims)

  verify_target : String → Option NodeClaim → M World Event Bool
  verify_target node_name none = pure false
  verify_target node_name (some claim) = ask_verifier node_name (claim ∷ [])

  -- `authorizeServingCSR` with `findTargetNodeClaim`
  unfoldable pub authorize_serving_csr : Csr → M World Event Bool
  unfolding list_node_claims verify_target ask_verifier target_of
  authorize_serving_csr csr =
      let node_name = trim_prefix csr.username node_user_prefix in
      if node_name == "" then fail (message "csr username does not have a valid node name") else do
        node_claims ← list_node_claims
        verify_target node_name (target_of node_name node_claims)

  -- `authorize`
  unfoldable pub authorize : Csr → M World Event Bool
  authorize csr =
      if csr.signer_name == client_kubelet_signer
      then authorize_client_csr csr
      else if csr.signer_name == kubelet_serving_signer
      then authorize_serving_csr csr
      else fail (message ("unrecognized signerName " <> csr.signer_name))

  -- `approve`
  unfoldable pub approve : Csr → M World Event (Unit {0})
  unfolding approved_copy
  approve csr =
      context "updating csr approval"
        (call (update_approval (approved_copy csr)) (updated_approval (approved_copy csr)))

  unfoldable pub approve_if : Csr → Bool → M World Event Requeue
  approve_if csr false = pure finished
  approve_if csr true = do context "approving csr" (approve csr); pure finished

  unfoldable pub reconcile_csr : Csr → M World Event Requeue
  reconcile_csr csr =
      if is_some csr.deletion_timestamp
      then pure finished
      else if not (is_certificate_request_pending csr)
      then pure finished
      else do authorized ← authorize csr; approve_if csr authorized

  unfoldable pub after_get : Result Csr → M World Event Requeue
  after_get (ok csr) = reconcile_csr csr
  after_get (err e) = if is_not_found e then pure finished else fail (wrap "getting csr" e)

  -- `Reconcile`
  unfoldable pub reconcile : String → M World Event Requeue
  unfolding after_get reconcile_csr approve_if
  reconcile name = do got ← attempt (call (get name) (got_csr name)); after_get got
