-- ===== src/MachineApprover/Queue.antt =====
-- pkg/controllers/machineapprover/controller.go: which requests reach the queue, what is left of a
-- request that was approved, and which runs approve.
use text.Mathlib.TextEquality.{eq_iff}
use mathlib.Core.List.Memᴰ.{not-nil, cases_cons}
use openshift_karpenter_oper.Base.{
  Memᴰ, inl, inr, ap, String, ◌≡◌, refl, ◌≢◌, ◌↔◌, ◌⊎◌, true, false, not, List, [], ◌∷◌, arith, ok,
  any, All, string_eq, contains,
}
use openshift_karpenter_oper.Kube.{finished}
use openshift_karpenter_oper.MachineApprover.{
  Csr, CsrCondition, got_csr, Deps, client_kubelet_signer, kubelet_serving_signer, node_group,
  node_bootstrapper_username, is_certificate_request_pending, csr_filter_fn, certificate_approved,
  certificate_denied, is_decision, reconcile,
}

-- No condition says that the request was approved or denied.
abbrev pub IsUndecided : Csr → Type 0
IsUndecided csr =
    All (λ (c : CsrCondition). (c.type ≢ certificate_approved) × (c.type ≢ certificate_denied))
      csr.conditions

no_decision_iff :
    (cs : List CsrCondition)
    → (not (any is_decision cs) ≡ true)
      ↔ All
          (λ (c : CsrCondition). (c.type ≢ certificate_approved) × (c.type ≢ certificate_denied))
          cs
unfolding is_decision
no_decision_iff [] = (λ _. tt, λ _. refl)
no_decision_iff (c ∷ cs) = ground (arith, no_decision_iff cs)

pub is_certificate_request_pending_iff :
    (csr : Csr) → (is_certificate_request_pending csr ≡ true) ↔ IsUndecided csr
unfolding is_certificate_request_pending
is_certificate_request_pending_iff csr = no_decision_iff csr.conditions

-- A request passes the filter exactly when it is undecided and either asks for a client certificate
-- on behalf of the node bootstrapper, or for a serving certificate in the group of the nodes.
pub csr_filter_fn_iff :
    (csr : Csr)
    → (csr_filter_fn csr ≡ true) ↔ (
        IsUndecided csr
        × (((csr.signer_name ≡ client_kubelet_signer) × (csr.username ≡ node_bootstrapper_username))
            ⊎ ((csr.signer_name ≡ kubelet_serving_signer)
                × (contains csr.groups node_group ≡ true))))
unfolding csr_filter_fn
csr_filter_fn_iff csr = ground (
  arith,
  is_certificate_request_pending_iff csr,
  eq_iff client_kubelet_signer kubelet_serving_signer,
)

decision-any :
    (c : CsrCondition) (cs : List CsrCondition)
    → Memᴰ c cs
    → (c.type ≡ certificate_approved) ⊎ (c.type ≡ certificate_denied)
    → any is_decision cs ≡ true
unfolding is_decision
decision-any c [] m decided = absurd (not-nil m)
decision-any c (d ∷ cs) m decided = elim (cases_cons m) [
  | inl here ↦ ground (arith, ap (λ (x : CsrCondition). x.type) here)
  | inr later ↦ ground (arith, decision-any c cs later decided)
]

-- A request with a condition that approves or denies it, whoever set it, does not pass the filter; and a
-- run that reads such a request ends well, calls nothing else and asks for no later run.
pub reconcile-decided :
    (deps : Deps) (name : String) (w : deps.World) (csr : Csr) (c : CsrCondition)
    → (deps.get name w).0 ≡ ok csr
    → Memᴰ c csr.conditions
    → (c.type ≡ certificate_approved) ⊎ (c.type ≡ certificate_denied)
    → (csr_filter_fn csr ≡ false)
      × (reconcile deps name w ≡ (ok finished, (deps.get name w).1, got_csr name (ok csr) ∷ []))
unfolding reconcile csr_filter_fn is_certificate_request_pending
reconcile-decided deps name w csr c got m decided =
    let known = decision-any c csr.conditions m decided in
    (ground (arith, known), rw got (ground (arith, known)))
