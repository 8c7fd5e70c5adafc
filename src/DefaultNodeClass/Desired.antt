-- ===== src/DefaultNodeClass/Desired.antt =====
-- pkg/controllers/nodeclass/default/controller.go: what the watch passes over.
use openshift_karpenter_oper.Base.{◌≡◌, refl, false, arith, string_eq}
use openshift_karpenter_oper.Kube.{HostedControlPlane}
use openshift_karpenter_oper.Hypershift.UserData.{updated, get_text}
use openshift_karpenter_oper.DefaultNodeClass.{Deps, hcp_predicate, reconcile_hcp}

same_settings :
    (old new : HostedControlPlane)
    → hcp_predicate (updated old new) ≡ false
    → (new.infra_id ≡ old.infra_id)
      × (new.provisioner_name ≡ old.provisioner_name)
      × (get_text "hypershift.openshift.io/karpenter-core-e2e-override" new.annotations
          ≡ get_text "hypershift.openshift.io/karpenter-core-e2e-override" old.annotations)
unfolding hcp_predicate
same_settings old new h = (ground arith, ground arith, ground arith)

-- A change of the HostedControlPlane that the watch passes over asks for nothing: with the object before
-- and after it a reconcile does the same, from any state of the hosted cluster.
pub hcp_predicate-unchanged :
    (deps : Deps) (old new : HostedControlPlane) (w : deps.World)
    → hcp_predicate (updated old new) ≡ false
    → reconcile_hcp deps new w ≡ reconcile_hcp deps old w
unfolding reconcile_hcp
hcp_predicate-unchanged deps old new w h =
    let (infra, provisioner, override) = same_settings old new h in
    rw (infra, provisioner, override) refl
