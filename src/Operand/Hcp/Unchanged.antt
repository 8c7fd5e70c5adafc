-- ===== src/Operand/Hcp/Unchanged.antt =====
-- pkg/controllers/karpenter/hcp_controller.go: the updates that its watch passes over.
use openshift_karpenter_oper.Base.{◌≡◌, refl, false, ok, arith, string_eq}
use openshift_karpenter_oper.Kube.{HostedControlPlane}
use openshift_karpenter_oper.Hypershift.UserData.{updated, get_text}
use openshift_karpenter_oper.Operand.Apply.{Deps}
use openshift_karpenter_oper.Operand.Hcp.{
  HcpControllerConfig, hcp_owner_ref, operand_config, operand_image, deploy, reconcile_hcp,
  after_get, hcp_operand_changed, hcp_operand_reconcile_predicate,
  karpenter_image_override_annotation,
}

-- What the operand depends on, of two objects that the watch does not tell apart.
same_settings :
    (old new : HostedControlPlane)
    → hcp_operand_reconcile_predicate (updated old new) ≡ false
    → (new.infra_id ≡ old.infra_id)
      × (new.provisioner_name ≡ old.provisioner_name)
      × (new.control_plane_version.desired_version ≡ old.control_plane_version.desired_version)
      × (get_text karpenter_image_override_annotation new.annotations
          ≡ get_text karpenter_image_override_annotation old.annotations)
unfolding hcp_operand_reconcile_predicate hcp_operand_changed
same_settings old new h = (ground arith, ground arith, ground arith, ground arith)

-- The watch passes an update over only if it does not matter: with the object after it, of the same name
-- and uid, a reconcile does what it does with the object before it, from every state of the cluster and
-- whatever else of the object has changed.
pub hcp_operand_changed-unchanged :
    (config : HcpControllerConfig) (deps : Deps HostedControlPlane) (old new : HostedControlPlane)
    (w : deps.World)
    → new.name ≡ old.name
    → new.uid ≡ old.uid
    → hcp_operand_reconcile_predicate (updated old new) ≡ false
    → after_get config deps (ok new) w ≡ after_get config deps (ok old) w
unfolding after_get reconcile_hcp deploy operand_config operand_image hcp_owner_ref
hcp_operand_changed-unchanged config deps old new w named same h =
    let (infra, provisioner, version, override) = same_settings old new h in
    rw (named, same, infra, provisioner, version, override) refl
