-- ===== src/Azure/Settled.antt =====
-- pkg/controllers/nodeclass/azure/controller.go: what repeated reconciles do to an AKSNodeClass.
use openshift_karpenter_oper.Base.{◌≡◌, true, Bool-cases, inl, inr, arith}
use openshift_karpenter_oper.Kube.{HostedControlPlane, Secret}
use openshift_karpenter_oper.Hypershift.{waits_for_control_plane_upgrade}
use openshift_karpenter_oper.Azure.Types.{
  OpenshiftAzureNodeClass, AksNodeClassSpec, desired_spec, keeps_release,
}

module _ (openshift : OpenshiftAzureNodeClass) (hcp : HostedControlPlane) where
  -- What is written has user data and an image, so that an upgrade keeps them.
  keeps_release-desired :
      (secret : Secret) (current : AksNodeClassSpec)
      → keeps_release (desired_spec openshift hcp secret current) openshift hcp
        ≡ waits_for_control_plane_upgrade hcp openshift.spec.version
  unfolding keeps_release desired_spec
  keeps_release-desired secret current = ground arith

  -- While the control plane upgrades, the spec that a reconcile of an unpinned NodeClass has written is the
  -- one that a later reconcile writes, whatever the user data Secret then holds.
  pub desired_spec-settled :
      (secret later : Secret) (current : AksNodeClassSpec)
      → waits_for_control_plane_upgrade hcp openshift.spec.version ≡ true
      → desired_spec openshift hcp later (desired_spec openshift hcp secret current)
        ≡ desired_spec openshift hcp secret current
  unfolding desired_spec
  desired_spec-settled secret later current waits =
      elim (Bool-cases (keeps_release current openshift hcp)) [
        | inl kept ↦ ground (arith, kept, keeps_release-desired secret current)
        | inr renewed ↦ ground (arith, renewed, keeps_release-desired secret current)
      ]
