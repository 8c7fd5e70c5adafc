-- ===== src/Ec2/Spec/Upgrade.antt =====
-- pkg/controllers/nodeclass/ec2/controller.go: the release that the nodes of an EC2NodeClass run.
use openshift_karpenter_oper.Base.{
  String, ◌≡◌, ◌≢◌, refl, ap, true, ◌||◌, inl, inr, Option, some, List, [], arith, ok, is_ok,
  Result-cases, Bool-cases, string_eq, is_some,
}
use openshift_karpenter_oper.Base.Dict.{lookup}
use openshift_karpenter_oper.Kube.{HostedControlPlane, Secret}
use openshift_karpenter_oper.Hypershift.{waits_for_control_plane_upgrade}
use openshift_karpenter_oper.Hypershift.Upgrade.{NewestCompleted, waits_iff}
use openshift_karpenter_oper.Ec2.Types.{OpenshiftEc2NodeClass}
use openshift_karpenter_oper.Ec2.Upstream.{AmiSelectorTerm, Ec2NodeClass}
use openshift_karpenter_oper.Ec2.Spec.{
  arch_to_ami_label_key, ami_terms, ami_selector_terms_from_user_data_secret, keeps_release,
  release_fields, Provider, with_release, reconcile_ec2_node_class,
}

amd64_key : arch_to_ami_label_key "amd64" ≡ "hypershift.openshift.io/ami"
unfolding arch_to_ami_label_key string_eq
amd64_key = refl

arm64_key : arch_to_ami_label_key "arm64" ≡ "hypershift.openshift.io/ami-arm64"
unfolding arch_to_ami_label_key string_eq
arm64_key = refl

module _ (provider : Provider) (openshift : OpenshiftEc2NodeClass) (hcp : HostedControlPlane)
    (secret : Secret) where
  release-cases :
      (ec2 new : Ec2NodeClass)
      → reconcile_ec2_node_class provider ec2 openshift hcp secret ≡ ok new
      → (fields : Option String × List AmiSelectorTerm) × (release_fields ec2 openshift hcp secret
          ≡ ok fields)
        × (with_release provider fields ec2 openshift hcp ≡ new)
  unfolding reconcile_ec2_node_class
  release-cases ec2 new h = elim (Result-cases (release_fields ec2 openshift hcp secret)) [
    | inr (e, bad) ↦ absurd (ground arith)
    | inl (fields, good) ↦ (fields, good, ground arith)
  ]

  release_fields-kept :
      (ec2 : Ec2NodeClass) (later : Secret)
      → keeps_release ec2 openshift hcp ≡ true
      → release_fields ec2 openshift hcp later
        ≡ ok (ec2.spec.user_data, ec2.spec.ami_selector_terms)
  unfolding release_fields
  release_fields-kept ec2 later kept = ground (arith, kept)

  with_release-again :
      (ec2 : Ec2NodeClass) (fields : Option String × List AmiSelectorTerm)
      → with_release provider fields (with_release provider fields ec2 openshift hcp) openshift hcp
        ≡ with_release provider fields ec2 openshift hcp
  unfolding with_release
  with_release-again ec2 fields = refl

  -- A release that is kept is written again, with the same spec.
  release-kept :
      (fields : Option String × List AmiSelectorTerm) (ec2 : Ec2NodeClass) (later : Secret)
      → let new = with_release provider fields ec2 openshift hcp in
        keeps_release new openshift hcp ≡ true
        → (release_fields new openshift hcp later ≡ ok fields)
  unfolding with_release
  release-kept (user_data, terms) ec2 later kept = release_fields-kept _ later kept

  -- What is written while the control plane upgrades is there to be kept.
  release-set :
      (ec2 : Ec2NodeClass) (fields : Option String × List AmiSelectorTerm)
      → waits_for_control_plane_upgrade hcp openshift.spec.version ≡ true
      → release_fields ec2 openshift hcp secret ≡ ok fields
      → keeps_release (with_release provider fields ec2 openshift hcp) openshift hcp ≡ true
  unfolding release_fields with_release keeps_release ami_selector_terms_from_user_data_secret
  release-set ec2 (user_data, terms) waits given =
      let kept_ = keeps_release ec2 openshift hcp in
      elim (Bool-cases kept_) [
        | inl kept ↦ ground (arith, kept)
        | inr fresh ↦ ground (arith, fresh)
      ]

  -- While the control plane is on its way to another image than that of its newest completed update,
  -- an EC2NodeClass that is not tied to a version, and that has AMIs and user data, keeps both, whatever
  -- the user data Secret holds by then.
  pub reconcile_ec2_node_class-waits :
      (ec2 : Ec2NodeClass) (user_data : String)
      → openshift.spec.version ≡ ""
      → hcp.control_plane_version.desired_image ≢ ""
      → (n : NewestCompleted hcp.control_plane_version.history)
      → n.entry.image ≢ hcp.control_plane_version.desired_image
      → ec2.spec.ami_selector_terms ≢ []
      → ec2.spec.user_data ≡ some user_data
      → (new : Ec2NodeClass) × (reconcile_ec2_node_class provider ec2 openshift hcp secret ≡ ok new)
        × (new.spec.user_data ≡ some user_data)
        × (new.spec.ami_selector_terms ≡ ec2.spec.ami_selector_terms)
  unfolding reconcile_ec2_node_class with_release release_fields keeps_release
  reconcile_ec2_node_class-waits ec2 user_data unpinned desired n differs amis has_data =
      let waits = (waits_iff hcp openshift.spec.version).1 (unpinned, desired, n, differs) in
      let fields : Option String × List AmiSelectorTerm =
        (ec2.spec.user_data, ec2.spec.ami_selector_terms) in
      (with_release provider fields ec2 openshift hcp, ground arith, has_data, refl)

  -- While the control plane is on its way to another image than that of its newest completed update, the
  -- EC2NodeClass that a pass asks for, for a NodeClass that is not tied to a version, is the one that a
  -- later pass over it asks for, whatever the user data Secret holds by then; also where the first pass
  -- creates it in the middle of the upgrade.
  pub reconcile_ec2_node_class-settled :
      (ec2 new : Ec2NodeClass) (later : Secret)
      → openshift.spec.version ≡ ""
      → hcp.control_plane_version.desired_image ≢ ""
      → (n : NewestCompleted hcp.control_plane_version.history)
      → n.entry.image ≢ hcp.control_plane_version.desired_image
      → reconcile_ec2_node_class provider ec2 openshift hcp secret ≡ ok new
      → reconcile_ec2_node_class provider new openshift hcp later ≡ ok new
  unfolding reconcile_ec2_node_class
  reconcile_ec2_node_class-settled ec2 new later unpinned desired n differs h =
      let waits = (waits_iff hcp openshift.spec.version).1 (unpinned, desired, n, differs) in
      let (fields, given, made) = release-cases ec2 new h in
      let kept = release-set ec2 fields waits given in
      let again = release-kept fields ec2 later kept in
      rw (← made) (rw (again, reconcile_ec2_node_class) (ap ok (with_release-again ec2 fields)))

  -- Whether a reconcile writes a spec: it does if the release is kept, or if the Secret has the label of
  -- an AMI for one of the two architectures.
  pub reconcile_ec2_node_class-is_ok :
      (ec2 : Ec2NodeClass)
      → is_ok (reconcile_ec2_node_class provider ec2 openshift hcp secret) ≡ (
          keeps_release ec2 openshift hcp
          || is_some (lookup "hypershift.openshift.io/ami" secret.labels)
          || is_some (lookup "hypershift.openshift.io/ami-arm64" secret.labels))
  unfolding reconcile_ec2_node_class release_fields ami_selector_terms_from_user_data_secret
      ami_terms waits_for_control_plane_upgrade string_eq
  reconcile_ec2_node_class-is_ok ec2 = rw (amd64_key, arm64_key) (ground arith)
