-- ===== src/Ec2/Controller/Deleted.antt =====
-- pkg/controllers/nodeclass/ec2/controller.go: when an OpenshiftEC2NodeClass loses its finalizer.
use openshift_karpenter_oper.Base.{
  ◌&&◌, ◌==◌, string_eq, ◌≢◌, String, ◌≡◌, refl, Bool, true, false, not, ◌||◌, List, [], is_empty,
  pure, Option-cases, Result, ok, err, arith, any, any-append, never_and_then, and_then,
  and_then-ok, Result-cases, Bool-cases, inl, inr, is_not_found, is_no_match, context, call,
  is_some,
}
use openshift_karpenter_oper.Kube.{HostedControlPlane, Secret, finished}
use openshift_karpenter_oper.Kube.Finalizers.{IsLawful}
use openshift_karpenter_oper.Hypershift.{get_hosted_control_plane}
use openshift_karpenter_oper.Hypershift.UserData.{get_user_data_secret, get_text}
use openshift_karpenter_oper.Ec2.Types.{OpenshiftEc2NodeClass}
use openshift_karpenter_oper.Ec2.Upstream.{Ec2NodeClass}
use openshift_karpenter_oper.Ec2.Status.{reconciled_status}
use openshift_karpenter_oper.Ec2.Calls.{
  Deps, Event, Object, ec2_node_class, listed_hosted_control_planes, config_map,
  listed_node_classes, patched_finalizers, got_object, asked_to_delete, finalizer,
}
use openshift_karpenter_oper.Ec2.Controller.{
  subnet_ids, after_write, ensure_finalizer, user_data_secret, written, delete_if_needed,
  write_subnets, reconcile_karpenter_subnets_config_map, reconcile_vap, reconcile_status,
  drop_finalizer, patch_node_class_finalizers, after_deletion, reconcile_deleted, after_secret,
  reconcile_existing, after_node_class, after_lookup, reconcile,
}

module _ (deps : Deps) (name : String) where
  -- The API server says that the EC2NodeClass of this name is not there: it is not found, its kind is
  -- not known, or it is not found when it is to be deleted.
  abbrev pub says_gone : Event → Bool
  says_gone (got_object (ec2_node_class n) (err e)) = n == name && (is_not_found e || is_no_match e)
  says_gone (asked_to_delete (ec2_node_class n) (err e)) = n == name && is_not_found e
  says_gone _ = false

  -- A write of the finalizers of the OpenshiftEC2NodeClass of this name, without the controller's own.
  abbrev pub removes : Event → Bool
  removes (patched_finalizers n fs _) =
      n == name && not (deps.finalizers.contains_finalizer fs finalizer)
  removes _ = false

  delete_if_needed-keeps :
      (o : Object) (w : deps.World) → any removes (delete_if_needed deps o w).2 ≡ false
  unfolding delete_if_needed
  delete_if_needed-keeps o w = ground arith

  delete_if_needed-gone :
      (w : deps.World)
      → (delete_if_needed deps (ec2_node_class name) w).0 ≡ ok false
      → any says_gone (delete_if_needed deps (ec2_node_class name) w).2 ≡ true
  unfolding delete_if_needed
  delete_if_needed-gone w h = ground arith

  write_subnets-keeps :
      (hcp : HostedControlPlane) (ids : List String) (w : deps.World)
      → any removes (write_subnets deps hcp ids w).2 ≡ false
  unfolding write_subnets
  write_subnets-keeps hcp ids w =
      let quiet = delete_if_needed-keeps (config_map "karpenter-subnets") w in
      elim (Bool-cases (is_empty ids)) [
        | inr some_ ↦ rw some_ refl
        | inl none_ ↦ rw none_ (
            never_and_then removes
              (context "deleting karpenter subnets configmap"
                (delete_if_needed deps (config_map "karpenter-subnets")) w)
              (λ _. pure tt) quiet (λ _ _. refl))
      ]

  subnets-keeps :
      (hcp : HostedControlPlane) (w : deps.World)
      → any removes (reconcile_karpenter_subnets_config_map deps hcp w).2 ≡ false
  unfolding reconcile_karpenter_subnets_config_map
  subnets-keeps hcp w =
      never_and_then removes
        (context "listing OpenshiftEC2NodeClass"
          (call deps.list_openshift_node_classes listed_node_classes) w)
        (λ node_classes. write_subnets deps hcp (deps.sorted_set (subnet_ids node_classes))) refl
        (λ node_classes. write_subnets-keeps hcp (deps.sorted_set (subnet_ids node_classes)))

  status-keeps :
      (ec2 : Ec2NodeClass) (openshift : OpenshiftEc2NodeClass) (hcp : HostedControlPlane)
      (w : deps.World)
      → any removes (reconcile_status deps ec2 openshift hcp w).2 ≡ false
  unfolding reconcile_status
  status-keeps ec2 openshift hcp w =
      elim (Option-cases
        (reconciled_status deps.conditions deps.remove_status_condition ec2.status openshift hcp)) [
          | inl panic ↦ rw panic refl
          | inr (status, same) ↦ rw same (ground arith)
        ]

  vap-keeps : (w : deps.World) → any removes (reconcile_vap deps w).2 ≡ false
  unfolding reconcile_vap
  vap-keeps w = ground arith

  after_status-keeps :
      (openshift : OpenshiftEc2NodeClass) (hcp : HostedControlPlane) (ec2 : Ec2NodeClass)
      (w : deps.World)
      → any removes (after_write deps openshift hcp ec2 w).2 ≡ false
  unfolding after_write
  after_status-keeps openshift hcp ec2 w =
      never_and_then removes
        (and_then (reconcile_status deps ec2 openshift hcp w) (λ _.
          context "reconciling karpenter subnets configmap"
            (reconcile_karpenter_subnets_config_map deps hcp)))
        (λ _ w'. and_then (reconcile_vap deps w') (λ _. pure finished))
        (never_and_then removes (reconcile_status deps ec2 openshift hcp w)
          (λ _.
            context "reconciling karpenter subnets configmap"
              (reconcile_karpenter_subnets_config_map deps hcp))
          (status-keeps ec2 openshift hcp w) (λ _. subnets-keeps hcp))
        (λ _ w'.
          never_and_then removes (reconcile_vap deps w') (λ _. pure finished) (vap-keeps w')
            (λ _ _. refl))

  after_secret-keeps :
      (openshift : OpenshiftEc2NodeClass) (hcp : HostedControlPlane) (secret : Result Secret)
      (w : deps.World)
      → any removes (after_secret deps openshift hcp secret w).2 ≡ false
  unfolding after_secret
  after_secret-keeps openshift hcp (err e) w = ground arith
  after_secret-keeps openshift hcp (ok secret) w =
      elim (Result-cases
        (deps.create_or_update_ec2 openshift.name (written deps openshift hcp secret) w).0) [
          | inr (e, bad) ↦ rw bad refl
          | inl (ec2, good) ↦ rw good (after_status-keeps openshift hcp ec2 _)
        ]

  ensure_finalizer-keeps :
      (laws : IsLawful deps.finalizers) (openshift : OpenshiftEc2NodeClass) (w : deps.World)
      → any removes (ensure_finalizer deps openshift w).2 ≡ false
  unfolding ensure_finalizer patch_node_class_finalizers
  ensure_finalizer-keeps laws openshift w =
      ground (arith, laws.contains-add openshift.finalizers finalizer)

  user_data_secret-keeps :
      (namespace n : String) (w : deps.World)
      → any removes (user_data_secret deps namespace n w).2 ≡ false
  unfolding user_data_secret get_user_data_secret
  user_data_secret-keeps namespace n w = ground arith

  reconcile_existing-keeps :
      (laws : IsLawful deps.finalizers) (namespace : String) (openshift : OpenshiftEc2NodeClass)
      (hcp : HostedControlPlane) (w : deps.World)
      → any removes (reconcile_existing deps namespace openshift hcp w).2 ≡ false
  unfolding reconcile_existing
  reconcile_existing-keeps laws namespace openshift hcp w =
      never_and_then removes (ensure_finalizer deps openshift w)
        (λ _ w'.
          and_then (user_data_secret deps namespace openshift.name w')
            (after_secret deps openshift hcp))
        (ensure_finalizer-keeps laws openshift w)
        (λ _ w'.
          never_and_then removes (user_data_secret deps namespace openshift.name w')
            (after_secret deps openshift hcp) (user_data_secret-keeps namespace openshift.name w')
            (after_secret-keeps openshift hcp))

  drop_finalizer-other :
      (openshift : OpenshiftEc2NodeClass) (w : deps.World)
      → openshift.name ≢ name
      → any removes (drop_finalizer deps openshift w).2 ≡ false
  unfolding drop_finalizer patch_node_class_finalizers
  drop_finalizer-other openshift w differ = ground arith

  after_deletion-other :
      (openshift : OpenshiftEc2NodeClass) (hcp : HostedControlPlane)
      → openshift.name ≢ name
      → (exists : Bool) (w : deps.World)
      → any removes (after_deletion deps openshift hcp exists w).2 ≡ false
  unfolding after_deletion
  after_deletion-other openshift hcp differ true w = refl
  after_deletion-other openshift hcp differ false w =
      never_and_then removes
        (context "reconciling karpenter subnets configmap during deletion"
          (reconcile_karpenter_subnets_config_map deps hcp) w)
        (λ _ w'. and_then (drop_finalizer deps openshift w') (λ _. pure finished))
        (subnets-keeps hcp w)
        (λ _ w'.
          never_and_then removes (drop_finalizer deps openshift w') (λ _. pure finished)
            (drop_finalizer-other openshift w' differ) (λ _ _. refl))

  reconcile_deleted-other :
      (openshift : OpenshiftEc2NodeClass) (hcp : HostedControlPlane) (w : deps.World)
      → openshift.name ≢ name
      → any removes (reconcile_deleted deps openshift hcp w).2 ≡ false
  unfolding reconcile_deleted
  reconcile_deleted-other openshift hcp w differ =
      let o = ec2_node_class openshift.name in
      never_and_then removes (delete_if_needed deps o w) (after_deletion deps openshift hcp)
        (delete_if_needed-keeps o w) (after_deletion-other openshift hcp differ)

  reconcile_deleted-gone :
      (openshift : OpenshiftEc2NodeClass) (hcp : HostedControlPlane) (w : deps.World)
      → openshift.name ≡ name
      → any removes (reconcile_deleted deps openshift hcp w).2 ≡ true
      → any says_gone (reconcile_deleted deps openshift hcp w).2 ≡ true
  unfolding reconcile_deleted after_deletion
  reconcile_deleted-gone openshift hcp w same h =
      let o = ec2_node_class openshift.name in
      let quiet = delete_if_needed-keeps o w in
      elim (Result-cases (delete_if_needed deps o w).0) [
        | inr (e, bad) ↦ absurd (ground (arith, quiet, bad))
        | inl (true, there) ↦
            absurd (ground (arith, quiet, any-append removes (delete_if_needed deps o w).2 []))
        | inl (false, absent) ↦
            let gone : any says_gone (delete_if_needed deps o w).2 ≡ true =
              rw same (delete_if_needed-gone w (rw same at absent)) in
            rw (and_then-ok (delete_if_needed deps o w) (after_deletion deps openshift hcp) absent)
              (ground (
                arith,
                any-append says_gone (delete_if_needed deps o w).2
                    (after_deletion deps openshift hcp false (delete_if_needed deps o w).1).2,
                gone,
              ))
      ]

  after_node_class-gone :
      (laws : IsLawful deps.finalizers) (namespace : String) (hcp : HostedControlPlane)
      (got : Result OpenshiftEc2NodeClass) (w : deps.World)
      → any removes (after_node_class deps namespace hcp got w).2 ≡ true
      → any says_gone (after_node_class deps namespace hcp got w).2 ≡ true
  unfolding after_node_class
  after_node_class-gone laws namespace hcp (err e) w h = absurd (ground arith)
  after_node_class-gone laws namespace hcp (ok openshift) w h =
      elim (Bool-cases (is_some openshift.deletion_timestamp)) [
        | inl deleted ↦ elim (string_eq.dec openshift.name name) [
          | yes same ↦ rw deleted (reconcile_deleted-gone openshift hcp w same (rw deleted at h))
          | no differ ↦ absurd (ground (arith, reconcile_deleted-other openshift hcp w differ))
        ]
        | inr alive ↦
            absurd (ground (arith, reconcile_existing-keeps laws namespace openshift hcp w))
      ]

  after_lookup-gone :
      (laws : IsLawful deps.finalizers) (namespace requested : String)
      (got : Result HostedControlPlane) (w : deps.World)
      → any removes (after_lookup deps namespace requested got w).2 ≡ true
      → any says_gone (after_lookup deps namespace requested got w).2 ≡ true
  unfolding after_lookup
  after_lookup-gone laws namespace requested (err e) w h = absurd (ground arith)
  after_lookup-gone laws namespace requested (ok hcp) w h =
      elim (Bool-cases (
        get_text "hypershift.openshift.io/karpenter-core-e2e-override" hcp.annotations == "true")) [
          | inl off ↦ absurd (ground arith)
          | inr on ↦
              let answer = deps.get_openshift_node_class requested w in
              rw on (after_node_class-gone laws namespace hcp answer.0 answer.1 (rw on at h))
        ]

  -- A reconcile, of whatever object, stores an OpenshiftEC2NodeClass without the controller's finalizer
  -- only if the API server told the same run that the EC2NodeClass of that name is not there.
  pub reconcile-gone :
      (laws : IsLawful deps.finalizers) (namespace requested : String) (w : deps.World)
      → any removes (reconcile deps namespace requested w).2 ≡ true
      → any says_gone (reconcile deps namespace requested w).2 ≡ true
  unfolding reconcile get_hosted_control_plane
  reconcile-gone laws namespace requested w h =
      let got =
        get_hosted_control_plane (call deps.list_hosted_control_planes listed_hosted_control_planes)
          namespace w in
      let later = after_lookup deps namespace requested got.0 got.1 in
      let quiet : any removes got.2 ≡ false = ground arith in
      ground (
        arith,
        quiet,
        any-append removes got.2 later.2,
        any-append says_gone got.2 later.2,
        after_lookup-gone laws namespace requested got.0 got.1,
      )
