-- ===== src/Ec2/Controller.antt =====
-- pkg/controllers/nodeclass/ec2/controller.go: the reconcile of an OpenshiftEC2NodeClass, and the ConfigMap
-- of the subnets.
pub mod Subnets
pub mod Deleted
use openshift_karpenter_oper.Base.{
  ℕ, String, ◌<>◌, Bool, true, false, not, ◌&&◌, ◌||◌, Option, none, some, List, [], ◌∷◌, ◌++◌, M,
  Result, ok, err, Err, wrap, message, pure, fail, lift, call, attempt, context, ◌>>=◌, ◌>>◌,
  is_hcp_not_found, is_user_data_not_found, is_not_found, is_no_match, if◌then◌else◌, ◌==◌, ◌!=◌,
  string_eq, contains, is_some, is_empty, map, get_or, Eq,
}
use openshift_karpenter_oper.Base.Dict.{Dict, insert}
use openshift_karpenter_oper.Kube.{
  Condition, HostedControlPlane, Secret, Requeue, finished, requeue_after, ControlPlaneVersion,
  ResourceTag,
}
use openshift_karpenter_oper.Kube.Finalizers.{Finalizers}
use openshift_karpenter_oper.Hypershift.{get_hosted_control_plane}
use openshift_karpenter_oper.Hypershift.UserData.{
  get_user_data_secret, get_text, WatchEvent, created, updated, deleted, generic,
}
use openshift_karpenter_oper.NodeClass.Status.{Conditions}
use openshift_karpenter_oper.Ec2.Types.{OpenshiftEc2NodeClass, OpenshiftEc2NodeClassStatus, Subnet}
use openshift_karpenter_oper.Ec2.Upstream.{Ec2NodeClass}
use openshift_karpenter_oper.Ec2.Spec.{
  Provider, reconcile_ec2_node_class, default_instance_profile_annotation,
}
use openshift_karpenter_oper.Ec2.Status.{reconciled_status}
use openshift_karpenter_oper.Ec2.Policy.{vap_spec, binding_spec}
use openshift_karpenter_oper.Ec2.Calls.{
  vap_name, finalizer, karpenter_core_e2e_override_annotation, karpenter_subnets_config_map_name,
  vap_name, vap_binding_name, ConfigMap, Object, ec2_node_class, config_map, Event,
  patched_finalizers, asked_to_delete, wrote_ec2_node_class, patched_status, wrote_config_map,
  wrote_policy, wrote_policy_binding, listed_hosted_control_planes, listed_secrets, got_node_class,
  listed_node_classes, got_object, Deps,
}

-- The loop of `reconcileKarpenterSubnetsConfigMap`: the ids in the order in which they are inserted.
unfoldable pub ids_of_subnets : List Subnet → List String
ids_of_subnets [] = []
ids_of_subnets (subnet ∷ subnets) =
    let rest = ids_of_subnets subnets in if subnet.id != "" then subnet.id ∷ rest else rest

unfoldable pub subnet_ids : List OpenshiftEc2NodeClass → List String
unfolding ids_of_subnets
subnet_ids [] = []
subnet_ids (node_class ∷ more) =
    let rest = subnet_ids more in
    if is_some node_class.deletion_timestamp
    then rest
    else ids_of_subnets node_class.status.subnets ++ rest

module _ (deps : Deps) where
  open deps use {World, finalizers}

  after_delete : Result (Unit {0}) → M World Event Bool
  after_delete (ok _) = pure true
  after_delete (err e) = if is_not_found e then pure false else fail (wrap "deleting" e)

  after_get : Object → Result (Option ℕ) → M World Event Bool
  after_get o (err e) =
      if is_not_found e || is_no_match e then pure false else fail (wrap "getting" e)
  after_get o (ok (some _)) = pure true
  after_get o (ok none) = do
    answer ← attempt (call (deps.delete o) (asked_to_delete o))
    after_delete answer

  -- `deleteIfNeeded`
  unfoldable pub delete_if_needed : Object → M World Event Bool
  unfolding after_get after_delete
  delete_if_needed o = do got ← attempt (call (deps.get o) (got_object o)); after_get o got

  -- The change that `reconcileKarpenterSubnetsConfigMap` makes to the ConfigMap.
  unfoldable pub fill_config_map : HostedControlPlane → List String → ConfigMap → Result ConfigMap
  fill_config_map hcp ids old = elim (deps.own_config_map hcp old) [
    | err e ↦ err e
    | ok owned ↦ ok (record owned {
      labels =
          insert "hypershift.openshift.io/infra-id" hcp.infra_id
            (insert "hypershift.openshift.io/managed-by" "karpenter" owned.labels);
      contents = insert "subnetIDs" (deps.marshal ids) owned.contents;
    })
  ]

  unfoldable pub write_subnets : HostedControlPlane → List String → M World Event (Unit {0})
  write_subnets hcp ids =
      if is_empty ids
      then (do
        context "deleting karpenter subnets configmap"
            (delete_if_needed (config_map karpenter_subnets_config_map_name))
        pure tt)
      else context "reconciling karpenter subnets configmap" (
          call
            (deps.create_or_update_config_map karpenter_subnets_config_map_name
              (fill_config_map hcp ids))
            (wrote_config_map karpenter_subnets_config_map_name (fill_config_map hcp ids)))

  -- `reconcileKarpenterSubnetsConfigMap`
  unfoldable pub reconcile_karpenter_subnets_config_map :
      HostedControlPlane → M World Event (Unit {0})
  reconcile_karpenter_subnets_config_map hcp = do
    node_classes ←
        context "listing OpenshiftEC2NodeClass"
          (call deps.list_openshift_node_classes listed_node_classes)
    write_subnets hcp (deps.sorted_set (subnet_ids node_classes))

  -- `reconcileVAP`
  unfoldable pub reconcile_vap : M World Event (Unit {0})
  reconcile_vap = do
    let spec = vap_spec deps.api_group
    call (deps.create_or_update_policy vap_name spec) (wrote_policy vap_name spec)
    call (deps.create_or_update_binding vap_binding_name binding_spec)
        (wrote_policy_binding vap_binding_name binding_spec)

  write_status :
      OpenshiftEc2NodeClass → Option OpenshiftEc2NodeClassStatus → M World Event (Unit {0})
  write_status openshift none = fail (message "panic: slice bounds out of range")
  write_status openshift (some status) =
      if deps.same_status openshift.status status
      then pure tt
      else context "updating status"
          (call (deps.patch_status openshift.name status) (patched_status openshift.name status))

  -- `reconcileStatus`. A panic ends the reconcile with an error.
  unfoldable pub reconcile_status :
      Ec2NodeClass → OpenshiftEc2NodeClass → HostedControlPlane → M World Event (Unit {0})
  unfolding write_status
  reconcile_status ec2 openshift hcp =
      write_status openshift
        (reconciled_status deps.conditions deps.remove_status_condition ec2.status openshift hcp)

  unfoldable pub patch_node_class_finalizers :
      String → OpenshiftEc2NodeClass → List String → M World Event (Unit {0})
  patch_node_class_finalizers text openshift fs =
      context text
        (call (deps.patch_finalizers openshift.name fs) (patched_finalizers openshift.name fs))

  unfoldable pub drop_finalizer : OpenshiftEc2NodeClass → M World Event (Unit {0})
  drop_finalizer openshift =
      if finalizers.contains_finalizer openshift.finalizers finalizer
      then patch_node_class_finalizers "removing finalizer from openshiftEC2NodeClass" openshift
          (finalizers.remove_finalizer openshift.finalizers finalizer)
      else pure tt

  -- The branch of `Reconcile` for an object that is being deleted.
  unfoldable pub after_deletion :
      OpenshiftEc2NodeClass → HostedControlPlane → Bool → M World Event Requeue
  after_deletion openshift hcp true = pure (requeue_after 5)
  after_deletion openshift hcp false =
      context "reconciling karpenter subnets configmap during deletion"
        (reconcile_karpenter_subnets_config_map hcp)
      >> (drop_finalizer openshift >> pure finished)

  unfoldable pub reconcile_deleted :
      OpenshiftEc2NodeClass → HostedControlPlane → M World Event Requeue
  reconcile_deleted openshift hcp = do
    exists ← delete_if_needed (ec2_node_class openshift.name)
    after_deletion openshift hcp exists

  -- The change that `Reconcile` makes to the EC2NodeClass.
  unfoldable pub written :
      OpenshiftEc2NodeClass → HostedControlPlane → Secret → Ec2NodeClass → Result Ec2NodeClass
  written openshift hcp secret old = elim (deps.own_ec2 openshift old) [
    | err e ↦ err e
    | ok owned ↦ reconcile_ec2_node_class deps.provider owned openshift hcp secret
  ]

  -- The rest of `Reconcile`, from the written EC2NodeClass on, and from the user data Secret on.
  unfoldable pub after_write :
      OpenshiftEc2NodeClass → HostedControlPlane → Ec2NodeClass → M World Event Requeue
  after_write openshift hcp ec2 =
      (reconcile_status ec2 openshift hcp
        >> context "reconciling karpenter subnets configmap"
            (reconcile_karpenter_subnets_config_map hcp))
      >> (reconcile_vap >> pure finished)

  after_secret : OpenshiftEc2NodeClass → HostedControlPlane → Result Secret → M World Event Requeue
  after_secret openshift hcp (err e) =
      if is_user_data_not_found e then pure (requeue_after 1) else fail e
  after_secret openshift hcp (ok secret) = do
    ec2 ←
        call (deps.create_or_update_ec2 openshift.name (written openshift hcp secret))
          (wrote_ec2_node_class openshift.name)
    after_write openshift hcp ec2

  unfoldable pub ensure_finalizer : OpenshiftEc2NodeClass → M World Event (Unit {0})
  ensure_finalizer openshift =
      if finalizers.contains_finalizer openshift.finalizers finalizer
      then pure tt
      else patch_node_class_finalizers "adding finalizer to openshiftEC2NodeClass" openshift
          (finalizers.add_finalizer openshift.finalizers finalizer)

  unfoldable pub user_data_secret : String → String → M World Event (Result Secret)
  user_data_secret namespace name =
      attempt (get_user_data_secret (call deps.list_secrets listed_secrets) namespace name)

  -- The branch of `Reconcile` for an object that is not being deleted.
  unfoldable pub reconcile_existing :
      String → OpenshiftEc2NodeClass → HostedControlPlane → M World Event Requeue
  unfolding after_secret
  reconcile_existing namespace openshift hcp =
      ensure_finalizer openshift
      >> (user_data_secret namespace openshift.name >>= after_secret openshift hcp)

  after_node_class :
      String → HostedControlPlane → Result OpenshiftEc2NodeClass → M World Event Requeue
  after_node_class namespace hcp (err e) =
      if is_not_found e then pure finished else fail (wrap "getting openshiftEC2NodeClass" e)
  after_node_class namespace hcp (ok openshift) =
      if is_some openshift.deletion_timestamp
      then reconcile_deleted openshift hcp
      else reconcile_existing namespace openshift hcp

  after_lookup : String → String → Result HostedControlPlane → M World Event Requeue
  after_lookup namespace name (err e) = if is_hcp_not_found e then pure finished else fail e
  after_lookup namespace name (ok hcp) =
      if get_text karpenter_core_e2e_override_annotation hcp.annotations == "true"
      then pure finished
      else (do
        got ← attempt (call (deps.get_openshift_node_class name) (got_node_class name))
        after_node_class namespace hcp got)

  -- `Reconcile`, in the namespace of the control plane, of the object with the given name.
  unfoldable pub reconcile : String → String → M World Event Requeue
  unfolding after_lookup after_node_class
  reconcile namespace name = do
    got ← attempt (
        get_hosted_control_plane (call deps.list_hosted_control_planes listed_hosted_control_planes)
          namespace)
    after_lookup namespace name got
