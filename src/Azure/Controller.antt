-- ===== src/Azure/Controller.antt =====
-- pkg/controllers/nodeclass/azure/controller.go: the reconcile of an OpenShiftAzureNodeClass into an
-- AKSNodeClass, and which events make the controller reconcile what.
use openshift_karpenter_oper.Base.{
  String, Bool, true, false, not, List, [], M, Result, ok, err, wrap, pure, fail, call, attempt,
  context, ◌>>=◌, ◌>>◌, is_not_found, is_hcp_not_found, is_user_data_not_found, if◌then◌else◌,
  string_eq, nat_eq, is_some, map,
}
use openshift_karpenter_oper.Kube.{
  Condition, HostedControlPlane, ControlPlaneVersion, Secret, Requeue, finished,
}
use openshift_karpenter_oper.Kube.Finalizers.{Finalizers}
use openshift_karpenter_oper.Hypershift.{get_hosted_control_plane}
use openshift_karpenter_oper.Hypershift.UserData.{
  get_user_data_secret, WatchEvent, created, updated, deleted, generic,
}
use openshift_karpenter_oper.NodeClass.Status.{Conditions, sync_conditions}
use openshift_karpenter_oper.Azure.Types.{OpenshiftAzureNodeClass, AksNodeClass, desired_spec}

abbrev pub finalizer : String
finalizer = "hypershift.openshift.io/azure-nodeclass-finalizer"

-- The calls of a reconcile, with their answers.
pub data Event : Type 0 where
  got_node_class : Result OpenshiftAzureNodeClass → Event
  patched_finalizers : String → List String → Result (Unit {0}) → Event
  deleted_aks : String → Result (Unit {0}) → Event
  listed_hosted_control_planes : Result (List HostedControlPlane) → Event
  listed_secrets : Result (List Secret) → Event
  wrote_aks : String → Result AksNodeClass → Event
  patched_status : String → List Condition → Result (Unit {0}) → Event

-- The clients of both clusters. `create_or_update_aks` reads the object, applies the given change to it, or
-- to a new one, and writes the outcome back if the change does not fail. `own` is `SetControllerReference`
-- on the second object, and `same_conditions` is `equality.Semantic.DeepEqual`.
pub record Deps : Type 1 where
  pub World : Type 0
  pub finalizers : Finalizers
  pub conditions : Conditions
  pub same_conditions : List Condition → List Condition → Bool
  pub own : OpenshiftAzureNodeClass → AksNodeClass → Result AksNodeClass
  pub get : String → World → Result OpenshiftAzureNodeClass × World
  pub patch_finalizers : String → List String → World → Result (Unit {0}) × World
  pub delete_aks : String → World → Result (Unit {0}) × World
  pub list_hosted_control_planes : World → Result (List HostedControlPlane) × World
  pub list_secrets : World → Result (List Secret) × World
  pub create_or_update_aks :
      String → (AksNodeClass → Result AksNodeClass) → World → Result AksNodeClass × World
  pub patch_status : String → List Condition → World → Result (Unit {0}) × World

module _ (deps : Deps) where
  open deps use {World, finalizers}

  unfoldable pub patch_node_class_finalizers :
      String → OpenshiftAzureNodeClass → List String → M World Event (Unit {0})
  patch_node_class_finalizers text openshift fs =
      context text
        (call (deps.patch_finalizers openshift.name fs) (patched_finalizers openshift.name fs))

  -- What `reconcileDelete` does with the answer to the deletion.
  unfoldable pub after_delete :
      OpenshiftAzureNodeClass → Result (Unit {0}) → M World Event (Unit {0})
  unfolding patch_node_class_finalizers
  after_delete openshift (ok _) = pure tt
  after_delete openshift (err e) =
      if is_not_found e
      then (if finalizers.contains_finalizer openshift.finalizers finalizer
          then patch_node_class_finalizers "removing finalizer" openshift
              (finalizers.remove_finalizer openshift.finalizers finalizer)
          else pure tt)
      else fail (wrap "deleting AKSNodeClass" e)

  -- `reconcileDelete`
  unfoldable pub reconcile_delete : OpenshiftAzureNodeClass → M World Event (Unit {0})
  reconcile_delete openshift = do
    answer ← attempt (call (deps.delete_aks openshift.name) (deleted_aks openshift.name))
    after_delete openshift answer

  -- `reconcileStatus`
  unfoldable pub reconcile_status :
      OpenshiftAzureNodeClass → AksNodeClass → M World Event (Unit {0})
  reconcile_status openshift aks =
      let conditions =
        sync_conditions deps.conditions openshift.status.conditions aks.conditions
          openshift.generation in
      if deps.same_conditions conditions openshift.status.conditions
      then pure tt
      else context "updating status" (
          call (deps.patch_status openshift.name conditions)
            (patched_status openshift.name conditions))

  -- The change that `reconcileAKSNodeClass` makes.
  unfoldable pub written :
      OpenshiftAzureNodeClass → HostedControlPlane → Secret → AksNodeClass → Result AksNodeClass
  written openshift hcp secret aks =
      deps.own openshift (record aks { spec = desired_spec openshift hcp secret aks.spec })

  -- `reconcileAKSNodeClass`
  unfoldable pub reconcile_aks_node_class :
      OpenshiftAzureNodeClass → HostedControlPlane → Secret → M World Event AksNodeClass
  reconcile_aks_node_class openshift hcp secret = context "reconciling AKSNodeClass" (
      call (deps.create_or_update_aks openshift.name (written openshift hcp secret))
        (wrote_aks openshift.name))

  unfoldable pub after_secret :
      OpenshiftAzureNodeClass → HostedControlPlane → Result Secret → M World Event Requeue
  after_secret openshift hcp (err e) = if is_user_data_not_found e then pure finished else fail e
  after_secret openshift hcp (ok secret) = do
    aks ← reconcile_aks_node_class openshift hcp secret
    reconcile_status openshift aks
    pure finished

  unfoldable pub after_lookup :
      String → OpenshiftAzureNodeClass → Result HostedControlPlane → M World Event Requeue
  unfolding after_secret
  after_lookup namespace openshift (err e) = if is_hcp_not_found e then pure finished else fail e
  after_lookup namespace openshift (ok hcp) = do
    secret ←
        attempt
          (get_user_data_secret (call deps.list_secrets listed_secrets) namespace openshift.name)
    after_secret openshift hcp secret

  unfoldable pub ensure_finalizer : OpenshiftAzureNodeClass → M World Event (Unit {0})
  unfolding patch_node_class_finalizers
  ensure_finalizer openshift =
      if finalizers.contains_finalizer openshift.finalizers finalizer
      then pure tt
      else patch_node_class_finalizers "adding finalizer" openshift
          (finalizers.add_finalizer openshift.finalizers finalizer)

  -- The branch of `Reconcile` for an object that is not being deleted.
  unfoldable pub reconcile_existing : String → OpenshiftAzureNodeClass → M World Event Requeue
  unfolding after_lookup ensure_finalizer
  reconcile_existing namespace openshift = do
    ensure_finalizer openshift
    hcp ← attempt (
        get_hosted_control_plane (call deps.list_hosted_control_planes listed_hosted_control_planes)
          namespace)
    after_lookup namespace openshift hcp

  unfoldable pub after_get : String → Result OpenshiftAzureNodeClass → M World Event Requeue
  unfolding reconcile_existing
  after_get namespace (err e) = if is_not_found e then pure finished else fail e
  after_get namespace (ok openshift) =
      if is_some openshift.deletion_timestamp
      then (do reconcile_delete openshift; pure finished)
      else reconcile_existing namespace openshift

  -- `Reconcile`, in the namespace of the control plane, of the object with the given name.
  unfoldable pub reconcile : String → String → M World Event Requeue
  unfolding after_get
  reconcile namespace name = do
    got ← attempt (call (deps.get name) got_node_class)
    after_get namespace got

-- `hcpPredicate`, with `equality.Semantic.DeepEqual` for the version status.
unfoldable pub hcp_predicate :
    (ControlPlaneVersion → ControlPlaneVersion → Bool) → WatchEvent HostedControlPlane → Bool
hcp_predicate same_version (created _) = true
hcp_predicate same_version (updated old new) =
    not (same_version old.control_plane_version new.control_plane_version)
hcp_predicate same_version (deleted _) = false
hcp_predicate same_version (generic _) = false

-- `mapToNodeClasses`: the names to enqueue, none if the list fails.
unfoldable pub map_to_node_classes : Result (List OpenshiftAzureNodeClass) → List String
map_to_node_classes (err _) = []
map_to_node_classes (ok node_classes) = map (λ node_class. node_class.name) node_classes
