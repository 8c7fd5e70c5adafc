-- ===== src/Operand/Apply.antt =====
-- pkg/controllers/karpenter/apply.go: the objects of the operand are applied one by one.
use openshift_karpenter_oper.Base.{
  String, List, [], ◌∷◌, M, Result, pure, lift, call, context, ◌>>=◌, ◌>>◌,
}
use openshift_karpenter_oper.CloudProvider.{Role, RoleBinding}
use openshift_karpenter_oper.Operand.{
  OwnerRef, Object, service_account, role, role_binding, cluster_role, cluster_role_binding,
  deployment, pod_monitor, OperandConfig, karpenter_name,
}
use openshift_karpenter_oper.Operand.Convert.{Codecs, subjects}
use openshift_karpenter_oper.Operand.Pod.{build_deployment, build_pod_monitor}

-- The calls of a reconcile, with their answers: its own object is read, and objects are applied.
pub data Event (Owner : Type 0) : Type 0 where
  got : Result Owner → Event Owner
  applied : Object → Result (Unit {0}) → Event Owner

-- The client, and encoding/json.
pub record Deps (Owner : Type 0) : Type 1 where
  pub World : Type 0
  pub get : World → Result Owner × World
  pub apply : Object → World → Result (Unit {0}) × World
  pub codecs : Codecs

module _ {Owner : Type 0} (deps : Deps Owner) where
  open deps use {World, codecs}

  unfoldable pub apply_object : Object → M World (Event Owner) (Unit {0})
  apply_object o = call (deps.apply o) (applied o)

  -- `applyServiceAccount`
  unfoldable pub apply_service_account : String → OwnerRef → M World (Event Owner) (Unit {0})
  unfolding apply_object
  apply_service_account namespace owner =
      apply_object (service_account karpenter_name namespace owner)

  -- `applyRoles`
  unfoldable pub apply_roles : String → OwnerRef → List Role → M World (Event Owner) (Unit {0})
  unfolding apply_object
  apply_roles namespace owner [] = pure tt
  apply_roles namespace owner (desired ∷ roles) = do
    apply_object (role desired.name namespace owner desired.rules)
    apply_roles namespace owner roles

  -- `applyRoleBindings`
  unfoldable pub apply_role_bindings :
      String → OwnerRef → List RoleBinding → M World (Event Owner) (Unit {0})
  unfolding apply_object
  apply_role_bindings namespace owner [] = pure tt
  apply_role_bindings namespace owner (desired ∷ bindings) = do
    apply_object (
        role_binding desired.name namespace owner desired.role_ref
          (subjects desired.subjects namespace))
    apply_role_bindings namespace owner bindings

  -- `applyClusterRoles`
  unfoldable pub apply_cluster_roles : OwnerRef → List Role → M World (Event Owner) (Unit {0})
  unfolding apply_object
  apply_cluster_roles owner [] = pure tt
  apply_cluster_roles owner (desired ∷ roles) = do
    apply_object (cluster_role desired.name owner desired.labels desired.rules)
    apply_cluster_roles owner roles

  -- `applyClusterRoleBindings`
  unfoldable pub apply_cluster_role_bindings :
      String → OwnerRef → List RoleBinding → M World (Event Owner) (Unit {0})
  unfolding apply_object
  apply_cluster_role_bindings namespace owner [] = pure tt
  apply_cluster_role_bindings namespace owner (desired ∷ bindings) = do
    apply_object (
        cluster_role_binding desired.name owner desired.role_ref
          (subjects desired.subjects namespace))
    apply_cluster_role_bindings namespace owner bindings

  -- `applyDeployment`
  unfoldable pub apply_deployment : OperandConfig → OwnerRef → M World (Event Owner) (Unit {0})
  unfolding apply_object
  apply_deployment cfg owner = do
    dep ← context "building deployment" (lift (build_deployment codecs cfg owner))
    apply_object (deployment dep)

  -- `applyPodMonitor`
  unfoldable pub apply_pod_monitor : OperandConfig → OwnerRef → M World (Event Owner) (Unit {0})
  unfolding apply_object
  apply_pod_monitor cfg owner = apply_object (pod_monitor (build_pod_monitor cfg owner))
