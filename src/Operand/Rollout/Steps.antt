-- ===== src/Operand/Rollout/Steps.antt =====
-- pkg/controllers/karpenter/apply.go: each apply function rolls out the objects it is given.
use openshift_karpenter_oper.Base.{String, ◌≡◌, none, some, List, [], ◌∷◌, map, ok, err, Err, wrap}
use openshift_karpenter_oper.CloudProvider.{Role, RoleBinding}
use openshift_karpenter_oper.Operand.{
  OwnerRef, Object, service_account, role, role_binding, cluster_role, cluster_role_binding,
  deployment, pod_monitor, Deployment, OperandConfig, karpenter_name,
}
use openshift_karpenter_oper.Operand.Convert.{subjects}
use openshift_karpenter_oper.Operand.Pod.{build_deployment, build_pod_monitor}
use openshift_karpenter_oper.Operand.Apply.{
  Deps, apply_object, apply_service_account, apply_roles, apply_role_bindings, apply_cluster_roles,
  apply_cluster_role_bindings, apply_deployment, apply_pod_monitor,
}
use openshift_karpenter_oper.Operand.Rollout.{
  Does, Does-pure, Does-fail, Does-apply, Does-then, Does-stop,
}

abbrev pub cluster_role_object : OwnerRef → Role → Object
cluster_role_object owner r = cluster_role r.name owner r.labels r.rules

-- The objects of the RBAC assets, with their namespace and owner. Those of the cluster have none.
module _ (namespace : String) (owner : OwnerRef) where
  abbrev pub role_object : Role → Object
  role_object r = role r.name namespace owner r.rules

  abbrev pub role_binding_object : RoleBinding → Object
  role_binding_object b =
      role_binding b.name namespace owner b.role_ref (subjects b.subjects namespace)

  abbrev pub cluster_role_binding_object : RoleBinding → Object
  cluster_role_binding_object b =
      cluster_role_binding b.name owner b.role_ref (subjects b.subjects namespace)

module _ {Owner : Type 0} (deps : Deps Owner) where
  open deps use {codecs}

  pub apply_service_account-Does :
      (namespace : String) (owner : OwnerRef)
      → Does deps
          (apply_service_account deps namespace owner)
          (service_account karpenter_name namespace owner ∷ [])
          (some tt)
  unfolding apply_service_account
  apply_service_account-Does namespace owner = Does-apply deps _

  pub apply_pod_monitor-Does :
      (cfg : OperandConfig) (owner : OwnerRef)
      → Does deps
          (apply_pod_monitor deps cfg owner)
          (pod_monitor (build_pod_monitor cfg owner) ∷ [])
          (some tt)
  unfolding apply_pod_monitor
  apply_pod_monitor-Does cfg owner = Does-apply deps _

  pub apply_deployment-ok :
      (cfg : OperandConfig) (owner : OwnerRef) {dep : Deployment}
      → build_deployment codecs cfg owner ≡ ok dep
      → Does deps (apply_deployment deps cfg owner) (deployment dep ∷ []) (some tt)
  unfolding apply_deployment
  apply_deployment-ok cfg owner {dep} e = rw e (
      Does-then deps (λ d. apply_object deps (deployment d)) (Does-pure deps dep)
        (Does-apply deps (deployment dep)))

  pub apply_deployment-err :
      (cfg : OperandConfig) (owner : OwnerRef) {x : Err}
      → build_deployment codecs cfg owner ≡ err x
      → Does deps (apply_deployment deps cfg owner) [] none
  unfolding apply_deployment
  apply_deployment-err cfg owner {x} e = rw e (
      Does-stop deps (λ d. apply_object deps (deployment d))
        (Does-fail deps (wrap "building deployment" x)))

  module _ (namespace : String) (owner : OwnerRef) where
    pub apply_roles-Does :
        (roles : List Role)
        → Does deps
            (apply_roles deps namespace owner roles)
            (map (role_object namespace owner) roles)
            (some tt)
    unfolding apply_roles
    apply_roles-Does [] = Does-pure deps tt
    apply_roles-Does (r ∷ roles) =
        Does-then deps _ (Does-apply deps (role_object namespace owner r)) (apply_roles-Does roles)

    pub apply_role_bindings-Does :
        (bindings : List RoleBinding)
        → Does deps
            (apply_role_bindings deps namespace owner bindings)
            (map (role_binding_object namespace owner) bindings)
            (some tt)
    unfolding apply_role_bindings
    apply_role_bindings-Does [] = Does-pure deps tt
    apply_role_bindings-Does (b ∷ bindings) =
        Does-then deps _ (Does-apply deps (role_binding_object namespace owner b))
          (apply_role_bindings-Does bindings)

    pub apply_cluster_roles-Does :
        (roles : List Role)
        → Does deps
            (apply_cluster_roles deps owner roles)
            (map (cluster_role_object owner) roles)
            (some tt)
    unfolding apply_cluster_roles
    apply_cluster_roles-Does [] = Does-pure deps tt
    apply_cluster_roles-Does (r ∷ roles) =
        Does-then deps _ (Does-apply deps (cluster_role_object owner r))
          (apply_cluster_roles-Does roles)

    pub apply_cluster_role_bindings-Does :
        (bindings : List RoleBinding)
        → Does deps
            (apply_cluster_role_bindings deps namespace owner bindings)
            (map (cluster_role_binding_object namespace owner) bindings)
            (some tt)
    unfolding apply_cluster_role_bindings
    apply_cluster_role_bindings-Does [] = Does-pure deps tt
    apply_cluster_role_bindings-Does (b ∷ bindings) =
        Does-then deps _ (Does-apply deps (cluster_role_binding_object namespace owner b))
          (apply_cluster_role_bindings-Does bindings)
