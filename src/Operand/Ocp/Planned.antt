-- ===== src/Operand/Ocp/Planned.antt =====
-- pkg/controllers/karpenter/ocp_controller.go: its reconcile is a rollout of the operand.
use openshift_karpenter_oper.Base.{
  ◌≡◌, refl, Option, none, some, List, [], ◌∷◌, ◌++◌, map, Result, ok, err, message, pure, context,
  ◌>>◌, is_not_found, if◌then◌else◌, ◌==◌, string_eq, Bool-cases, inl, inr,
}
use openshift_karpenter_oper.Kube.{finished, Requeue}
use openshift_karpenter_oper.CloudProvider.{RbacAssets}
use openshift_karpenter_oper.Operand.{
  Object, service_account, deployment, pod_monitor, Deployment, karpenter_name,
}
use openshift_karpenter_oper.Operand.Convert.{Codecs}
use openshift_karpenter_oper.Operand.Pod.{build_deployment, build_pod_monitor}
use openshift_karpenter_oper.Operand.Apply.{Deps, apply_deployment, apply_pod_monitor}
use openshift_karpenter_oper.Operand.Rollout.{
  Plan, Agree, Follows, Agree-planned, planned, Does-pure, Does-fail, Does-context, Does-then,
  Does-stop,
}
use openshift_karpenter_oper.Operand.Rollout.Steps.{
  apply_service_account-Does, apply_deployment-ok, apply_deployment-err, apply_pod_monitor-Does,
  apply_roles-Does, apply_role_bindings-Does, apply_cluster_roles-Does,
  apply_cluster_role_bindings-Does, role_object, role_binding_object, cluster_role_object,
  cluster_role_binding_object,
}
use openshift_karpenter_oper.Operand.Ocp.{
  Karpenter, OcpControllerConfig, ocp_owner_ref, operand_config, operand_image, all_roles,
  all_role_bindings, all_cluster_roles, all_cluster_role_bindings, deploy, after_get, reconcile,
}

module _ (config : OcpControllerConfig) where
  -- What stands behind the RBAC objects: the Deployment, if it is built, and its monitor.
  unfoldable pub workload : Karpenter → Result Deployment → List Object
  workload karp (err _) = []
  workload karp (ok dep) =
      deployment dep
      ∷ pod_monitor (
          build_pod_monitor (operand_config config karp (operand_image config karp))
            (ocp_owner_ref karp))
      ∷ []

  -- What the operand brings and what its cloud brings, of one kind.
  abbrev pub of_both : {A : Type 0} → (RbacAssets → List A) → List A
  of_both kind = kind config.core_rbac ++ kind config.cloud_provider.rbac

  -- The operand of a standalone cluster, in the order in which it is applied.
  unfoldable pub operand_objects : Karpenter → Result Deployment → List Object
  unfolding workload
  operand_objects karp dep =
      let owner = ocp_owner_ref karp in
      let ns = config.namespace in
      service_account karpenter_name ns owner
      ∷ (map (cluster_role_object owner) (of_both (λ a. a.cluster_roles))
          ++ (map (cluster_role_binding_object ns owner) (of_both (λ a. a.cluster_role_bindings))
              ++ (map (role_object ns owner) (of_both (λ a. a.roles))
                  ++ (map (role_binding_object ns owner) (of_both (λ a. a.role_bindings))
                      ++ workload karp dep))))

  unfoldable pub built : Codecs → Karpenter → Result Deployment
  built codecs karp =
      build_deployment codecs (operand_config config karp (operand_image config karp))
        (ocp_owner_ref karp)

  abbrev completes : Result Deployment → Option Requeue
  completes (ok _) = some finished
  completes (err _) = none

  -- What is due for the answer to the read of the Karpenter.
  unfoldable pub plan : Codecs → Result Karpenter → Plan
  unfolding operand_objects built
  plan codecs (err e) = record {
    objects = [];
    result = if is_not_found e then some finished else none;
  }
  plan codecs (ok karp) =
      if operand_image config karp == "" then record { objects = []; result = none } else record {
        objects = operand_objects karp (built codecs karp);
        result = completes (built codecs karp);
      }

  module _ (deps : Deps Karpenter) where
    open deps use {codecs}

    -- What is left once the RBAC objects are applied.
    workload-Does :
        (karp : Karpenter) (dep : Result Deployment)
        → built codecs karp ≡ dep
        → Follows deps
            (do
              context "reconciling Deployment" (
                  apply_deployment deps
                    (operand_config config karp (operand_image config karp))
                    (ocp_owner_ref karp))
              context "reconciling PodMonitor" (
                  apply_pod_monitor deps
                    (operand_config config karp (operand_image config karp))
                    (ocp_owner_ref karp))
              pure finished)
            (record { objects = workload karp dep; result = completes dep })
    unfolding workload built
    workload-Does karp (ok dep) e =
        Does-then deps _ (Does-context deps _ (apply_deployment-ok deps _ _ e)) (
          Does-then deps _ (Does-context deps _ (apply_pod_monitor-Does deps _ _))
            (Does-pure deps finished))
    workload-Does karp (err x) e =
        Does-stop deps _ (Does-context deps _ (apply_deployment-err deps _ _ e))

    deploy-Does :
        (karp : Karpenter)
        → Follows deps (deploy config deps karp) (record {
          objects = operand_objects karp (built codecs karp);
          result = completes (built codecs karp);
        })
    unfolding deploy operand_objects all_roles all_role_bindings all_cluster_roles
        all_cluster_role_bindings
    deploy-Does karp =
        Does-then deps _ (Does-context deps _ (apply_service_account-Does deps _ _)) (
          Does-then deps _
            (Does-context deps _ (apply_cluster_roles-Does deps config.namespace _ _))
            (Does-then deps _ (Does-context deps _ (apply_cluster_role_bindings-Does deps _ _ _)) (
              Does-then deps _ (Does-context deps _ (apply_roles-Does deps _ _ _)) (
                Does-then deps _ (Does-context deps _ (apply_role_bindings-Does deps _ _ _))
                  (workload-Does karp (built codecs karp) refl)))))

    after_get-plan :
        (owner : Result Karpenter) → Follows deps (after_get config deps owner) (plan codecs owner)
    unfolding after_get plan
    after_get-plan (err e) = elim (Bool-cases (is_not_found e)) [
      | inl gone ↦ rw gone (Does-pure deps finished)
      | inr failed ↦ rw failed (Does-fail deps e)
    ]
    after_get-plan (ok karp) = elim (Bool-cases (operand_image config karp == "")) [
      | inl missing ↦ rw missing (Does-fail deps (message "karpenter image is not set"))
      | inr image ↦ rw image (deploy-Does karp)
    ]

    -- The reconcile of the Karpenter is the abstract controller that reads it and then rolls out what is
    -- due: it makes the same calls with the same answers, in the same order, leaves the same world and
    -- returns the same, up to the text of an error. Nothing is due, and nothing is applied, if the object is
    -- gone or cannot be read, or there is no image (an error). Otherwise the account, the ClusterRoles and
    -- their bindings, the Roles and theirs, those of the operand before those of the cloud, and then the
    -- Deployment and the PodMonitor are due, or an error in place of the last two if the Deployment cannot
    -- be built; a refusal by the server ends it, so that a Deployment is sent with its roles in place.
    pub reconcile-standalone :
        (w : deps.World) → Agree deps (reconcile config deps w) (planned deps (plan codecs) w)
    unfolding reconcile
    reconcile-standalone w =
        Agree-planned deps (plan codecs) (after_get config deps) w after_get-plan
