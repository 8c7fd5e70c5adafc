-- ===== src/Operand/Hcp/Planned.antt =====
-- pkg/controllers/karpenter/hcp_controller.go: its reconcile is a rollout of the operand.
use openshift_karpenter_oper.Base.{
  ◌≡◌, refl, none, some, [], ◌∷◌, Result, ok, err, message, is_not_found, if◌then◌else◌, ◌==◌, ◌!=◌,
  string_eq, Bool-cases, inl, inr,
}
use openshift_karpenter_oper.Kube.{HostedControlPlane, finished, requeue_after}
use openshift_karpenter_oper.DefaultNodeClass.{provisioner_karpenter}
use openshift_karpenter_oper.Operand.{
  service_account, deployment, pod_monitor, Deployment, karpenter_name,
}
use openshift_karpenter_oper.Operand.Convert.{Codecs}
use openshift_karpenter_oper.Operand.Pod.{build_deployment, build_pod_monitor}
use openshift_karpenter_oper.Operand.Apply.{
  Deps, apply_service_account, apply_deployment, apply_pod_monitor,
}
use openshift_karpenter_oper.Operand.Rollout.{
  Plan, Agree, Follows, Agree-planned, planned, Does-pure, Does-fail, Does-context, Does-then,
  Does-stop,
}
use openshift_karpenter_oper.Operand.Rollout.Steps.{
  apply_service_account-Does, apply_deployment-ok, apply_deployment-err, apply_pod_monitor-Does,
}
use openshift_karpenter_oper.Operand.Hcp.{
  HcpControllerConfig, hcp_owner_ref, operand_config, operand_image, deploy, reconcile_hcp,
  after_get, reconcile,
}

module _ (config : HcpControllerConfig) where
  module _ (codecs : Codecs) (hcp : HostedControlPlane) where
    -- The operand of a hosted cluster, once its Deployment is built, or the account alone.
    unfoldable pub operand_plan : Result Deployment → Plan
    operand_plan (err _) = record {
      objects = service_account karpenter_name config.namespace (hcp_owner_ref hcp) ∷ [];
      result = none;
    }
    operand_plan (ok dep) = record {
      objects =
          service_account karpenter_name config.namespace (hcp_owner_ref hcp)
          ∷ deployment dep
          ∷ pod_monitor (
              build_pod_monitor (operand_config config hcp (operand_image config hcp))
                (hcp_owner_ref hcp))
          ∷ [];
      result = some finished;
    }

    unfoldable pub built : Result Deployment
    built =
        build_deployment codecs (operand_config config hcp (operand_image config hcp))
          (hcp_owner_ref hcp)

  -- What is due for the answer to the read of the HostedControlPlane.
  unfoldable pub plan : Codecs → Result HostedControlPlane → Plan
  unfolding operand_plan built
  plan codecs (err e) = record {
    objects = [];
    result = if is_not_found e then some finished else none;
  }
  plan codecs (ok hcp) =
      if hcp.provisioner_name != provisioner_karpenter
      then record { objects = []; result = some finished }
      else if hcp.control_plane_version.desired_version == ""
      then record { objects = []; result = some (requeue_after 5) }
      else if operand_image config hcp == ""
      then record { objects = []; result = none }
      else operand_plan codecs hcp (built codecs hcp)

  module _ (deps : Deps HostedControlPlane) where
    open deps use {codecs}

    deploy-operand_plan :
        (hcp : HostedControlPlane) (dep : Result Deployment)
        → built codecs hcp ≡ dep
        → Follows deps (deploy config deps hcp) (operand_plan codecs hcp dep)
    unfolding deploy apply_service_account apply_deployment apply_pod_monitor operand_plan built
    deploy-operand_plan hcp (ok dep) e =
        Does-then deps _ (Does-context deps _ (apply_service_account-Does deps _ _)) (
          Does-then deps _ (Does-context deps _ (apply_deployment-ok deps _ _ e)) (
            Does-then deps _ (Does-context deps _ (apply_pod_monitor-Does deps _ _))
              (Does-pure deps finished)))
    deploy-operand_plan hcp (err x) e =
        Does-then deps _ (Does-context deps _ (apply_service_account-Does deps _ _))
          (Does-stop deps _ (Does-context deps _ (apply_deployment-err deps _ _ e)))

    after_get-plan :
        (owner : Result HostedControlPlane)
        → Follows deps (after_get config deps owner) (plan codecs owner)
    unfolding after_get reconcile_hcp plan
    after_get-plan (err e) = elim (Bool-cases (is_not_found e)) [
      | inl gone ↦ rw gone (Does-pure deps finished)
      | inr failed ↦ rw failed (Does-fail deps e)
    ]
    after_get-plan (ok hcp) = elim (Bool-cases (hcp.provisioner_name != provisioner_karpenter)) [
      | inl other ↦ rw other (Does-pure deps finished)
      | inr karpenter ↦ elim (Bool-cases (hcp.control_plane_version.desired_version == "")) [
        | inl early ↦ rw (karpenter, early) (Does-pure deps (requeue_after 5))
        | inr versioned ↦ elim (Bool-cases (operand_image config hcp == "")) [
          | inl missing ↦
              rw (karpenter, versioned, missing)
                (Does-fail deps (message "karpenter image is not set"))
          | inr image ↦
              rw (karpenter, versioned, image) (deploy-operand_plan hcp (built codecs hcp) refl)
        ]
      ]
    ]

    -- The reconcile of a HostedControlPlane is the abstract controller that reads it and then rolls out what
    -- is due: it makes the same calls with the same answers, in the same order, leaves the same world and
    -- returns the same, up to the text of an error. Nothing is due, and nothing is applied, if the object is
    -- gone or cannot be read, has another provisioner, has no version yet (it is tried again in five
    -- seconds) or there is no image (an error). Otherwise the account, the Deployment and the PodMonitor are
    -- due, or the account and an error if the Deployment cannot be built; a refusal by the server ends it.
    pub reconcile-hosted :
        (w : deps.World) → Agree deps (reconcile config deps w) (planned deps (plan codecs) w)
    unfolding reconcile
    reconcile-hosted w = Agree-planned deps (plan codecs) (after_get config deps) w after_get-plan
