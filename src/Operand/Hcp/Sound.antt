-- ===== src/Operand/Hcp/Sound.antt =====
-- pkg/controllers/karpenter/hcp_controller.go: what the controller applies.
use openshift_karpenter_oper.Base.{
  ◌≡◌, refl, ◌≢◌, ap, sym, true, Option, none, some, [], ◌∷◌, Result, ok, err, ok-injective, arith,
  string_eq, All, Bool-cases, inl, inr, ◌==◌, ◌!=◌, ◌⊎◌,
}
use mathlib.Core.Path.{subst}
use openshift_karpenter_oper.Kube.{HostedControlPlane}
use openshift_karpenter_oper.Options.{ℤ}
use openshift_karpenter_oper.DefaultNodeClass.{provisioner_karpenter}
use openshift_karpenter_oper.Operand.{
  Object, service_account, role, role_binding, cluster_role, cluster_role_binding, deployment,
  pod_monitor, Deployment, Container, PodSecurityContext,
}
use openshift_karpenter_oper.Operand.Convert.{Codecs}
use openshift_karpenter_oper.Operand.Pod.{
  is_positive, pod_security_context, container, deployment_of, build_pod_monitor,
}
use openshift_karpenter_oper.Operand.Pod.Parts.{build_pod_spec-Parts, build_deployment-eq-ok}
use openshift_karpenter_oper.Operand.Apply.{Deps}
use openshift_karpenter_oper.Operand.Rollout.{planned-All, Fits}
use openshift_karpenter_oper.Operand.Hcp.{
  HcpControllerConfig, hcp_owner_ref, operand_config, operand_image, reconcile,
}
use openshift_karpenter_oper.Operand.Hcp.Planned.{plan, operand_plan, built, reconcile-hosted}

-- The pods run as no root user: the user is not set, or is a positive number and also the group.
abbrev pub NonRoot : PodSecurityContext → Type 0
NonRoot c =
    (c.run_as_non_root ≡ true)
    × (((c.run_as_user ≡ none) × (c.fs_group ≡ none))
        ⊎ ((uid : ℤ) × (is_positive uid ≡ true)
            × (c.run_as_user ≡ some uid)
            × (c.fs_group ≡ some uid)))

pod_security_context-NonRoot :
    (uid : Option ℤ) {c : PodSecurityContext} → pod_security_context uid ≡ ok c → NonRoot c
unfolding pod_security_context
pod_security_context-NonRoot none h = subst NonRoot (ok-injective _ _ h) (refl, inl (refl, refl))
pod_security_context-NonRoot (some uid) {c} h = elim (Bool-cases (is_positive uid)) [
  | inl positive ↦
      subst NonRoot (ok-injective _ _ (rw positive at h)) (refl, inr (uid, positive, refl, refl))
  | inr other ↦ absurd (ground arith)
]

module _ (config : HcpControllerConfig) (hcp : HostedControlPlane) where
  -- What a Deployment for the HostedControlPlane is like.
  pub record SoundDeployment (d : Deployment) : Type 0 where
    pub namespace : d.namespace ≡ config.namespace
    pub owner : d.owner ≡ hcp_owner_ref hcp
    pub image : d.pod_spec.container.image ≡ operand_image config hcp
    pub version :
        d.annotations
        ≡ ("release.openshift.io/version", hcp.control_plane_version.desired_version) ∷ []
    pub non_root : NonRoot d.pod_spec.security_context

  -- An object that may be applied for the HostedControlPlane.
  abbrev pub SoundObject : Object → Type 0
  SoundObject (service_account name namespace owner) =
      (namespace ≡ config.namespace) × (owner ≡ hcp_owner_ref hcp)
  SoundObject (role _ _ _ _) = ⊥
  SoundObject (role_binding _ _ _ _ _) = ⊥
  SoundObject (cluster_role _ _ _ _) = ⊥
  SoundObject (cluster_role_binding _ _ _ _) = ⊥
  SoundObject (deployment d) = SoundDeployment d
  SoundObject (pod_monitor m) = (m.namespace ≡ config.namespace) × (m.owner ≡ hcp_owner_ref hcp)

  -- When anything may be applied for it.
  pub record Due : Type 0 where
    pub provisioner : hcp.provisioner_name ≡ provisioner_karpenter
    pub versioned : hcp.control_plane_version.desired_version ≢ ""
    pub with_image : operand_image config hcp ≢ ""

  built-SoundDeployment :
      (codecs : Codecs) {dep : Deployment}
      → hcp.control_plane_version.desired_version ≢ ""
      → built config codecs hcp ≡ ok dep
      → SoundDeployment dep
  unfolding built deployment_of operand_config container
  built-SoundDeployment codecs versioned h =
      let cfg = operand_config config hcp (operand_image config hcp) in
      let (spec, pods, same) = build_deployment-eq-ok codecs cfg (hcp_owner_ref hcp) h in
      let parts = build_pod_spec-Parts codecs cfg pods in
      subst SoundDeployment same (record {
        namespace = refl;
        owner = refl;
        image = ap (λ (c : Container). c.image) parts.container_eq;
        version = ground arith;
        non_root = pod_security_context-NonRoot _ parts.security_ok;
      })

-- A call that a reconcile may make, by what it has read.
abbrev pub Sound : HcpControllerConfig → Result HostedControlPlane → Object → Type 0
Sound config (err _) o = ⊥
Sound config (ok hcp) o = Due config hcp × SoundObject config hcp o

operand_plan-Sound :
    (config : HcpControllerConfig) (codecs : Codecs) (hcp : HostedControlPlane)
    (dep : Result Deployment)
    → Due config hcp
    → built config codecs hcp ≡ dep
    → All (Sound config (ok hcp)) (operand_plan config codecs hcp dep).objects
unfolding operand_plan build_pod_monitor operand_config
operand_plan-Sound config codecs hcp (err _) due e = ((due, (refl, refl)), tt)
operand_plan-Sound config codecs hcp (ok dep) due e = (
  (due, (refl, refl)),
  ((due, built-SoundDeployment config hcp codecs due.versioned e), ((due, (refl, refl)), tt)),
)

plan-Sound :
    (config : HcpControllerConfig) (codecs : Codecs) (owner : Result HostedControlPlane)
    → All (Sound config owner) (plan config codecs owner).objects
unfolding plan
plan-Sound config codecs (err e) = tt
plan-Sound config codecs (ok hcp) =
    elim (Bool-cases (hcp.provisioner_name != provisioner_karpenter)) [
      | inl other ↦ rw other tt
      | inr karpenter ↦ elim (Bool-cases (hcp.control_plane_version.desired_version == "")) [
        | inl early ↦ rw (karpenter, early) tt
        | inr versioned ↦ elim (Bool-cases (operand_image config hcp == "")) [
          | inl missing ↦ rw (karpenter, versioned, missing) tt
          | inr image ↦
              rw (karpenter, versioned, image)
                (operand_plan-Sound config codecs hcp (built config codecs hcp)
                  (record {
                    provisioner = ground arith;
                    versioned = λ e. ground arith;
                    with_image = λ e. ground arith;
                  })
                  refl)
        ]
      ]
    ]

-- Every call of a reconcile is the read of the HostedControlPlane, or it applies the ServiceAccount, the
-- Deployment or the PodMonitor of one that was read, that uses Karpenter, and that has a version and an
-- image. These objects stand in the operator's namespace and belong to that HostedControlPlane; the
-- Deployment runs its image, is annotated with its version, and runs as no root user: the user and the
-- group of its pods are one positive number, or are left open.
pub reconcile-Sound :
    (config : HcpControllerConfig) (deps : Deps HostedControlPlane) (w : deps.World)
    → All (Fits deps (Sound config (deps.get w).0) (deps.get w).0) (reconcile config deps w).2
reconcile-Sound config deps w =
    subst (All (Fits deps (Sound config (deps.get w).0) (deps.get w).0))
      (sym (reconcile-hosted config deps w).calls)
      (planned-All deps (Sound config (deps.get w).0) (plan config deps.codecs) w
        (plan-Sound config deps.codecs (deps.get w).0))
