-- ===== src/Operand/Ocp/Owned.antt =====
-- pkg/controllers/karpenter/ocp_controller.go: whose the applied objects are.
use mathlib.Core.Path.{subst}
use openshift_karpenter_oper.Base.{
  ◌≡◌, refl, ◌≢◌, sym, String, true, none, some, Memᴰ, List, [], ◌∷◌, map, Result, ok, err, arith,
  string_eq, All, All-append, Bool-cases, inl, inr, ◌⊎◌, ◌==◌, ◌!=◌,
}
use openshift_karpenter_oper.CloudProvider.{PolicyRule, Role, RoleBinding, RoleRef, Subject}
use openshift_karpenter_oper.Operand.{
  OwnerRef, Object, service_account, role, role_binding, cluster_role, cluster_role_binding,
  deployment, pod_monitor, Deployment, SubjectApply,
}
use openshift_karpenter_oper.Operand.Convert.{Codecs, subject, subjects}
use openshift_karpenter_oper.Operand.Pod.{deployment_of, build_pod_monitor}
use openshift_karpenter_oper.Operand.Pod.Parts.{build_deployment-eq-ok}
use openshift_karpenter_oper.Operand.Apply.{Deps}
use openshift_karpenter_oper.Operand.Rollout.{planned-All, Fits}
use openshift_karpenter_oper.Operand.Rollout.Steps.{
  role_object, role_binding_object, cluster_role_object, cluster_role_binding_object,
}
use openshift_karpenter_oper.Operand.Ocp.{
  Karpenter, OcpControllerConfig, ocp_owner_ref, operand_config, operand_image, reconcile,
}
use openshift_karpenter_oper.Operand.Ocp.Planned.{
  of_both, workload, operand_objects, built, plan, reconcile-standalone,
}

All-map :
    {A B : Type 0} (P : B → Type 0) (f : A → B) (xs : List A)
    → ((x : A) → Memᴰ x xs → P (f x))
    → All P (map f xs)
All-map P f [] h = tt
All-map P f (x ∷ xs) h = (h x (Memᴰ.head refl), All-map P f xs (λ y m. h y (Memᴰ.tail m)))

-- A subject as it is applied: a ServiceAccount has a namespace, its own or else the given one, and
-- another kind has none.
pub record Placed (ns : String) (s : Subject) (t : SubjectApply) : Type 0 where
  pub kind : t.kind ≡ s.kind
  pub name : t.name ≡ s.name
  pub api_group : t.api_group ≡ s.api_group
  pub namespace :
      ((s.kind ≢ "ServiceAccount") × (t.namespace ≡ none))
      ⊎ ((s.kind ≡ "ServiceAccount") × (s.namespace ≢ "") × (t.namespace ≡ some s.namespace))
      ⊎ ((s.kind ≡ "ServiceAccount") × (s.namespace ≡ "") × (t.namespace ≡ some ns))

abbrev pub AllPlaced : String → List Subject → List SubjectApply → Type 0
AllPlaced ns [] [] = Unit
AllPlaced ns (s ∷ ss) (t ∷ ts) = Placed ns s t × AllPlaced ns ss ts
AllPlaced ns _ _ = ⊥

-- The reference that lets the garbage collector delete an object with the Karpenter.
abbrev pub reference_to : Karpenter → OwnerRef
reference_to karp = record {
  api_version = "autoscaling.openshift.io/v1alpha1";
  kind = "Karpenter";
  name = karp.name;
  uid = karp.uid;
  block_owner_deletion = true;
  controller = true;
}

subject-Placed : (ns : String) (s : Subject) → Placed ns s (subject ns s)
unfolding subject
subject-Placed ns s = record {
  kind = refl;
  name = refl;
  api_group = refl;
  namespace = elim (Bool-cases (s.kind == "ServiceAccount")) [
    | inr other ↦ inl (ground arith, ground arith)
    | inl account ↦ elim (Bool-cases (s.namespace != "")) [
      | inl own ↦ inr (inl (ground arith, ground arith, ground arith))
      | inr none_given ↦ inr (inr (ground arith, ground arith, ground arith))
    ]
  ];
}

subjects-AllPlaced : (ns : String) (subs : List Subject) → AllPlaced ns subs (subjects subs ns)
unfolding subjects
subjects-AllPlaced ns [] = tt
subjects-AllPlaced ns (s ∷ subs) = (subject-Placed ns s, subjects-AllPlaced ns subs)

module _ (config : OcpControllerConfig) where
  -- The binding of a name is one of the given ones, with its role and its subjects.
  abbrev pub Bound : List RoleBinding → String → RoleRef → List SubjectApply → Type 0
  Bound bindings name role_ref subs =
      (b : RoleBinding) × Memᴰ b bindings
      × (name ≡ b.name)
      × (role_ref ≡ b.role_ref)
      × AllPlaced config.namespace b.subjects subs

  -- The role of a name is one of the given ones, with its rules.
  abbrev pub Granted : List Role → String → List PolicyRule → Type 0
  Granted roles name rules = (r : Role) × Memᴰ r roles × (name ≡ r.name) × (rules ≡ r.rules)

  -- An object of the operator's namespace that refers to the Karpenter, or one of the cluster that does.
  abbrev pub Owned : Karpenter → Object → Type 0
  Owned karp (service_account _ namespace owner) =
      (namespace ≡ config.namespace) × (owner ≡ reference_to karp)
  Owned karp (role name namespace owner rules) =
      (namespace ≡ config.namespace)
      × (owner ≡ reference_to karp)
      × Granted (of_both config (λ a. a.roles)) name rules
  Owned karp (role_binding name namespace owner role_ref subs) =
      (namespace ≡ config.namespace)
      × (owner ≡ reference_to karp)
      × Bound (of_both config (λ a. a.role_bindings)) name role_ref subs
  Owned karp (cluster_role name owner _ rules) =
      (owner ≡ reference_to karp) × Granted (of_both config (λ a. a.cluster_roles)) name rules
  Owned karp (cluster_role_binding name owner role_ref subs) =
      (owner ≡ reference_to karp)
      × Bound (of_both config (λ a. a.cluster_role_bindings)) name role_ref subs
  Owned karp (deployment d) = (d.namespace ≡ config.namespace) × (d.owner ≡ reference_to karp)
  Owned karp (pod_monitor m) = (m.namespace ≡ config.namespace) × (m.owner ≡ reference_to karp)

  -- Who owns what is applied, by what was read.
  abbrev pub OwnedBy : Result Karpenter → Object → Type 0
  OwnedBy (err _) o = ⊥
  OwnedBy (ok karp) o = Owned karp o

  workload-Owned :
      (codecs : Codecs) (karp : Karpenter) (dep : Result Deployment)
      → built config codecs karp ≡ dep
      → All (Owned karp) (workload config karp dep)
  unfolding workload built deployment_of operand_config build_pod_monitor ocp_owner_ref
  workload-Owned codecs karp (err _) e = tt
  workload-Owned codecs karp (ok dep) e =
      let (spec, pods, same) = build_deployment-eq-ok codecs _ _ e in
      (
        subst (λ (d : Deployment). (d.namespace ≡ config.namespace) × (d.owner ≡ reference_to karp))
            same (refl, refl),
        ((refl, refl), tt),
      )

  operand_objects-Owned :
      (codecs : Codecs) (karp : Karpenter)
      → All (Owned karp) (operand_objects config karp (built config codecs karp))
  unfolding operand_objects ocp_owner_ref
  operand_objects-Owned codecs karp =
      let ns = config.namespace in
      let owner = reference_to karp in
      let P = Owned karp in
      let placed = λ (b : RoleBinding). subjects-AllPlaced ns b.subjects in
      (
        (refl, refl),
        All-append P (map (cluster_role_object owner) _) _
            (All-map P (cluster_role_object owner) _ (λ r m. (refl, (r, m, refl, refl))))
            (All-append P (map (cluster_role_binding_object ns owner) _) _
              (All-map P (cluster_role_binding_object ns owner) _
                (λ b m. (refl, (b, m, refl, refl, placed b))))
              (All-append P (map (role_object ns owner) _) _
                (All-map P (role_object ns owner) _ (λ r m. (refl, refl, (r, m, refl, refl))))
                (All-append P (map (role_binding_object ns owner) _) _
                  (All-map P (role_binding_object ns owner) _
                    (λ b m. (refl, refl, (b, m, refl, refl, placed b))))
                  (workload-Owned codecs karp (built config codecs karp) refl)))),
      )

  plan-Owned :
      (codecs : Codecs) (owner : Result Karpenter)
      → All (OwnedBy owner) (plan config codecs owner).objects
  unfolding plan
  plan-Owned codecs (err e) = tt
  plan-Owned codecs (ok karp) = elim (Bool-cases (operand_image config karp == "")) [
    | inl missing ↦ rw missing tt
    | inr image ↦ rw image (operand_objects-Owned codecs karp)
  ]

  -- Every call of a reconcile is the read of the Karpenter, or applies an object whose owner reference
  -- names the Karpenter that was read, by its API version, kind, name and uid, as its blocking controller.
  -- What has a namespace is in the operator's. A role or binding is one of the operand or of its cloud, with
  -- its rules, or its role and its subjects; of these a ServiceAccount has its own namespace, or that of the
  -- operator where it gives none, and another kind has none.
  pub reconcile-Owned :
      (deps : Deps Karpenter) (w : deps.World)
      → All (Fits deps (OwnedBy (deps.get w).0) (deps.get w).0) (reconcile config deps w).2
  reconcile-Owned deps w =
      subst (All (Fits deps (OwnedBy (deps.get w).0) (deps.get w).0))
        (sym (reconcile-standalone config deps w).calls)
        (planned-All deps (OwnedBy (deps.get w).0) (plan config deps.codecs) w
          (plan-Owned deps.codecs (deps.get w).0))
