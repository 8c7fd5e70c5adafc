-- ===== src/Azure/Gone.antt =====
-- pkg/controllers/nodeclass/azure/controller.go: when an OpenShiftAzureNodeClass loses its finalizer.
use openshift_karpenter_oper.Base.{
  ◌&&◌, ◌++◌, ◌==◌, string_eq, String, ◌≡◌, refl, Bool, true, false, not, [], pure, Result, ok, err,
  arith, any, any-append, never_and_then, and_then, Bool-cases, inl, inr, is_not_found, call,
  is_some, Result-cases,
}
use openshift_karpenter_oper.Kube.{HostedControlPlane, Secret, finished}
use openshift_karpenter_oper.Kube.Finalizers.{IsLawful}
use openshift_karpenter_oper.Hypershift.{get_hosted_control_plane}
use openshift_karpenter_oper.Hypershift.UserData.{get_user_data_secret}
use openshift_karpenter_oper.Azure.Types.{OpenshiftAzureNodeClass, AksNodeClass}
use openshift_karpenter_oper.Azure.Controller.{
  Deps, Event, patched_finalizers, deleted_aks, listed_hosted_control_planes, listed_secrets,
  finalizer, patch_node_class_finalizers, after_delete, reconcile_delete, reconcile_status,
  reconcile_aks_node_class, after_secret, after_lookup, ensure_finalizer, reconcile_existing,
  after_get, reconcile,
}

module _ (deps : Deps) (name : String) where
  -- The API server answers that the AKSNodeClass of this name, which is to be deleted, is not found.
  abbrev pub answers_gone : Event → Bool
  answers_gone (deleted_aks n (err e)) = n == name && is_not_found e
  answers_gone _ = false

  -- A write of the finalizers of the OpenShiftAzureNodeClass of this name, without the controller's own.
  abbrev pub releases : Event → Bool
  releases (patched_finalizers n fs _) =
      n == name && not (deps.finalizers.contains_finalizer fs finalizer)
  releases _ = false

  status-keeps_all :
      (openshift : OpenshiftAzureNodeClass) (aks : AksNodeClass) (w : deps.World)
      → any releases (reconcile_status deps openshift aks w).2 ≡ false
  unfolding reconcile_status
  status-keeps_all openshift aks w = ground arith

  after_secret-keeps_all :
      (openshift : OpenshiftAzureNodeClass) (hcp : HostedControlPlane) (secret : Result Secret)
      (w : deps.World)
      → any releases (after_secret deps openshift hcp secret w).2 ≡ false
  unfolding after_secret reconcile_aks_node_class
  after_secret-keeps_all openshift hcp (err e) w = ground arith
  after_secret-keeps_all openshift hcp (ok secret) w =
      never_and_then releases (reconcile_aks_node_class deps openshift hcp secret w)
        (λ aks w'. and_then (reconcile_status deps openshift aks w') (λ _. pure finished))
        (ground arith)
        (λ aks w'.
          never_and_then releases (reconcile_status deps openshift aks w') (λ _. pure finished)
            (status-keeps_all openshift aks w') (λ _ _. refl))

  secret-keeps_all :
      (namespace n : String) (w : deps.World)
      → any releases (get_user_data_secret (call deps.list_secrets listed_secrets) namespace n w).2
        ≡ false
  unfolding get_user_data_secret
  secret-keeps_all namespace n w = ground arith

  lookup-keeps_all :
      (namespace : String) (w : deps.World)
      → any releases
          (get_hosted_control_plane
            (call deps.list_hosted_control_planes listed_hosted_control_planes)
            namespace
            w).2
        ≡ false
  unfolding get_hosted_control_plane
  lookup-keeps_all namespace w = ground arith

  after_lookup-keeps_all :
      (namespace : String) (openshift : OpenshiftAzureNodeClass) (got : Result HostedControlPlane)
      (w : deps.World)
      → any releases (after_lookup deps namespace openshift got w).2 ≡ false
  unfolding after_lookup
  after_lookup-keeps_all namespace openshift (err e) w = ground arith
  after_lookup-keeps_all namespace openshift (ok hcp) w =
      let secret =
        get_user_data_secret (call deps.list_secrets listed_secrets) namespace openshift.name w in
      ground (
        arith,
        secret-keeps_all namespace openshift.name w,
        after_secret-keeps_all openshift hcp secret.0 secret.1,
        any-append releases secret.2 (after_secret deps openshift hcp secret.0 secret.1).2,
      )

  ensure_finalizer-keeps_all :
      (laws : IsLawful deps.finalizers) (openshift : OpenshiftAzureNodeClass) (w : deps.World)
      → any releases (ensure_finalizer deps openshift w).2 ≡ false
  unfolding ensure_finalizer patch_node_class_finalizers
  ensure_finalizer-keeps_all laws openshift w =
      ground (arith, laws.contains-add openshift.finalizers finalizer)

  existing-keeps_all :
      (laws : IsLawful deps.finalizers) (namespace : String) (openshift : OpenshiftAzureNodeClass)
      (w : deps.World)
      → any releases (reconcile_existing deps namespace openshift w).2 ≡ false
  unfolding reconcile_existing
  existing-keeps_all laws namespace openshift w =
      let lookup =
        get_hosted_control_plane (call deps.list_hosted_control_planes listed_hosted_control_planes)
          namespace in
      never_and_then releases (ensure_finalizer deps openshift w)
        (λ _ w'.
          let got = lookup w' in
          let later = after_lookup deps namespace openshift got.0 got.1 in
          (later.0, later.1, got.2 ++ later.2))
        (ensure_finalizer-keeps_all laws openshift w)
        (λ _ w'.
          let got = lookup w' in
          ground (
            arith,
            lookup-keeps_all namespace w',
            after_lookup-keeps_all namespace openshift got.0 got.1,
            any-append releases got.2 (after_lookup deps namespace openshift got.0 got.1).2,
          ))

  reconcile_delete-gone :
      (openshift : OpenshiftAzureNodeClass) (w : deps.World)
      → any releases (reconcile_delete deps openshift w).2 ≡ true
      → any answers_gone (reconcile_delete deps openshift w).2 ≡ true
  unfolding reconcile_delete after_delete patch_node_class_finalizers
  reconcile_delete-gone openshift w h = elim (Result-cases (deps.delete_aks openshift.name w).0) [
    | inl (done, good) ↦ absurd (ground (arith, good))
    | inr (e, bad) ↦ ground (arith, bad)
  ]

  after_get-gone :
      (laws : IsLawful deps.finalizers) (namespace : String) (got : Result OpenshiftAzureNodeClass)
      (w : deps.World)
      → any releases (after_get deps namespace got w).2 ≡ true
      → any answers_gone (after_get deps namespace got w).2 ≡ true
  unfolding after_get
  after_get-gone laws namespace (err e) w h = absurd (ground arith)
  after_get-gone laws namespace (ok openshift) w h =
      elim (Bool-cases (is_some openshift.deletion_timestamp)) [
        | inl deleted ↦ ground (
          arith,
          deleted,
          reconcile_delete-gone openshift w,
          any-append releases (reconcile_delete deps openshift w).2 [],
          any-append answers_gone (reconcile_delete deps openshift w).2 [],
        )
        | inr alive ↦ absurd (ground (arith, existing-keeps_all laws namespace openshift w))
      ]

  -- A reconcile stores an OpenShiftAzureNodeClass without the controller's finalizer only if the API
  -- server answered the same run's deletion of the AKSNodeClass of that name with not found.
  pub reconcile-answers_gone :
      (laws : IsLawful deps.finalizers) (namespace requested : String) (w : deps.World)
      → any releases (reconcile deps namespace requested w).2 ≡ true
      → any answers_gone (reconcile deps namespace requested w).2 ≡ true
  unfolding reconcile
  reconcile-answers_gone laws namespace requested w h =
      let got = deps.get requested w in ground (arith, after_get-gone laws namespace got.0 got.1)
