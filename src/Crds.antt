-- ===== src/Crds.antt =====
-- pkg/controllers/crd/controller.go: the CRDs are applied one by one to the cluster that serves them.
pub mod Applied
use openshift_karpenter_oper.Base.{
  String, ◌<>◌, List, [], ◌∷◌, Option, M, Result, context, call, pure, ◌>>=◌, ◌>>◌, get_or,
  contains, map, if◌then◌else◌, string_eq,
}
use openshift_karpenter_oper.CloudProvider.{CustomResourceDefinition}
use openshift_karpenter_oper.Kube.{Requeue, finished}

-- A write of the spec of a CRD, by its name, with its answer.
pub data Event : Type 0 where
  wrote_crd : String → String → Result (Unit {0}) → Event

-- `CreateOrUpdate` of the CRD of a name, with a change that sets its spec.
pub record Deps : Type 1 where
  pub World : Type 0
  pub create_or_update : String → String → World → Result (Unit {0}) × World

-- The cluster that `NewController` chooses: the hosted one if there is one.
unfoldable pub target : {Cluster : Type 0} → Cluster → Option Cluster → Cluster
target own hosted = get_or hosted own

module _ (deps : Deps) where
  open deps use {World}

  -- `applyCRD`
  unfoldable pub apply_crd : CustomResourceDefinition → M World Event (Unit {0})
  apply_crd desired =
      call (deps.create_or_update desired.name desired.spec) (wrote_crd desired.name desired.spec)

  -- The loop of `Reconcile`.
  unfoldable pub apply_crds : List CustomResourceDefinition → M World Event (Unit {0})
  unfolding apply_crd
  apply_crds [] = pure tt
  apply_crds (desired ∷ crds) = do
    context ("applying CRD " <> desired.name) (apply_crd desired)
    apply_crds crds

  -- `Reconcile`
  unfoldable pub reconcile : List CustomResourceDefinition → M World Event Requeue
  unfolding apply_crds
  reconcile crds = do apply_crds crds; pure finished

-- The requests that the watch enqueues for a CRD of the given name.
unfoldable pub map_crd : List CustomResourceDefinition → String → List String
map_crd crds name = if contains (map (λ crd. crd.name) crds) name then name ∷ [] else []
