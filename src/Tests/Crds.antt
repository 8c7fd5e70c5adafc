-- ===== src/Tests/Crds.antt =====
-- Runs of pkg/controllers/crd/controller.go on an API server that takes one CRD and refuses the next.
use openshift_karpenter_oper.Base.{
  ◌≡◌, refl, some, none, List, [], ◌∷◌, ok, err, api, not_found, true, false, Bool, string_eq,
}
use openshift_karpenter_oper.CloudProvider.{CustomResourceDefinition}
use openshift_karpenter_oper.Kube.{finished}
use openshift_karpenter_oper.Crds.{
  Deps, wrote_crd, reconcile, apply_crds, apply_crd, map_crd, target,
}
use openshift_karpenter_oper.Crds.Applied.{Outcome, reconcile-crds}

-- The state is whether there was a write before.
abbrev second_refused : Deps
second_refused = record {
  World = Bool;
  create_or_update = λ name spec w. (elim w [ false ↦ ok tt | true ↦ err (api not_found) ], true);
}

abbrev crds : List CustomResourceDefinition
crds =
    record { name = "nodepools.karpenter.sh"; spec = "v1" }
    ∷ record { name = "nodeclaims.karpenter.sh"; spec = "v1" }
    ∷ record { name = "nodeoverlays.karpenter.sh"; spec = "v1" }
    ∷ []

stops :
    (reconcile second_refused crds false).2
    ≡ wrote_crd "nodepools.karpenter.sh" "v1" (ok tt)
      ∷ wrote_crd "nodeclaims.karpenter.sh" "v1" (err (api not_found))
      ∷ []
unfolding reconcile apply_crds apply_crd
stops = refl

enqueued :
    map_crd crds "nodeclaims.karpenter.sh" ≡ "nodeclaims.karpenter.sh" ∷ []
    × map_crd crds "widgets" ≡ []
unfolding map_crd string_eq
enqueued = (refl, refl)

hosted_first : target true (some false) ≡ false × target true none ≡ true
unfolding target
hosted_first = (refl, refl)

reconcile-crds_example : Outcome finished crds (reconcile second_refused crds false)
reconcile-crds_example = reconcile-crds second_refused crds false
