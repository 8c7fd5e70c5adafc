-- ===== src/Crds/Applied.antt =====
-- pkg/controllers/crd/controller.go: what a reconcile writes, and what its error says.
use openshift_karpenter_oper.Base.{
  ◌<>◌, ◌≡◌, refl, ◌⊎◌, inl, inr, List, [], ◌∷◌, ◌++◌, Result, ok, err, Err, wrap, map,
  Result-cases, ap, ◌∙◌, and_then-ok, and_then-err, pure,
}
use mathlib.Core.List.{append-nil}
use openshift_karpenter_oper.CloudProvider.{CustomResourceDefinition}
use openshift_karpenter_oper.Kube.{finished}
use openshift_karpenter_oper.Crds.{Event, wrote_crd, Deps, apply_crd, apply_crds, reconcile}

-- The writes of CRDs that the API server accepts.
abbrev pub accepted : List CustomResourceDefinition → List Event
accepted crds = map (λ crd. wrote_crd crd.name crd.spec (ok tt)) crds

-- The API server refuses one of the CRDs, after it accepted those before it.
pub record Refused (crds : List CustomResourceDefinition) (calls : List Event) (error : Err)
    : Type 0 where
  pub before : List CustomResourceDefinition
  pub crd : CustomResourceDefinition
  pub after : List CustomResourceDefinition
  pub reason : Err
  pub ordered : crds ≡ before ++ crd ∷ after
  pub written : calls ≡ accepted before ++ wrote_crd crd.name crd.spec (err reason) ∷ []
  pub reported : error ≡ wrap ("applying CRD " <> crd.name) reason

-- Either all the CRDs are written, in order, or the first that is refused ends the run.
abbrev pub Outcome :
    {A W : Type 0} → A → List CustomResourceDefinition → Result A × W × List Event → Type 0
Outcome done crds run =
    ((run.0 ≡ ok done) × (run.2 ≡ accepted crds))
    ⊎ ((e : Err) × (run.0 ≡ err e) × Refused crds run.2 e)

-- One more accepted CRD in front.
Refused-more :
    (desired : CustomResourceDefinition) (crds : List CustomResourceDefinition) (calls : List Event)
    (e : Err)
    → Refused crds calls e
    → Refused (desired ∷ crds) (wrote_crd desired.name desired.spec (ok tt) ∷ calls) e
Refused-more desired crds calls e r = record {
  before = desired ∷ r.before;
  crd = r.crd;
  after = r.after;
  reason = r.reason;
  ordered = ap (◌∷◌ desired) r.ordered;
  written = ap (◌∷◌ (wrote_crd desired.name desired.spec (ok tt))) r.written;
  reported = r.reported;
}

module _ (deps : Deps) where
  apply_crds-applied :
      (crds : List CustomResourceDefinition) (w : deps.World)
      → Outcome tt crds (apply_crds deps crds w)
  unfolding apply_crds apply_crd
  apply_crds-applied [] w = inl (refl, refl)
  apply_crds-applied (desired ∷ crds) w =
      let answer = deps.create_or_update desired.name desired.spec w in
      elim (Result-cases answer.0) [
        | inr (e, bad) ↦ rw bad (
            inr (
              wrap ("applying CRD " <> desired.name) e,
              refl,
              record {
                before = [];
                crd = desired;
                after = crds;
                reason = e;
                ordered = refl;
                written = refl;
                reported = refl;
              },
            ))
        | inl (done, good) ↦ rw good (elim (apply_crds-applied crds answer.1) [
          | inl (all, calls) ↦
              inl (all, ap (◌∷◌ (wrote_crd desired.name desired.spec (ok tt))) calls)
          | inr (e, stopped, refused) ↦
              inr
                (e, stopped, Refused-more desired crds (apply_crds deps crds answer.1).2 e refused)
        ])
      ]

  -- A reconcile writes all the CRDs, in order; or the API server refuses one of them, those before it are
  -- written, those after it are not tried, and the error names the CRD and tells the reason.
  pub reconcile-crds :
      (crds : List CustomResourceDefinition) (w : deps.World)
      → Outcome finished crds (reconcile deps crds w)
  unfolding reconcile
  reconcile-crds crds w = elim (apply_crds-applied crds w) [
    | inl (all, calls) ↦
        rw (and_then-ok (apply_crds deps crds w) (λ _. pure finished) all)
          (inl (refl, (append-nil (apply_crds deps crds w).2 ∙ calls)))
    | inr (e, stopped, refused) ↦
        rw (and_then-err (apply_crds deps crds w) (λ _. pure finished) stopped)
          (inr (e, refl, refused))
  ]
