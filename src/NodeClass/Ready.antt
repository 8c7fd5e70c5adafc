-- ===== src/NodeClass/Ready.antt =====
-- pkg/controllers/nodeclass/status/conditions.go: when an OpenShift NodeClass is ready.
use text.Mathlib.TextEquality.{eq_iff}
use mathlib.Core.Option.{some-injective}
use mathlib.Core.Path.{subst}
use openshift_karpenter_oper.Base.{
  ℕ, String, ◌≡◌, ◌≢◌, refl, sym, ap, ◌∙◌, true, false, Option, none, some, List, [], ◌∷◌, arith,
  Bool-cases, Option-cases, inl, inr, ◌⊎◌, if◌then◌else◌, ◌==◌, string_eq, All,
}
use openshift_karpenter_oper.Kube.{Condition, condition_false}
use openshift_karpenter_oper.NodeClass.Status.{
  Conditions, IsLawful, condition_type_ready, condition_type_version_resolved, is_true, not_ready,
  copy_conditions, set_ready, sync_conditions,
}

-- The last Ready condition of a list, or the one given.
abbrev pub last_ready : List Condition → Option Condition → Option Condition
last_ready [] found = found
last_ready (condition ∷ more) found =
    last_ready more (if condition.type == condition_type_ready then some condition else found)

-- The fields of a condition but for its transition time.
abbrev pub SameReport : Condition → Condition → Type 0
SameReport m n =
    (m.status ≡ n.status)
    × (m.reason ≡ n.reason)
    × (m.message ≡ n.message)
    × (m.observed_generation ≡ n.observed_generation)

resolved-ne-ready : condition_type_version_resolved ≢ condition_type_ready
resolved-ne-ready = ground (arith, eq_iff "VersionResolved" "Ready")

module _ (c : Conditions) (lawful : IsLawful c) where
  copy_conditions-ready :
      (conditions result : List Condition) (found : Option Condition)
      → ((copy_conditions c conditions result found).1 ≡ last_ready conditions found)
        × (c.find_status_condition (copy_conditions c conditions result found).0 "Ready"
            ≡ c.find_status_condition result "Ready")
  unfolding copy_conditions
  copy_conditions-ready [] result found = (refl, refl)
  copy_conditions-ready (condition ∷ more) result found =
      elim (Bool-cases (condition.type == "Ready")) [
        | inl ready ↦ rw ready (copy_conditions-ready more result (some condition))
        | inr differ ↦
            let (a, b) =
              copy_conditions-ready more (c.set_status_condition condition result) found in
            rw differ (a, b ∙ lawful.find-set_other condition result "Ready" (ground arith))
      ]

  copy_conditions-other :
      (conditions result : List Condition) (found : Option Condition) (type : String)
      → All (λ (n : Condition). type ≢ n.type) conditions
      → c.find_status_condition (copy_conditions c conditions result found).0 type
        ≡ c.find_status_condition result type
  unfolding copy_conditions
  copy_conditions-other [] result found type h = refl
  copy_conditions-other (condition ∷ more) result found type h =
      elim (Bool-cases (condition.type == "Ready")) [
        | inl ready ↦ rw ready (copy_conditions-other more result (some condition) type h.1)
        | inr differ ↦ rw differ (
            copy_conditions-other more _ found type h.1
            ∙ lawful.find-set_other condition result type h.0)
      ]

  -- The laws of a condition that is set, at its type.
  set-found :
      (n : Condition) (l : List Condition) (type : String)
      → n.type ≡ type
      → (m : Condition) × (c.find_status_condition (c.set_status_condition n l) type ≡ some m)
        × SameReport m n
  set-found n l type typed =
      let (m, found, status, reason, text, seen) = lawful.find-set_self n l in
      (
        m,
        subst (λ t. c.find_status_condition (c.set_status_condition n l) t ≡ some m) typed found,
        (status, reason, text, seen),
      )

  set-same_status :
      (n o m : Condition) (l : List Condition) (type : String)
      → n.type ≡ type
      → c.find_status_condition l type ≡ some o
      → n.status ≡ o.status
      → c.find_status_condition (c.set_status_condition n l) type ≡ some m
      → m.last_transition_time ≡ o.last_transition_time
  set-same_status n o m l type typed was same now =
      lawful.find-set_same_status n o m l
        (subst (λ t. c.find_status_condition l t ≡ some o) (sym typed) was) same
        (subst (λ t. c.find_status_condition (c.set_status_condition n l) t ≡ some m) (sym typed)
          now)

  -- What the last step does to the list: nothing, or it sets one Ready condition.
  set_ready-cases :
      (result : List Condition) (ready : Option Condition) (generation : ℕ)
      → ((set_ready c (result, ready) generation ≡ result) × (ready ≡ none))
        ⊎ ((n : Condition) × (set_ready c (result, ready) generation
              ≡ c.set_status_condition n result)
            × ((n.type ≡ "Ready") ⊎ (ready ≡ some n)))
  unfolding set_ready not_ready
  set_ready-cases result ready generation =
      let resolved = c.find_status_condition result "VersionResolved" in
      elim (Bool-cases (is_true resolved)) [
        | inr no_ ↦ inr (
          not_ready resolved generation,
          rw no_ refl,
          inl (elim (Option-cases resolved) [
            | inl missing ↦ rw missing refl
            | inr (v, there) ↦ rw there refl
          ]),
        )
        | inl yes_ ↦ elim (Option-cases ready) [
          | inl missing ↦ inl (rw (yes_, missing) refl, missing)
          | inr (r, there) ↦ inr (r, rw (yes_, there) refl, inr there)
        ]
      ]

  last_ready-type :
      (conditions : List Condition) (found : Option Condition) {r : Condition}
      → ((q : Condition) → found ≡ some q → q.type ≡ "Ready")
      → last_ready conditions found ≡ some r
      → r.type ≡ "Ready"
  last_ready-type [] found {r} h e = h r e
  last_ready-type (condition ∷ more) found {r} h e = elim (Bool-cases (condition.type == "Ready")) [
    | inl ready ↦
        last_ready-type more (some condition) {r = r} (λ q p. ground arith) (rw ready at e)
    | inr differ ↦ last_ready-type more found {r = r} h (rw differ at e)
  ]

  -- A step of the last one sets a condition of type Ready.
  sync_conditions-cases :
      (conditions provider : List Condition) (generation : ℕ)
      → let result = (copy_conditions c provider conditions none).0 in
        ((sync_conditions c conditions provider generation ≡ result)
          × (last_ready provider none ≡ none))
        ⊎ ((n : Condition) × (n.type ≡ "Ready")
            × (sync_conditions c conditions provider generation ≡ c.set_status_condition n result))
  unfolding sync_conditions
  sync_conditions-cases conditions provider generation =
      let copied = copy_conditions c provider conditions none in
      let (e, _) = copy_conditions-ready provider conditions none in
      elim (set_ready-cases copied.0 copied.1 generation) [
        | inl (same, missing) ↦ inl (same, sym e ∙ missing)
        | inr (n, set, inl ready) ↦ inr (n, ready, set)
        | inr (n, set, inr given) ↦
            inr (n, last_ready-type provider none (λ q p. cc) (sym e ∙ given), set)
      ]

  sync_conditions-other :
      (conditions provider : List Condition) (generation : ℕ) (type : String)
      → type ≢ "Ready"
      → c.find_status_condition (sync_conditions c conditions provider generation) type
        ≡ c.find_status_condition (copy_conditions c provider conditions none).0 type
  sync_conditions-other conditions provider generation type differ =
      elim (sync_conditions-cases conditions provider generation) [
        | inl (same, _) ↦ rw same refl
        | inr (n, ready, set) ↦ rw set (lawful.find-set_other n _ type (λ e. differ (e ∙ ready)))
      ]

  -- Conditions that neither are Ready nor come from the provider are as they were.
  pub sync_conditions-kept :
      (conditions provider : List Condition) (generation : ℕ) (type : String)
      → type ≢ "Ready"
      → All (λ (n : Condition). type ≢ n.type) provider
      → c.find_status_condition (sync_conditions c conditions provider generation) type
        ≡ c.find_status_condition conditions type
  sync_conditions-kept conditions provider generation type differ absent =
      sync_conditions-other conditions provider generation type differ
      ∙ copy_conditions-other provider conditions none type absent

  -- While the version is not resolved the NodeClass is not ready, whatever the provider says. The reason
  -- is that of the version's condition, or that the resolution failed where there is none.
  pub sync_conditions-unresolved :
      (conditions provider : List Condition) (generation : ℕ)
      → is_true (
          c.find_status_condition
            (sync_conditions c conditions provider generation)
            "VersionResolved")
        ≡ false
      → (m : Condition) × (c.find_status_condition
            (sync_conditions c conditions provider generation)
            "Ready"
          ≡ some m)
        × (m.status ≡ condition_false)
        × (m.observed_generation ≡ generation)
        × (((c.find_status_condition
                  (sync_conditions c conditions provider generation)
                  "VersionResolved"
                ≡ none)
              × (m.reason ≡ "ResolutionFailed"))
            ⊎ ((v : Condition) × (c.find_status_condition
                    (sync_conditions c conditions provider generation)
                    "VersionResolved"
                  ≡ some v)
                × (m.reason ≡ v.reason)))
  unfolding sync_conditions set_ready not_ready
  sync_conditions-unresolved conditions provider generation h =
      let result = (copy_conditions c provider conditions none).0 in
      let resolved = c.find_status_condition result "VersionResolved" in
      let same =
        sync_conditions-other conditions provider generation "VersionResolved" resolved-ne-ready in
      let no_ : is_true resolved ≡ false = rw same at h in
      elim (Option-cases resolved) [
        | inl missing ↦
            let (m, found, status, reason, _, seen) =
              lawful.find-set_self (not_ready none generation) result in
            rw (same, no_, missing) (m, found, status, seen, inl (refl, reason))
        | inr (v, there) ↦
            let (m, found, status, reason, _, seen) =
              lawful.find-set_self (not_ready (some v) generation) result in
            rw (same, no_, there) (m, found, status, seen, inr (v, refl, reason))
      ]

  -- Once the version is resolved the NodeClass is as ready as the last Ready condition of the provider
  -- says, and as ready as it was if the provider has none.
  pub sync_conditions-resolved :
      (conditions provider : List Condition) (generation : ℕ)
      → is_true (
          c.find_status_condition
            (sync_conditions c conditions provider generation)
            "VersionResolved")
        ≡ true
      → ((last_ready provider none ≡ none)
          × (c.find_status_condition (sync_conditions c conditions provider generation) "Ready"
              ≡ c.find_status_condition conditions "Ready"))
        ⊎ ((r m : Condition) × (last_ready provider none ≡ some r)
            × (c.find_status_condition (sync_conditions c conditions provider generation) "Ready"
                ≡ some m)
            × SameReport m r)
  unfolding sync_conditions set_ready
  sync_conditions-resolved conditions provider generation h =
      let result = (copy_conditions c provider conditions none).0 in
      let same =
        sync_conditions-other conditions provider generation "VersionResolved" resolved-ne-ready in
      let yes_ : is_true (c.find_status_condition result "VersionResolved") ≡ true = rw same at h in
      let (e, before) = copy_conditions-ready provider conditions none in
      elim (Option-cases (last_ready provider none)) [
        | inl missing ↦ inl (missing, rw (yes_, e, missing) before)
        | inr (r, there) ↦
            let typed = last_ready-type provider none {r = r} (λ q p. cc) there in
            let (m, found, report) = set-found r result "Ready" typed in
            inr (r, m, there, rw (yes_, e, there) found, report)
      ]

  -- An effective readiness that stays the same keeps its transition time.
  pub sync_conditions-transition :
      (conditions provider : List Condition) (generation : ℕ) (o m : Condition)
      → c.find_status_condition conditions "Ready" ≡ some o
      → c.find_status_condition (sync_conditions c conditions provider generation) "Ready" ≡ some m
      → m.status ≡ o.status
      → m.last_transition_time ≡ o.last_transition_time
  sync_conditions-transition conditions provider generation o m was now same_status =
      let result = (copy_conditions c provider conditions none).0 in
      let (_, before) = copy_conditions-ready provider conditions none in
      elim (sync_conditions-cases conditions provider generation) [
        | inl (same, _) ↦
            let found = rw same at now in
            ap (λ (k : Condition). k.last_transition_time)
              (some-injective m o (sym found ∙ before ∙ was))
        | inr (n, ready, set) ↦
            let (k, found, report) = set-found n result "Ready" ready in
            let now2 = rw set at now in
            let k-eq = some-injective k m (sym found ∙ now2) in
            set-same_status n o m result "Ready" ready (before ∙ was)
              (sym report.0 ∙ ap (λ (j : Condition). j.status) k-eq ∙ same_status) now2
      ]
