-- ===== src/Tests/NodeClass.antt =====
-- Runs of pkg/controllers/nodeclass/status/conditions.go, with conditions that are replaced in place.
use mathlib.Core.Option.{some-injective}
use openshift_karpenter_oper.Base.{
  ◌≡◌, refl, sym, ap, ◌∙◌, ◌≢◌, ◌⊎◌, String, Bool, true, false, Option, none, some, List, [], ◌∷◌,
  arith, if◌then◌else◌, ◌==◌, string_eq, Bool-cases, inl, inr,
}
use openshift_karpenter_oper.Kube.{
  Condition, ConditionStatus, condition_true, condition_false, condition_unknown,
}
use openshift_karpenter_oper.NodeClass.Status.{
  Conditions, IsLawful, is_true, sync_conditions, copy_conditions, set_ready, not_ready,
}
use openshift_karpenter_oper.NodeClass.Ready.{
  SameReport, last_ready, sync_conditions-unresolved, sync_conditions-resolved,
  sync_conditions-transition,
}

abbrev pub same_status : ConditionStatus → ConditionStatus → Bool
same_status condition_true condition_true = true
same_status condition_false condition_false = true
same_status condition_unknown condition_unknown = true
same_status _ _ = false

same_status_refl : (s : ConditionStatus) → same_status s s ≡ true
same_status_refl condition_true = refl
same_status_refl condition_false = refl
same_status_refl condition_unknown = refl

-- A condition in the place of an old one, whose time it keeps with its status.
abbrev pub replaced : Condition → Condition → Condition
replaced n o = record n {
  last_transition_time =
      if same_status n.status o.status then o.last_transition_time else n.last_transition_time;
}

abbrev pub set_condition : Condition → List Condition → List Condition
set_condition n [] = n ∷ []
set_condition n (o ∷ l) =
    let rest = set_condition n l in if o.type == n.type then replaced n o ∷ l else o ∷ rest

abbrev pub find_condition : List Condition → String → Option Condition
find_condition [] type = none
find_condition (c ∷ l) type = if c.type == type then some c else find_condition l type

abbrev pub in_place : Conditions
in_place = record { set_status_condition = set_condition; find_status_condition = find_condition }

find-set_self :
    (n : Condition) (l : List Condition)
    → (m : Condition) × (find_condition (set_condition n l) n.type ≡ some m)
      × (m.status ≡ n.status)
      × (m.reason ≡ n.reason)
      × (m.message ≡ n.message)
      × (m.observed_generation ≡ n.observed_generation)
find-set_self n [] = (n, ground arith, refl, refl, refl, refl)
find-set_self n (o ∷ l) = elim (Bool-cases (o.type == n.type)) [
  | inl same ↦ (replaced n o, rw same (ground arith), refl, refl, refl, refl)
  | inr differ ↦
      let (m, found, status, reason, text, seen) = find-set_self n l in
      (m, rw differ (rw differ found), status, reason, text, seen)
]

find-set_other :
    (n : Condition) (l : List Condition) (type : String)
    → type ≢ n.type
    → find_condition (set_condition n l) type ≡ find_condition l type
find-set_other n [] type h = ground arith
find-set_other n (o ∷ l) type h = ground (arith, find-set_other n l type h)

find-set_same_status :
    (n o m : Condition) (l : List Condition)
    → find_condition l n.type ≡ some o
    → n.status ≡ o.status
    → find_condition (set_condition n l) n.type ≡ some m
    → m.last_transition_time ≡ o.last_transition_time
find-set_same_status n o m [] was same now = cc
find-set_same_status n o m (p ∷ l) was same now = elim (Bool-cases (p.type == n.type)) [
  | inr differ ↦
      find-set_same_status n o m l (rw differ at was) same (rw differ at rw differ at now)
  | inl here ↦
      let po : p ≡ o = some-injective p o (rw here at was) in
      let kept : same_status n.status p.status ≡ true =
        rw (same ∙ ap (λ (c : Condition). c.status) (sym po)) (same_status_refl p.status) in
      let own : (n.type == n.type) ≡ true = ground arith in
      let written = rw own at rw here at now in
      ap (λ (c : Condition). c.last_transition_time) (sym (some-injective (replaced n p) m written))
      ∙ rw kept (ap (λ (c : Condition). c.last_transition_time) po)
]

in_place-IsLawful : IsLawful in_place
in_place-IsLawful = record {
  find-set_self = find-set_self;
  find-set_other = find-set_other;
  find-set_same_status = find-set_same_status;
}

abbrev version : ConditionStatus → Condition
version status = record {
  type = "VersionResolved";
  status = status;
  observed_generation = 1;
  last_transition_time = 10;
  reason = "ResolutionFailed";
  message = "no release";
}

abbrev ready : Condition
ready = record (version condition_true) { type = "Ready"; reason = "AllReady"; message = "" }

abbrev not_yet : List Condition
not_yet =
    version condition_false
    ∷ record ready { status = condition_false; last_transition_time = 3 }
    ∷ []

abbrev resolved : List Condition
resolved = version condition_true ∷ []

abbrev waiting : List Condition
waiting = sync_conditions in_place not_yet (ready ∷ []) 2

unresolved : is_true (find_condition waiting "VersionResolved") ≡ false
unfolding is_true sync_conditions copy_conditions set_ready not_ready string_eq
unresolved = refl

sync_conditions-unresolved_example :
    (m : Condition) × (find_condition waiting "Ready" ≡ some m)
    × (m.status ≡ condition_false)
    × (m.observed_generation ≡ 2)
    × (((find_condition waiting "VersionResolved" ≡ none) × (m.reason ≡ "ResolutionFailed"))
        ⊎ ((v : Condition) × (find_condition waiting "VersionResolved" ≡ some v)
            × (m.reason ≡ v.reason)))
sync_conditions-unresolved_example =
    sync_conditions-unresolved in_place in_place-IsLawful not_yet (ready ∷ []) 2 unresolved

is_resolved :
    is_true (find_condition (sync_conditions in_place resolved (ready ∷ []) 2) "VersionResolved")
    ≡ true
unfolding is_true sync_conditions copy_conditions set_ready not_ready string_eq
is_resolved = refl

sync_conditions-resolved_example :
    ((last_ready (ready ∷ []) none ≡ none)
      × (find_condition (sync_conditions in_place resolved (ready ∷ []) 2) "Ready"
          ≡ find_condition resolved "Ready"))
    ⊎ ((r m : Condition) × (last_ready (ready ∷ []) none ≡ some r)
        × (find_condition (sync_conditions in_place resolved (ready ∷ []) 2) "Ready" ≡ some m)
        × SameReport m r)
sync_conditions-resolved_example =
    sync_conditions-resolved in_place in_place-IsLawful resolved (ready ∷ []) 2 is_resolved

abbrev was : Condition
was = record ready { status = condition_false; last_transition_time = 3 }

abbrev now : Condition
now = record {
  type = "Ready";
  status = condition_false;
  observed_generation = 2;
  last_transition_time = 3;
  reason = "ResolutionFailed";
  message = "Version resolution failed: no release";
}

was_found : find_condition not_yet "Ready" ≡ some was
unfolding string_eq
was_found = refl

now_found : find_condition waiting "Ready" ≡ some now
unfolding is_true sync_conditions copy_conditions set_ready not_ready string_eq
now_found = refl

sync_conditions-transition_example : now.last_transition_time ≡ was.last_transition_time
sync_conditions-transition_example =
    sync_conditions-transition in_place in_place-IsLawful not_yet (ready ∷ []) 2 was now was_found
      now_found refl
