-- ===== src/Ec2/Tags/Conflicts.antt =====
-- pkg/controllers/nodeclass/ec2/controller.go: the condition on conflicts, against the tags that are merged.
use openshift_karpenter_oper.Base.{
  ℕ, ◌+◌, String, ◌≡◌, ◌≢◌, ◌↔◌, refl, inl, inr, Bool, true, false, not, Option, none, some, List,
  [], ◌∷◌, arith, Bool-cases, Option-cases, if◌then◌else◌, ◌==◌, string_eq, find, length, select,
  All, All-mono, All-both, get_or,
}
use openshift_karpenter_oper.Base.Dict.{Dict, lookup, lookup-cons, NodupKeys}
use openshift_karpenter_oper.Kube.{Condition, ResourceTag, HostedControlPlane, condition_false}
use openshift_karpenter_oper.Ec2.Tags.{
  override_policy_allow, count_conflicts, merged_tags, conflict_condition, tag_conflict_condition,
}
use openshift_karpenter_oper.Ec2.Tags.Merge.{platform_value, allows, merged_tags-lookup}

-- No two tags of the platform have one key.
abbrev pub UniqueTags : List ResourceTag → Type 0
UniqueTags [] = Unit
UniqueTags (tag ∷ more) = All (λ (t : ResourceTag). t.key ≢ tag.key) more × UniqueTags more

-- A tag of the NodeClass that the platform overrules.
abbrev blocks : List ResourceTag → String × String → Bool
blocks platform (k, v) = elim (find (λ (t : ResourceTag). t.key == k) platform) [
  | none ↦ false
  | some tag ↦ if tag.value == v then false else not (tag.override_policy == override_policy_allow)
]

count_conflicts-blocked :
    (platform : List ResourceTag) (tags : Dict String String) (blocked overridden : ℕ)
    → (count_conflicts platform tags blocked overridden).0
      ≡ blocked + length (select (blocks platform) tags)
unfolding count_conflicts
count_conflicts-blocked platform [] blocked overridden = omega arith
count_conflicts-blocked platform ((k, v) ∷ tags) blocked overridden = ground (
  arith,
  count_conflicts-blocked platform tags blocked overridden,
  count_conflicts-blocked platform tags blocked (overridden + 1),
  count_conflicts-blocked platform tags (blocked + 1) overridden,
)

absent-value :
    (k : String) (platform : List ResourceTag) (found : Option String) (a : Bool)
    → All (λ (t : ResourceTag). t.key ≢ k) platform
    → (platform_value k platform found ≡ found) × (allows k platform a ≡ a)
absent-value k [] found a h = (refl, refl)
absent-value k (tag ∷ more) found a h = ground (arith, absent-value k more found a h.1)

-- What the first tag with a key says of the values and permissions of that key.
abbrev Found : String → List ResourceTag → Option ResourceTag → Type 0
Found k platform none = (platform_value k platform none ≡ none) × (allows k platform false ≡ false)
Found k platform (some tag) =
    (platform_value k platform none ≡ some tag.value)
    × (allows k platform false ≡ (tag.override_policy == override_policy_allow))

-- With unique keys the first tag with a key is the last one.
find-value :
    (k : String) (platform : List ResourceTag)
    → UniqueTags platform
    → Found k platform (find (λ (t : ResourceTag). t.key == k) platform)
find-value k [] u = (refl, refl)
find-value k (tag ∷ more) (fresh, u) =
    let rest = find-value k more u in
    elim (string_eq.dec tag.key k) [
      | yes here ↦
          let gone : All (λ (t : ResourceTag). t.key ≢ k) more = rw (← here) fresh in
          let (a, b) =
            absent-value k more (some tag.value) (tag.override_policy == override_policy_allow)
              gone in
          let e : (tag.key == k) ≡ true = ground arith in
          let e' : (k == tag.key) ≡ true = ground arith in rw (e, e') (a, b)
      | no other_ ↦
          let e : (tag.key == k) ≡ false = ground arith in
          let e' : (k == tag.key) ≡ false = ground arith in
          rw e (elim (Option-cases (find (λ (t : ResourceTag). t.key == k) more)) [
            | inl absent ↦ rw absent (rw e' (rw absent at rest))
            | inr (t, there) ↦ rw there (rw e' (rw there at rest))
          ])
    ]

-- The NodeClass's tag is what the merge gives, unless the platform overrules it.
blocks_iff :
    (platform : List ResourceTag) (tags : Dict String String) (k v : String)
    → UniqueTags platform
    → NodupKeys tags
    → lookup k tags ≡ some v
    → (blocks platform (k, v) ≡ false) ↔ (lookup k (merged_tags platform tags) ≡ some v)
blocks_iff platform tags k v u n there =
    let found = find-value k platform u in
    let merged = merged_tags-lookup platform tags k n in
    elim (Option-cases (find (λ (t : ResourceTag). t.key == k) platform)) [
      | inl absent ↦ let (a, b) = rw absent at found in (λ h. ground arith, λ h. ground arith)
      | inr (tag, first) ↦ let (a, b) = rw first at found in (λ h. ground arith, λ h. ground arith)
    ]

entries :
    (d : Dict String String)
    → NodupKeys d
    → All (λ (e : String × String). lookup e.0 d ≡ some e.1) d
entries [] u = tt
entries ((j, w) ∷ d) (fresh, u) = (
  ground (arith, lookup-cons j j w d),
  All-mono d (λ e h. ground (arith, lookup-cons e.0 j w d, h, fresh)) (entries d u),
)

none-selected :
    (p : String × String → Bool) (xs : List (String × String))
    → (length (select p xs) ≡ 0) ↔ All (λ x. p x ≡ false) xs
none-selected p [] = ((λ _. tt), (λ _. refl))
none-selected p (x ∷ xs) =
    let (f, g) = none-selected p xs in
    elim (Bool-cases (p x)) [
      | inl hit ↦ rw hit ((λ h. absurd (omega (arith, h))), (λ h. absurd (ground (arith, h.0))))
      | inr miss ↦ rw miss ((λ h. (refl, f h)), (λ h. g h.1))
    ]

-- With unique platform keys the condition reports no conflict exactly when each tag of the NodeClass
-- is merged with the NodeClass's own value.
pub tag_conflict_condition_iff :
    (tags : Option (Dict String String)) (generation : ℕ) (hcp : HostedControlPlane) (c : Condition)
    → UniqueTags (get_or hcp.resource_tags [])
    → NodupKeys (get_or tags [])
    → tag_conflict_condition tags generation hcp ≡ some c
    → (c.status ≡ condition_false)
      ↔ All
          (λ (e : String × String).
            lookup e.0 (merged_tags (get_or hcp.resource_tags []) (get_or tags [])) ≡ some e.1)
          (get_or tags [])
unfolding tag_conflict_condition conflict_condition
tag_conflict_condition_iff tags generation hcp c u n set =
    let platform = get_or hcp.resource_tags [] in
    let own = get_or tags [] in
    let counted = count_conflicts-blocked platform own 0 0 in
    let (f, g) = none-selected (blocks platform) own in
    let same : (c.status ≡ condition_false) ↔ (length (select (blocks platform) own) ≡ 0) =
      (λ h. ground arith, λ h. ground arith) in
    (
      λ h.
          All-mono own (λ e k. (blocks_iff platform own e.0 e.1 u n k.0).0 k.1)
            (All-both _ _ own (entries own n) (f (same.0 h))),
      λ h. same.1 (
          g (
            All-mono own (λ e k. (blocks_iff platform own e.0 e.1 u n k.0).1 k.1)
              (All-both _ _ own (entries own n) h))),
    )
