-- ===== src/Ec2/Tags/Merge.antt =====
-- pkg/controllers/nodeclass/ec2/controller.go: which tags an EC2NodeClass gets.
use openshift_karpenter_oper.Base.{
  String, ◌≡◌, refl, ap, inl, inr, Bool, true, false, not, ◌&&◌, ◌||◌, Option, none, some, List, [],
  ◌∷◌, arith, Bool-cases, Option-cases, if◌then◌else◌, ◌==◌, string_eq, is_empty, get_or, is_some,
}
use openshift_karpenter_oper.Base.Dict.{
  Dict, lookup, insert, lookup-nil, lookup-cons, lookup-insert, NodupKeys, insert-NodupKeys,
}
use openshift_karpenter_oper.Kube.{ResourceTag, HostedControlPlane}
use openshift_karpenter_oper.Ec2.Tags.{
  override_policy_allow, add_platform_tags, add_node_class_tags, merged_tags, filter_loop,
  filter_restricted_tags, merge_ec2_node_class_tags,
}

-- The value of the last tag of the platform with a key, or the one given.
abbrev pub platform_value : String → List ResourceTag → Option String → Option String
platform_value k [] found = found
platform_value k (tag ∷ more) found =
    platform_value k more (if k == tag.key then some tag.value else found)

-- One of the tags with the key allows the NodeClass to override it.
abbrev pub allows : String → List ResourceTag → Bool → Bool
allows k [] found = found
allows k (tag ∷ more) found =
    allows k more (found || (k == tag.key && tag.override_policy == override_policy_allow))

-- What a key is merged to: the NodeClass decides, unless the platform has the key and keeps it.
abbrev pub merged_value : Option String → Bool → Option String → Option String
merged_value platform allowed none = platform
merged_value none allowed (some v) = some v
merged_value (some p) allowed (some v) = if allowed then some v else some p

add_platform_tags-lookup :
    (k : String) (platform : List ResourceTag) (tags : Dict String String)
    (allow : Dict String Bool)
    → (lookup k (add_platform_tags platform tags allow).0
        ≡ platform_value k platform (lookup k tags))
      × (get_or (lookup k (add_platform_tags platform tags allow).1) false
          ≡ allows k platform (get_or (lookup k allow) false))
unfolding add_platform_tags
add_platform_tags-lookup k [] tags allow = (refl, refl)
add_platform_tags-lookup k (tag ∷ more) tags allow =
    let allow' =
      if tag.override_policy == override_policy_allow then insert tag.key true allow else allow in
    let (a, b) = add_platform_tags-lookup k more (insert tag.key tag.value tags) allow' in
    let c : get_or (lookup k allow') false ≡ (
        get_or (lookup k allow) false
        || (k == tag.key && tag.override_policy == override_policy_allow)) =
      ground (arith, lookup-insert k tag.key true allow) in
    (rw (a, lookup-insert k tag.key tag.value tags) refl, rw (b, c) refl)

add_node_class_tags-lookup :
    (k : String) (node_class tags : Dict String String) (allow : Dict String Bool)
    → NodupKeys node_class
    → lookup k (add_node_class_tags node_class tags allow)
      ≡ merged_value (lookup k tags) (get_or (lookup k allow) false) (lookup k node_class)
unfolding add_node_class_tags
add_node_class_tags-lookup k [] tags allow u = rw lookup-nil refl
add_node_class_tags-lookup k ((j, v) ∷ more) tags allow (fresh, u) =
    let keep = is_some (lookup j tags) && not (get_or (lookup j allow) false) in
    let later =
      add_node_class_tags-lookup k more (if keep then tags else insert j v tags) allow u in
    elim (string_eq.dec k j) [
      | yes here ↦
          let gone : lookup k more ≡ none = rw here fresh in
          rw (later, gone) (ground (arith, here, lookup-insert k j v tags, lookup-cons k j v more))
      | no other_ ↦ rw later (ground (arith, lookup-insert k j v tags, lookup-cons k j v more))
    ]

module _ (restricted : String → Bool) where
  filter_loop-lookup :
      (k : String) (tags filtered : Dict String String) (removed : List String)
      → NodupKeys tags
      → lookup k (filter_loop restricted tags filtered removed).0 ≡ elim (lookup k tags) [
        | none ↦ lookup k filtered
        | some v ↦ if restricted k then lookup k filtered else some v
      ]
  unfolding filter_loop
  filter_loop-lookup k [] filtered removed u = rw lookup-nil refl
  filter_loop-lookup k ((j, v) ∷ tags) filtered removed (fresh, u) = elim (string_eq.dec k j) [
    | yes here ↦
        let gone : lookup k tags ≡ none = rw here fresh in
        ground (
          arith,
          here,
          gone,
          lookup-insert k j v filtered,
          lookup-cons k j v tags,
          filter_loop-lookup k tags filtered (j ∷ removed) u,
          filter_loop-lookup k tags (insert j v filtered) removed u,
        )
    | no other_ ↦ ground (
      arith,
      other_,
      lookup-insert k j v filtered,
      lookup-cons k j v tags,
      filter_loop-lookup k tags filtered (j ∷ removed) u,
      filter_loop-lookup k tags (insert j v filtered) removed u,
    )
  ]

empty-eq : (d : Dict String String) → is_empty d ≡ true → [] ≡ d
empty-eq [] h = refl
empty-eq (x ∷ d) h = cc

add_platform_tags-NodupKeys :
    (platform : List ResourceTag) (tags : Dict String String) (allow : Dict String Bool)
    → NodupKeys tags
    → NodupKeys (add_platform_tags platform tags allow).0
unfolding add_platform_tags
add_platform_tags-NodupKeys [] tags allow u = u
add_platform_tags-NodupKeys (tag ∷ more) tags allow u =
    add_platform_tags-NodupKeys more _ _ (insert-NodupKeys tag.key tag.value tags u)

add_node_class_tags-NodupKeys :
    (node_class tags : Dict String String) (allow : Dict String Bool)
    → NodupKeys tags
    → NodupKeys (add_node_class_tags node_class tags allow)
unfolding add_node_class_tags
add_node_class_tags-NodupKeys [] tags allow u = u
add_node_class_tags-NodupKeys ((j, v) ∷ more) tags allow u =
    elim (Bool-cases (is_some (lookup j tags) && not (get_or (lookup j allow) false))) [
      | inl keep ↦ rw keep (add_node_class_tags-NodupKeys more tags allow u)
      | inr put ↦ rw put (add_node_class_tags-NodupKeys more _ allow (insert-NodupKeys j v tags u))
    ]

-- The merge, before the restricted tags are taken out.
pub merged_tags-lookup :
    (platform : List ResourceTag) (node_class : Dict String String) (k : String)
    → NodupKeys node_class
    → lookup k (merged_tags platform node_class)
      ≡ merged_value
          (platform_value k platform none)
          (allows k platform false)
          (lookup k node_class)
unfolding merged_tags
merged_tags-lookup platform node_class k u =
    let (values, allowed) = add_platform_tags-lookup k platform [] [] in
    rw (add_node_class_tags-lookup k node_class _ _ u, values, allowed)
      (rw (lookup-nil, lookup-nil) refl)

module _ (restricted : String → Bool) where
  filter_restricted_tags-lookup :
      (k : String) (tags : Dict String String)
      → NodupKeys tags
      → lookup k (filter_restricted_tags restricted tags).0
        ≡ (if restricted k then none else lookup k tags)
  unfolding filter_restricted_tags
  filter_restricted_tags-lookup k [] u = rw lookup-nil (ground arith)
  filter_restricted_tags-lookup k (tag ∷ tags) u = elim (Option-cases (lookup k (tag ∷ tags))) [
    | inl absent ↦
        rw (filter_loop-lookup restricted k (tag ∷ tags) [] [] u, absent)
          (rw lookup-nil (ground arith))
    | inr (v, there) ↦
        rw (filter_loop-lookup restricted k (tag ∷ tags) [] [] u, there) (rw lookup-nil refl)
  ]

  -- What an EC2NodeClass is tagged with, key by key: nothing under a restricted key; under any other the
  -- NodeClass's value, unless the platform has the key and no tag of it allows an override; and
  -- the platform's last value where that stands or where the NodeClass has none.
  pub merge_ec2_node_class_tags-lookup :
      (tags : Option (Dict String String)) (hcp : HostedControlPlane) (k : String)
      → NodupKeys (get_or tags [])
      → lookup k (get_or (merge_ec2_node_class_tags restricted tags hcp) []) ≡ (
          if restricted k
          then none
          else merged_value
              (platform_value k (get_or hcp.resource_tags []) none)
              (allows k (get_or hcp.resource_tags []) false)
              (lookup k (get_or tags [])))
  unfolding merge_ec2_node_class_tags merged_tags
  merge_ec2_node_class_tags-lookup tags hcp k u =
      let platform = get_or hcp.resource_tags [] in
      let merged = merged_tags platform (get_or tags []) in
      let filtered = (filter_restricted_tags restricted merged).0 in
      let p = add_platform_tags platform [] [] in
      let unique =
        add_node_class_tags-NodupKeys (get_or tags []) p.0 p.1
          (add_platform_tags-NodupKeys platform [] [] tt) in
      let there : lookup k filtered ≡ (if restricted k then none else lookup k merged) =
        filter_restricted_tags-lookup k merged unique in
      rw (← merged_tags-lookup platform (get_or tags []) k u, ← there)
        (elim (Bool-cases (not (is_some tags) && is_empty filtered)) [
          | inl nil ↦ rw nil (ap (lookup k) (empty-eq filtered (ground arith)))
          | inr full ↦ rw full refl
        ])
