-- ===== src/Ec2/Controller/Subnets.antt =====
-- pkg/controllers/nodeclass/ec2/controller.go: the subnets in the ConfigMap.
use text.Mathlib.TextEquality.{eq_iff}
use mathlib.Core.List.Memᴰ.{not-nil, cases_cons, append_left, append_right, append_cases}
use mathlib.Core.Path.{subst}
use mathlib.Core.List.{append-nil}
use openshift_karpenter_oper.Base.{
  String, ◌≡◌, ◌≢◌, ◌↔◌, ◌⊎◌, refl, sym, ap, ◌∙◌, Option-cases, true, none, some, List, [], ◌∷◌,
  Result, ok, arith, Result-cases, Bool-cases, inl, inr, string_eq, Memᴰ, ◌!=◌,
}
use openshift_karpenter_oper.Base.Dict.{lookup, insert, lookup-insert}
use openshift_karpenter_oper.Kube.{HostedControlPlane}
use openshift_karpenter_oper.Ec2.Types.{OpenshiftEc2NodeClass, Subnet}
use openshift_karpenter_oper.Ec2.Calls.{
  Deps, Event, ConfigMap, config_map, wrote_config_map, listed_node_classes,
}
use openshift_karpenter_oper.Ec2.Controller.{
  ids_of_subnets, subnet_ids, fill_config_map, delete_if_needed, write_subnets,
  reconcile_karpenter_subnets_config_map,
}

-- A NodeClass that is not being deleted has resolved a subnet with this id, which is not empty.
pub record Live (id : String) (node_classes : List OpenshiftEc2NodeClass) : Type 0 where
  pub node_class : OpenshiftEc2NodeClass
  pub listed : Memᴰ node_class node_classes
  pub stays : node_class.deletion_timestamp ≡ none
  pub subnet : Subnet
  pub resolved : Memᴰ subnet node_class.status.subnets
  pub named : subnet.id ≡ id
  pub nonempty : id ≢ ""

ids_of_subnets-mem :
    (id : String) (subnets : List Subnet)
    → Memᴰ id (ids_of_subnets subnets)
    → (s : Subnet) × Memᴰ s subnets × (s.id ≡ id) × (id ≢ "")
unfolding ids_of_subnets
ids_of_subnets-mem id [] m = absurd (not-nil m)
ids_of_subnets-mem id (subnet ∷ subnets) m =
    let later : Memᴰ id (ids_of_subnets subnets)
        → (s : Subnet) × Memᴰ s (subnet ∷ subnets) × (s.id ≡ id) × (id ≢ "") =
      λ n. let (s, there, e, h) = ids_of_subnets-mem id subnets n in (s, Memᴰ.tail there, e, h) in
    elim (Bool-cases (subnet.id != "")) [
      | inl keep ↦ elim (cases_cons (rw keep at m)) [
        | inl here ↦ (subnet, Memᴰ.head refl, sym here, rw here (ground arith))
        | inr n ↦ later n
      ]
      | inr drop ↦ later (rw drop at m)
    ]

mem-ids_of_subnets :
    (subnet : Subnet) (subnets : List Subnet)
    → Memᴰ subnet subnets
    → subnet.id ≢ ""
    → Memᴰ subnet.id (ids_of_subnets subnets)
unfolding ids_of_subnets
mem-ids_of_subnets subnet [] m h = absurd (not-nil m)
mem-ids_of_subnets subnet (s ∷ subnets) m h =
    let later = mem-ids_of_subnets subnet subnets in
    elim (cases_cons m) [
      | inl here ↦
          let keep : (s.id != "") ≡ true = ground (arith, ap (λ (x : Subnet). x.id) here) in
          rw keep (Memᴰ.head (ap (λ (x : Subnet). x.id) here))
      | inr n ↦ elim (Bool-cases (s.id != "")) [
        | inl keep ↦ rw keep (Memᴰ.tail (later n h))
        | inr drop ↦ rw drop (later n h)
      ]
    ]

subnet_ids-Live :
    (id : String) (node_classes : List OpenshiftEc2NodeClass)
    → Memᴰ id (subnet_ids node_classes)
    → Live id node_classes
unfolding subnet_ids
subnet_ids-Live id [] m = absurd (not-nil m)
subnet_ids-Live id (node_class ∷ more) m =
    let later : Memᴰ id (subnet_ids more) → Live id (node_class ∷ more) = λ n.
      let l = subnet_ids-Live id more n in
      record {
        node_class = l.node_class;
        listed = Memᴰ.tail l.listed;
        stays = l.stays;
        subnet = l.subnet;
        resolved = l.resolved;
        named = l.named;
        nonempty = l.nonempty;
      } in
    elim (Option-cases node_class.deletion_timestamp) [
      | inr (t, deleted) ↦ later (rw deleted at m)
      | inl stays ↦ elim (append_cases (ids_of_subnets node_class.status.subnets) (rw stays at m)) [
        | inr n ↦ later n
        | inl here ↦
            let (s, resolved, named, nonempty) =
              ids_of_subnets-mem id node_class.status.subnets here in
            record {
              node_class = node_class;
              listed = Memᴰ.head refl;
              stays = stays;
              subnet = s;
              resolved = resolved;
              named = named;
              nonempty = nonempty;
            }
      ]
    ]

Live-subnet_ids :
    (node_class : OpenshiftEc2NodeClass) (node_classes : List OpenshiftEc2NodeClass)
    (subnet : Subnet)
    → Memᴰ node_class node_classes
    → node_class.deletion_timestamp ≡ none
    → Memᴰ subnet node_class.status.subnets
    → subnet.id ≢ ""
    → Memᴰ subnet.id (subnet_ids node_classes)
unfolding subnet_ids
Live-subnet_ids node_class [] subnet m stays resolved h = absurd (not-nil m)
Live-subnet_ids node_class (c ∷ more) subnet m stays resolved h =
    let own = ids_of_subnets c.status.subnets in
    elim (cases_cons m) [
      | inl here ↦
          let kept : c.deletion_timestamp ≡ none = rw (← here) stays in
          let mine : Memᴰ subnet.id own =
            mem-ids_of_subnets subnet _
              (subst (λ (x : OpenshiftEc2NodeClass). Memᴰ subnet x.status.subnets) here resolved)
              h in
          rw kept (append_left (subnet_ids more) mine)
      | inr n ↦
          let rest = Live-subnet_ids node_class more subnet n stays resolved h in
          elim (Option-cases c.deletion_timestamp) [
            | inr (t, deleted) ↦ rw deleted rest
            | inl kept ↦ rw kept (append_right own rest)
          ]
    ]

-- The ids that are gathered are those of the live subnets.
subnet_ids_iff :
    (id : String) (node_classes : List OpenshiftEc2NodeClass)
    → Memᴰ id (subnet_ids node_classes) ↔ Live id node_classes
subnet_ids_iff id node_classes = (
  subnet_ids-Live id node_classes,
  λ l.
      subst (λ i. Memᴰ i (subnet_ids node_classes)) l.named
        (Live-subnet_ids l.node_class node_classes l.subnet l.listed l.stays l.resolved
          (λ e. l.nonempty (sym l.named ∙ e))),
)

abbrev infra_label : String
infra_label = "hypershift.openshift.io/infra-id"

abbrev managed_label : String
managed_label = "hypershift.openshift.io/managed-by"

-- A list of ids that are exactly those of the live subnets.
abbrev pub AreLive : List String → List OpenshiftEc2NodeClass → Type 0
AreLive ids node_classes = (id : String) → Memᴰ id ids ↔ Live id node_classes

module _ (deps : Deps) where
  -- What a change makes of the ConfigMap: the JSON list of the ids of the live subnets stands under
  -- `subnetIDs`, and two labels say whose it is.
  pub record Lists (hcp : HostedControlPlane) (node_classes : List OpenshiftEc2NodeClass)
      (changed : Result ConfigMap) : Type 0 where
    pub new : ConfigMap
    pub done : changed ≡ ok new
    pub ids : List String
    pub live : AreLive ids node_classes
    pub nonempty : ids ≢ []
    pub subnets : lookup "subnetIDs" new.contents ≡ some (deps.marshal ids)
    pub infra : lookup "hypershift.openshift.io/infra-id" new.labels ≡ some hcp.infra_id
    pub managed : lookup "hypershift.openshift.io/managed-by" new.labels ≡ some "karpenter"

  fill_config_map-Lists :
      (hcp : HostedControlPlane) (node_classes : List OpenshiftEc2NodeClass) (ids : List String)
      (old owned : ConfigMap)
      → deps.own_config_map hcp old ≡ ok owned
      → AreLive ids node_classes
      → ids ≢ []
      → Lists hcp node_classes (fill_config_map deps hcp ids old)
  unfolding fill_config_map
  fill_config_map-Lists hcp node_classes ids old owned own live some_ = record {
    new = record owned {
      labels =
          insert "hypershift.openshift.io/infra-id" hcp.infra_id
            (insert "hypershift.openshift.io/managed-by" "karpenter" owned.labels);
      contents = insert "subnetIDs" (deps.marshal ids) owned.contents;
    };
    done = rw (own, fill_config_map) refl;
    ids = ids;
    live = live;
    nonempty = some_;
    subnets =
        ground (arith, lookup-insert "subnetIDs" "subnetIDs" (deps.marshal ids) owned.contents);
    infra = ground (
      arith,
      lookup-insert infra_label infra_label hcp.infra_id
          (insert managed_label "karpenter" owned.labels),
    );
    managed = ground (
      arith,
      eq_iff managed_label infra_label,
      lookup-insert managed_label infra_label hcp.infra_id
          (insert managed_label "karpenter" owned.labels),
      lookup-insert managed_label managed_label "karpenter" owned.labels,
    );
  }

  write_subnets-calls :
      (hcp : HostedControlPlane) (ids : List String) (w : deps.World)
      → ((ids ≡ [])
          × ((write_subnets deps hcp ids w).2
              ≡ (delete_if_needed deps (config_map "karpenter-subnets") w).2))
        ⊎ ((ids ≢ [])
            × ((write_subnets deps hcp ids w).2
                ≡ wrote_config_map "karpenter-subnets"
                    (fill_config_map deps hcp ids)
                    (deps.create_or_update_config_map "karpenter-subnets"
                      (fill_config_map deps hcp ids)
                      w).0
                  ∷ []))
  unfolding write_subnets
  write_subnets-calls hcp [] w = inl (
    refl,
    elim (Result-cases (delete_if_needed deps (config_map "karpenter-subnets") w).0) [
      | inr (e, bad) ↦ rw bad refl
      | inl (exists, good) ↦ rw good (append-nil _)
    ],
  )
  write_subnets-calls hcp (id ∷ ids) w = inr (λ e. cc, refl)

  -- Once the NodeClasses are listed, either some of them that is not being deleted has resolved a subnet
  -- whose id is not empty, and the run sends a change of the ConfigMap; from a ConfigMap that can be owned
  -- the change makes one with the JSON list of exactly the ids of such subnets under `subnetIDs`, and with
  -- the labels. Or there is no such id, and the run only sees to the ConfigMap's deletion.
  pub reconcile_karpenter_subnets_config_map-Live :
      (sorted_set_iff : (id : String) (ids : List String)
        → Memᴰ id (deps.sorted_set ids) ↔ Memᴰ id ids)
      (hcp : HostedControlPlane) (node_classes : List OpenshiftEc2NodeClass) (w w1 : deps.World)
      (old owned : ConfigMap)
      → deps.list_openshift_node_classes w ≡ (ok node_classes, w1)
      → deps.own_config_map hcp old ≡ ok owned
      → (AreLive [] node_classes
          × ((reconcile_karpenter_subnets_config_map deps hcp w).2
              ≡ listed_node_classes (ok node_classes)
                ∷ (delete_if_needed deps (config_map "karpenter-subnets") w1).2))
        ⊎ ((change : ConfigMap → Result ConfigMap) × ((reconcile_karpenter_subnets_config_map deps
                hcp w).2
              ≡ listed_node_classes (ok node_classes)
                ∷ wrote_config_map "karpenter-subnets" change
                    (deps.create_or_update_config_map "karpenter-subnets" change w1).0
                ∷ [])
            × Lists hcp node_classes (change old))
  unfolding reconcile_karpenter_subnets_config_map
  reconcile_karpenter_subnets_config_map-Live sorted_set_iff hcp node_classes w w1 old owned h own =
      let gathered = subnet_ids node_classes in
      let ids = deps.sorted_set gathered in
      let live : AreLive ids node_classes = λ id.
        let (f, g) = sorted_set_iff id gathered in
        let (f', g') = subnet_ids_iff id node_classes in (λ m. f' (f m), λ l. g (g' l)) in
      elim (write_subnets-calls hcp ids w1) [
        | inl (empty, calls) ↦ inl (
          subst (λ l. AreLive l node_classes) empty live,
          rw h (ap (λ (t : List Event). listed_node_classes (ok node_classes) ∷ t) calls),
        )
        | inr (some_, calls) ↦ inr (
          fill_config_map deps hcp ids,
          rw h (ap (λ (t : List Event). listed_node_classes (ok node_classes) ∷ t) calls),
          fill_config_map-Lists hcp node_classes ids old owned own live some_,
        )
      ]
