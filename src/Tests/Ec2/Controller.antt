-- ===== src/Tests/Ec2/Controller.antt =====
-- Runs of pkg/controllers/nodeclass/ec2/controller.go on a hosted cluster without EC2NodeClasses.
use openshift_karpenter_oper.Base.{
  ◌≡◌, refl, ◌⊎◌, true, false, some, List, [], ◌∷◌, Result, ok, err, api, not_found, any, string_eq,
}
use openshift_karpenter_oper.Base.Dict.{lookup}
use openshift_karpenter_oper.Hypershift.{get_hosted_control_plane, one_hosted_control_plane}
use openshift_karpenter_oper.Ec2.Types.{OpenshiftEc2NodeClass}
use openshift_karpenter_oper.Ec2.Calls.{
  Deps, ConfigMap, config_map, wrote_config_map, listed_node_classes, finalizer,
}
use openshift_karpenter_oper.Ec2.Controller.{
  delete_if_needed, reconcile, reconcile_deleted, after_deletion, drop_finalizer,
  patch_node_class_finalizers, reconcile_karpenter_subnets_config_map, write_subnets, subnet_ids,
}
use openshift_karpenter_oper.Ec2.Controller.Deleted.{removes, says_gone, reconcile-gone}
use openshift_karpenter_oper.Ec2.Controller.Subnets.{
  AreLive, Lists, reconcile_karpenter_subnets_config_map-Live,
}
use openshift_karpenter_oper.Tests.Objects.{hcp, plain, plain-IsLawful}
use openshift_karpenter_oper.Tests.NodeClass.{in_place}
use openshift_karpenter_oper.Tests.Ec2.{provider, openshift, fresh, secret}

-- A cluster whose state is its OpenshiftEC2NodeClasses; there are no other objects.
abbrev bare : Deps
bare = record {
  World = List OpenshiftEc2NodeClass;
  finalizers = plain;
  provider = provider;
  conditions = in_place;
  remove_status_condition = λ l t. l;
  same_status = λ a b. false;
  own_ec2 = λ o e. ok e;
  own_config_map = λ h c. ok c;
  sorted_set = λ l. l;
  marshal = λ l. "[]";
  api_group = "karpenter.k8s.aws";
  list_hosted_control_planes = λ w. (ok (hcp ∷ []), w);
  list_secrets = λ w. (ok (secret ∷ []), w);
  get_openshift_node_class =
      λ n w. elim w [ [] ↦ (err (api not_found), []) | c ∷ l ↦ (ok c, c ∷ l) ];
  list_openshift_node_classes = λ w. (ok w, w);
  patch_finalizers = λ n fs w. (ok tt, w);
  patch_status = λ n s w. (ok tt, w);
  get = λ o w. (err (api not_found), w);
  delete = λ o w. (err (api not_found), w);
  create_or_update_ec2 = λ n change w. (change fresh, w);
  create_or_update_config_map = λ n change w. (ok tt, w);
  create_or_update_policy = λ n spec w. (ok tt, w);
  create_or_update_binding = λ n spec w. (ok tt, w);
}

abbrev deleted : OpenshiftEc2NodeClass
deleted = record openshift { deletion_timestamp = some 5; finalizers = finalizer ∷ [] }

removed :
    any (removes bare "default") (reconcile bare "clusters-one" "default" (deleted ∷ [])).2 ≡ true
unfolding reconcile get_hosted_control_plane one_hosted_control_plane reconcile_deleted
    delete_if_needed after_deletion drop_finalizer patch_node_class_finalizers
    reconcile_karpenter_subnets_config_map write_subnets subnet_ids string_eq lookup
removed = refl

reconcile-gone_example :
    any (says_gone bare "default") (reconcile bare "clusters-one" "default" (deleted ∷ [])).2 ≡ true
reconcile-gone_example =
    reconcile-gone bare "default" plain-IsLawful "clusters-one" "default" (deleted ∷ []) removed

abbrev placed : OpenshiftEc2NodeClass
placed = record openshift {
  status = record openshift.status {
    subnets = record { id = "subnet-1"; zone = ""; zone_id = "" } ∷ [];
  };
}

abbrev empty : ConfigMap
empty = record { labels = []; contents = [] }

reconcile_karpenter_subnets_config_map-Live_example :
    let log = (reconcile_karpenter_subnets_config_map bare hcp (placed ∷ deleted ∷ [])).2 in
    (AreLive [] (placed ∷ deleted ∷ [])
      × (log
          ≡ listed_node_classes (ok (placed ∷ deleted ∷ []))
            ∷ (delete_if_needed bare (config_map "karpenter-subnets") (placed ∷ deleted ∷ [])).2))
    ⊎ ((change : ConfigMap → Result ConfigMap) × (log
          ≡ listed_node_classes (ok (placed ∷ deleted ∷ []))
            ∷ wrote_config_map "karpenter-subnets" change (ok tt)
            ∷ [])
        × Lists bare hcp (placed ∷ deleted ∷ []) (change empty))
reconcile_karpenter_subnets_config_map-Live_example =
    reconcile_karpenter_subnets_config_map-Live bare (λ id ids. (λ m. m, λ m. m)) hcp
      (placed ∷ deleted ∷ []) (placed ∷ deleted ∷ []) (placed ∷ deleted ∷ []) empty empty refl refl
