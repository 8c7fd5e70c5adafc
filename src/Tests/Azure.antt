-- ===== src/Tests/Azure.antt =====
-- Runs of pkg/controllers/nodeclass/azure/controller.go on a hosted cluster whose AKSNodeClass is gone.
use openshift_karpenter_oper.Base.{
  ◌≡◌, refl, String, true, false, none, some, [], ◌∷◌, ok, err, api, not_found, any, string_eq,
  nat_eq,
}
use openshift_karpenter_oper.Kube.{Secret}
use openshift_karpenter_oper.Hypershift.{
  waits_for_control_plane_upgrade, is_control_plane_upgrading, last_completed,
}
use openshift_karpenter_oper.Ec2.Types.{no_kubelet}
use openshift_karpenter_oper.Azure.Types.{
  OpenshiftAzureNodeClass, AksNodeClass, aks_node_class_spec, desired_spec,
}
use openshift_karpenter_oper.Azure.Controller.{
  Deps, finalizer, reconcile, reconcile_delete, after_delete, patch_node_class_finalizers,
}
use openshift_karpenter_oper.Azure.Gone.{releases, answers_gone, reconcile-answers_gone}
use openshift_karpenter_oper.Azure.Settled.{desired_spec-settled}
use openshift_karpenter_oper.Tests.Objects.{hcp, plain, plain-IsLawful}
use openshift_karpenter_oper.Tests.NodeClass.{in_place}

abbrev node_class : OpenshiftAzureNodeClass
node_class = record {
  name = "default";
  generation = 1;
  deletion_timestamp = none;
  finalizers = finalizer ∷ [];
  spec = record {
    vnet_subnet_id = "subnet";
    os_disk_size_gib = 0;
    tags = none;
    kubelet = record no_kubelet { max_pods = 110 };
    host_encryption = "Enabled";
    version = "";
  };
  status = record { conditions = []; release_image = ""; version = "" };
}

abbrev user_data : String → Secret
user_data token = record {
  name = "user-data";
  labels = ("hypershift.openshift.io/azure-marketplace-sku", "aro_421") ∷ [];
  annotations = [];
  contents = ("value", token) ∷ [];
}

abbrev unset : AksNodeClass
unset = record {
  name = "default";
  owner = none;
  spec = aks_node_class_spec node_class.spec;
  conditions = [];
}

-- A cluster whose state is the OpenShiftAzureNodeClass.
abbrev hosted : Deps
hosted = record {
  World = OpenshiftAzureNodeClass;
  finalizers = plain;
  conditions = in_place;
  same_conditions = λ a b. false;
  own = λ o aks. ok aks;
  get = λ n w. (ok w, w);
  patch_finalizers = λ n fs w. (ok tt, record w { finalizers = fs });
  delete_aks = λ n w. (err (api not_found), w);
  list_hosted_control_planes = λ w. (ok (hcp ∷ []), w);
  list_secrets = λ w. (ok (user_data "#first" ∷ []), w);
  create_or_update_aks = λ n change w. (change unset, w);
  patch_status = λ n l w. (ok tt, w);
}

abbrev doomed : OpenshiftAzureNodeClass
doomed = record node_class { deletion_timestamp = some 5 }

released :
    any (releases hosted "default") (reconcile hosted "clusters-one" "default" doomed).2 ≡ true
unfolding reconcile reconcile_delete after_delete patch_node_class_finalizers string_eq
released = refl

reconcile-answers_gone_example :
    any (answers_gone hosted "default") (reconcile hosted "clusters-one" "default" doomed).2 ≡ true
reconcile-answers_gone_example =
    reconcile-answers_gone hosted "default" plain-IsLawful "clusters-one" "default" doomed released

-- The disk has the default size, and the hosts encrypt.
defaults :
    (aks_node_class_spec node_class.spec).os_disk_size_gb ≡ some 120
    × (aks_node_class_spec node_class.spec).encryption_at_host ≡ some true
unfolding aks_node_class_spec nat_eq string_eq
defaults = (refl, refl)

upgrading : waits_for_control_plane_upgrade hcp node_class.spec.version ≡ true
unfolding waits_for_control_plane_upgrade is_control_plane_upgrading last_completed string_eq
upgrading = refl

desired_spec-settled_example :
    let first = desired_spec node_class hcp (user_data "#first") unset.spec in
    desired_spec node_class hcp (user_data "#rotated") first ≡ first
desired_spec-settled_example =
    desired_spec-settled node_class hcp (user_data "#first") (user_data "#rotated") unset.spec
      upgrading
