-- ===== src/Tests/DefaultNodeClass.antt =====
-- A change of pkg/controllers/nodeclass/default/controller.go's object that asks for nothing.
use openshift_karpenter_oper.Base.{ℕ, ◌≡◌, refl, false, some, [], ◌∷◌, ok, string_eq}
use openshift_karpenter_oper.Base.Dict.{lookup}
use openshift_karpenter_oper.Kube.{HostedControlPlane}
use openshift_karpenter_oper.Hypershift.UserData.{updated}
use openshift_karpenter_oper.Ec2.Types.{OpenshiftEc2NodeClassSpec}
use openshift_karpenter_oper.DefaultNodeClass.{Deps, default_spec, hcp_predicate, reconcile_hcp}
use openshift_karpenter_oper.DefaultNodeClass.Desired.{hcp_predicate-unchanged}
use openshift_karpenter_oper.Tests.Objects.{hcp}

abbrev aws : Deps
aws = record {
  World = ℕ;
  NodeClass = OpenshiftEc2NodeClassSpec;
  provider = some λ infra_id. ok (some (default_spec infra_id));
  create_or_update = some λ node_class w. (ok tt, w);
  list_hosted_control_planes = λ w. (ok (hcp ∷ []), w);
}

abbrev deleting : HostedControlPlane
deleting = record hcp { deletion_timestamp = some 900 }

passed : hcp_predicate (updated hcp deleting) ≡ false
unfolding hcp_predicate lookup string_eq
passed = refl

hcp_predicate-unchanged_example : reconcile_hcp aws deleting 0 ≡ reconcile_hcp aws hcp 0
hcp_predicate-unchanged_example = hcp_predicate-unchanged aws hcp deleting 0 passed
