-- ===== src/Tests/Operand.antt =====
-- Runs of pkg/controllers/karpenter on a cluster that takes what is applied.
use openshift_karpenter_oper.Base.{
  ℕ, ◌≡◌, refl, true, false, none, some, [], ◌∷◌, Result, ok, err, arith, string_eq, All, inl,
  is_ok, length,
}
use openshift_karpenter_oper.Base.Dict.{lookup}
use openshift_karpenter_oper.Kube.{HostedControlPlane}
use openshift_karpenter_oper.Hypershift.UserData.{updated}
use openshift_karpenter_oper.Options.{pos}
use openshift_karpenter_oper.CloudProvider.{CloudProvider, EnvVar, RbacAssets, Role}
use openshift_karpenter_oper.CloudProvider.Aws
use openshift_karpenter_oper.Operand.Convert.{
  Codec, Codecs, to_apply_configuration, convert_from, apply_configurations, env_vars, volumes,
  volume_mounts, init_containers,
}
use openshift_karpenter_oper.Operand.Pod.{
  build_deployment, build_pod_spec, build_env, pod_security_context,
}
use openshift_karpenter_oper.Operand.Pod.Keys.{Faithful, pod_fits}
use openshift_karpenter_oper.Operand.Apply.{
  Deps, apply_service_account, apply_deployment, apply_object,
}
use openshift_karpenter_oper.Operand.Rollout.{Agree, planned, Fits}
use openshift_karpenter_oper.Operand.Fits.{deployments-fit}
use openshift_karpenter_oper.Operand.Hcp
use openshift_karpenter_oper.Operand.Hcp.{HcpControllerConfig, hcp_operand_reconcile_predicate}
use openshift_karpenter_oper.Operand.Hcp.Planned as HcpPlanned
use openshift_karpenter_oper.Operand.Hcp.Planned.{reconcile-hosted}
use openshift_karpenter_oper.Operand.Hcp.Unchanged.{hcp_operand_changed-unchanged}
use openshift_karpenter_oper.Operand.Hcp.Sound.{Sound, reconcile-Sound}
use openshift_karpenter_oper.Operand.Ocp
use openshift_karpenter_oper.Operand.Ocp.{Karpenter, OcpControllerConfig}
use openshift_karpenter_oper.Operand.Ocp.Planned as OcpPlanned
use openshift_karpenter_oper.Operand.Ocp.Planned.{reconcile-standalone}
use openshift_karpenter_oper.Operand.Ocp.Owned.{OwnedBy, reconcile-Owned}
use openshift_karpenter_oper.Tests.Objects.{hcp}

-- encoding/json, where a value's text is the value.
abbrev pub same : {A : Type 0} → Codec A A
same {A} = record { Text = A; marshal = ok; unmarshal = ok }

abbrev pub codecs : Codecs
codecs = record {
  env = record {
    Text = EnvVar;
    marshal = ok;
    unmarshal = λ v. ok (record { name = v.name; value = some v.value; field_path = none });
  };
  volume = same;
  volume_mount = same;
  init_container = same;
}

ok-same : {A : Type 0} {x y : A} → to_apply_configuration (same {A = A}) x ≡ ok y → y ≡ x
unfolding to_apply_configuration
ok-same h = cc

codecs-Faithful : Faithful codecs
unfolding to_apply_configuration
codecs-Faithful = record {
  env = λ x y h. ground arith;
  volume = λ x y h. ground arith;
  volume_mount = λ x y h. ground arith;
  init_container = λ x y h. ground arith;
}

abbrev pub no_assets : RbacAssets
no_assets = record {
  roles = [];
  role_bindings = [];
  cluster_roles = [];
  cluster_role_bindings = [];
}

abbrev role : Role
role = record { name = "karpenter"; labels = []; rules = [] }

abbrev assets : RbacAssets
assets = record {
  roles = role ∷ [];
  role_bindings =
      record {
        name = "karpenter";
        role_ref = record {
          api_group = "rbac.authorization.k8s.io";
          kind = "Role";
          name = "karpenter";
        };
        subjects =
            record { kind = "ServiceAccount"; name = "karpenter"; api_group = ""; namespace = "" }
            ∷ [];
      }
      ∷ [];
  cluster_roles = role ∷ [];
  cluster_role_bindings = [];
}

abbrev aws : CloudProvider
aws = record {
  hcp_node_class_provider = none;
  crds = [];
  has_node_identity_verifier = true;
  karpenter_image = "karpenter:1";
  operand_config = Aws.operand_config "us-east-1";
  rbac = record no_assets { cluster_roles = role ∷ [] };
  related_objects = [];
}

abbrev hosted : HcpControllerConfig
hosted = record {
  namespace = "clusters-one";
  karpenter_image = "karpenter:1";
  cluster_name = "one";
  cluster_endpoint = "https://api.one";
  cloud_provider = aws;
  token_minter_image = "minter:1";
  default_security_context_uid = some (pos 1001);
}

abbrev standalone : OcpControllerConfig
standalone = record {
  namespace = "openshift-karpenter";
  karpenter_image = "karpenter:1";
  cluster_name = "two";
  cluster_endpoint = "https://api.two";
  cloud_provider = aws;
  core_rbac = assets;
  image_pull_policy = "IfNotPresent";
}

abbrev karp : Karpenter
karp = record { name = "default"; uid = "9f"; annotations = []; log_level = "debug" }

-- A server that counts what it is asked.
abbrev serves : {Owner : Type 0} → Owner → Deps Owner
serves {Owner} owner = record {
  World = ℕ;
  get = λ w. (ok owner, w);
  apply = λ o w. (ok tt, w);
  codecs = codecs;
}

abbrev cluster : Deps HostedControlPlane
cluster = serves hcp

abbrev ocp : Deps Karpenter
ocp = serves karp

abbrev ready : HostedControlPlane
ready = record hcp { deletion_timestamp = some 900 }

passed : hcp_operand_reconcile_predicate (updated hcp ready) ≡ false
unfolding hcp_operand_reconcile_predicate Hcp.hcp_operand_changed lookup string_eq
passed = refl

hcp_operand_changed-unchanged_example :
    Hcp.after_get hosted cluster (ok ready) 0 ≡ Hcp.after_get hosted cluster (ok hcp) 0
hcp_operand_changed-unchanged_example =
    hcp_operand_changed-unchanged hosted cluster hcp ready 0 refl refl passed

reconcile-hosted_example :
    Agree cluster
      (Hcp.reconcile hosted cluster 0)
      (planned cluster (HcpPlanned.plan hosted codecs) 0)
reconcile-hosted_example = reconcile-hosted hosted cluster 0

reconcile-standalone_example :
    Agree ocp (Ocp.reconcile standalone ocp 0) (planned ocp (OcpPlanned.plan standalone codecs) 0)
reconcile-standalone_example = reconcile-standalone standalone ocp 0

reconcile-Sound_example :
    All (Fits cluster (Sound hosted (ok hcp)) (ok hcp)) (Hcp.reconcile hosted cluster 0).2
reconcile-Sound_example = reconcile-Sound hosted cluster 0

reconcile-Owned_example :
    All (Fits ocp (OwnedBy standalone (ok karp)) (ok karp)) (Ocp.reconcile standalone ocp 0).2
reconcile-Owned_example = reconcile-Owned standalone ocp 0

pub value_of : {A : Type 0} (r : Result A) → is_ok r ≡ true → A
value_of (ok a) h = a
value_of (err e) h = absurd (cc)

pub of_value : {A : Type 0} (r : Result A) (h : is_ok r ≡ true) → r ≡ ok (value_of r h)
unfolding value_of
of_value (ok a) h = refl
of_value (err e) h = absurd (cc)

hosted_builds : is_ok (HcpPlanned.built hosted codecs hcp) ≡ true
unfolding HcpPlanned.built Hcp.operand_config build_deployment build_pod_spec build_env env_vars
    volumes volume_mounts init_containers apply_configurations convert_from to_apply_configuration
    pod_security_context Aws.operand_config
hosted_builds = refl

standalone_builds : is_ok (OcpPlanned.built standalone codecs karp) ≡ true
unfolding OcpPlanned.built Ocp.operand_config build_deployment build_pod_spec build_env env_vars
    volumes volume_mounts init_containers apply_configurations convert_from to_apply_configuration
    pod_security_context Aws.operand_config
standalone_builds = refl

deployments-fit_example :
    (pod_fits (value_of (HcpPlanned.built hosted codecs hcp) hosted_builds).pod_spec ≡ true)
    × (pod_fits (value_of (OcpPlanned.built standalone codecs karp) standalone_builds).pod_spec
        ≡ true)
deployments-fit_example =
    deployments-fit codecs hosted hcp standalone karp codecs-Faithful (inl ("us-east-1", refl))
      (inl ("us-east-1", refl)) (of_value (HcpPlanned.built hosted codecs hcp) hosted_builds)
      (of_value (OcpPlanned.built standalone codecs karp) standalone_builds)

-- A user id of root stops the rollout behind the ServiceAccount.
abbrev as_root : HcpControllerConfig
as_root = record hosted { default_security_context_uid = some (pos 0) }

root_is_refused : length (Hcp.reconcile as_root cluster 0).2 ≡ 2
unfolding Hcp.reconcile Hcp.after_get Hcp.reconcile_hcp Hcp.deploy Hcp.operand_image
    Hcp.image_or_override Hcp.operand_config lookup string_eq apply_service_account apply_deployment
    apply_object build_deployment build_pod_spec build_env env_vars volumes volume_mounts
    init_containers apply_configurations convert_from to_apply_configuration pod_security_context
    Aws.operand_config
root_is_refused = refl
