-- ===== src/StartUp.antt =====
-- pkg/operator/operator.go and pkg/controllers/controllers.go: which controllers the operator starts, and
-- with which settings.
pub mod Hosted
use openshift_karpenter_oper.Base.{
  ℕ, String, ◌<>◌, Bool, true, false, not, ◌&&◌, ◌||◌, Option, none, some, List, [], ◌∷◌, ◌++◌, map,
  Result, ok, err, message, wrapped, if◌then◌else◌, ◌==◌, ◌!=◌, string_eq, get_or, is_some,
}
use openshift_karpenter_oper.Base.Checked.{◌>>=◌}
use openshift_karpenter_oper.Options.{ℤ, Options}
use openshift_karpenter_oper.CloudProvider.{
  CustomResourceDefinition, NodeClassController, HcpNodeClassProvider, Assets, CloudProvider,
  InfrastructureInfo, Environment,
}
use openshift_karpenter_oper.CloudProvider.Select.{get_cloud_provider}
use openshift_karpenter_oper.Operand.Hcp.{HcpControllerConfig}
use openshift_karpenter_oper.Operand.Ocp.{OcpControllerConfig, operand_image_pull_policy}
use openshift_karpenter_oper.ClusterOperator.{ControllerConfig}

-- `configv1.Infrastructure`, the fields of its status that are read.
pub record Infrastructure : Type 0 where
  pub platform_status : Option (String × Option String)
  pub infrastructure_name : String
  pub api_server_internal_url : String

-- `controllers.Config`. Of the hosted cluster it is said whether there is one.
pub record Config : Type 0 where
  pub namespace : String
  pub karpenter_image : String
  pub cluster_name : String
  pub cluster_endpoint : String
  pub release_version : String
  pub management_cluster : Bool
  pub cloud_provider : CloudProvider
  pub hosted_cluster : Bool
  pub token_minter_image : String
  pub default_security_context_uid : Option ℤ

-- The controllers, with the settings that are theirs alone.
pub data Controller : Type 0 where
  crd : List CustomResourceDefinition → Controller
  default_node_class : Controller
  node_class : NodeClassController → Controller
  hcp_karpenter : HcpControllerConfig → Controller
  auto_node_status hcp_deletion machine_approver : Controller
  ocp_karpenter : OcpControllerConfig → Controller
  cluster_operator : ControllerConfig → Controller

-- `discoverInfrastructureFromEnv`
unfoldable pub discover_infrastructure_from_env : Options → InfrastructureInfo
discover_infrastructure_from_env o = record {
  platform_type = o.platform;
  region = o.region;
  infra_name = o.cluster_name;
  cluster_endpoint = o.cluster_endpoint;
}

unfoldable pub infrastructure_info : Infrastructure → Result InfrastructureInfo
infrastructure_info infra = elim infra.platform_status [
  | none ↦ err (message "infrastructure status.platformStatus is nil")
  | some (platform, aws_region) ↦
      if infra.infrastructure_name == ""
      then err (message "infrastructure status.infrastructureName is empty")
      else ok (record {
        platform_type = platform;
        region = get_or aws_region "";
        infra_name = infra.infrastructure_name;
        cluster_endpoint = infra.api_server_internal_url;
      })
]

-- `discoverInfrastructure`, by the answer to its read.
unfoldable pub discover_infrastructure : Result Infrastructure → Result InfrastructureInfo
unfolding infrastructure_info
discover_infrastructure answer = wrapped "getting Infrastructure CR" answer >>= infrastructure_info

-- The settings that override what was discovered, in `Run`.
unfoldable pub overridden : Options → InfrastructureInfo → InfrastructureInfo
overridden o infra = record infra {
  infra_name = if o.cluster_name != "" then o.cluster_name else infra.infra_name;
  cluster_endpoint =
      if o.cluster_endpoint != "" then o.cluster_endpoint else infra.cluster_endpoint;
}

-- `isPlatformSupported`
unfoldable pub is_platform_supported : Bool → String → Bool
is_platform_supported management_cluster platform = management_cluster || platform == "AWS"

-- `ResolveControllerConfig`
unfoldable pub resolve_controller_config : Options → InfrastructureInfo → CloudProvider → Config
resolve_controller_config o infra provider = record {
  namespace = o.namespace;
  karpenter_image = provider.karpenter_image;
  cluster_name = infra.infra_name;
  cluster_endpoint = infra.cluster_endpoint;
  release_version = o.release_version;
  management_cluster = o.management_cluster;
  cloud_provider = provider;
  hosted_cluster = false;
  token_minter_image = o.token_minter_image;
  default_security_context_uid = o.default_security_context_uid;
}

-- `newHCPNodeClassProvider`
unfoldable pub new_hcp_node_class_provider : Config → Option HcpNodeClassProvider
new_hcp_node_class_provider cfg =
    if not cfg.management_cluster || not cfg.hosted_cluster
    then none
    else cfg.cloud_provider.hcp_node_class_provider

-- `karpenterCRDs`
unfoldable pub karpenter_crds :
    Assets → Config → Option HcpNodeClassProvider → List CustomResourceDefinition
karpenter_crds assets cfg none = assets.core_crds ++ cfg.cloud_provider.crds
karpenter_crds assets cfg (some provider) =
    (assets.core_crds ++ cfg.cloud_provider.crds) ++ provider.crds

-- `newMachineApproverController`, whether it is not nil.
unfoldable pub approves_machines : Config → Bool
approves_machines cfg = cfg.hosted_cluster && cfg.cloud_provider.has_node_identity_verifier

-- The settings of the operand's controllers, in `NewControllers`. The pull policy is set by
-- `NewOCPController`.
unfoldable pub hcp_config : Config → HcpControllerConfig
hcp_config cfg = record {
  namespace = cfg.namespace;
  karpenter_image = cfg.karpenter_image;
  cluster_name = cfg.cluster_name;
  cluster_endpoint = cfg.cluster_endpoint;
  cloud_provider = cfg.cloud_provider;
  token_minter_image = cfg.token_minter_image;
  default_security_context_uid = cfg.default_security_context_uid;
}

unfoldable pub ocp_config : Environment → Assets → Config → OcpControllerConfig
ocp_config env assets cfg = record {
  namespace = cfg.namespace;
  karpenter_image = cfg.karpenter_image;
  cluster_name = cfg.cluster_name;
  cluster_endpoint = cfg.cluster_endpoint;
  cloud_provider = cfg.cloud_provider;
  core_rbac = assets.core_rbac;
  image_pull_policy = operand_image_pull_policy env;
}

unfoldable pub node_class_controllers : Option HcpNodeClassProvider → List Controller
node_class_controllers none = []
node_class_controllers (some provider) = default_node_class ∷ map node_class provider.controllers

-- The controllers of a management cluster.
unfoldable pub hosted_controllers : Config → List Controller
unfolding node_class_controllers
hosted_controllers cfg =
    node_class_controllers (new_hcp_node_class_provider cfg)
    ++ (hcp_karpenter (hcp_config cfg)
        ∷ ((if cfg.hosted_cluster then auto_node_status ∷ hcp_deletion ∷ [] else [])
            ++ (if approves_machines cfg then machine_approver ∷ [] else [])))

-- Those of a standalone cluster.
unfoldable pub standalone_controllers : Environment → Assets → Config → List Controller
standalone_controllers env assets cfg =
    ocp_karpenter (ocp_config env assets cfg)
    ∷ cluster_operator (record {
      namespace = cfg.namespace;
      release_version = cfg.release_version;
      additional_related_objects = cfg.cloud_provider.related_objects;
      unsupported_platform = none;
    })
    ∷ []

-- `NewControllers`
unfoldable pub new_controllers : Environment → Assets → Config → List Controller
unfolding hosted_controllers standalone_controllers
new_controllers env assets cfg =
    crd (karpenter_crds assets cfg (new_hcp_node_class_provider cfg))
    ∷ (if cfg.management_cluster
        then hosted_controllers cfg
        else standalone_controllers env assets cfg)

-- The controllers of `runClusterOperatorReporter`.
unfoldable pub reporter : Options → String → List Controller
reporter o platform =
    cluster_operator (record {
      namespace = o.namespace;
      release_version = o.release_version;
      additional_related_objects = [];
      unsupported_platform = some platform;
    })
    ∷ []

module _ (env : Environment) (assets : Assets) where
  -- The rest of `Run`, with the cloud's provider. `cluster` is the answer of what builds the client of the
  -- hosted cluster, from a kubeconfig. What builds the manager is left out: with an error of it nothing starts.
  unfoldable pub run_with :
      Options → InfrastructureInfo → Result (Unit {0}) → CloudProvider → Result (List Controller)
  run_with o infra cluster provider =
      let cfg = resolve_controller_config o infra provider in
      if o.target_kubeconfig != "" && o.management_cluster
      then (do
        _ ← wrapped "creating hosted cluster" cluster
        ok (new_controllers env assets (record cfg { hosted_cluster = true })))
      else ok (new_controllers env assets cfg)

  -- `Run` once the infrastructure is known. `load` is the answer of the AWS library.
  unfoldable pub run_on :
      Options
      → Result (Unit {0})
      → Result (Unit {0})
      → InfrastructureInfo
      → Result (List Controller)
  unfolding run_with
  run_on o load cluster discovered =
      let infra = overridden o discovered in
      if not (is_platform_supported o.management_cluster infra.platform_type)
      then ok (reporter o infra.platform_type)
      else (do
        provider ← wrapped "initializing cloud provider" (get_cloud_provider env load assets infra)
        run_with o infra cluster provider)

  -- `Run`, up to the start of the manager: the controllers that it is given.
  unfoldable pub run :
      Options
      → Result Infrastructure
      → Result (Unit {0})
      → Result (Unit {0})
      → Result (List Controller)
  unfolding run_on
  run o answer load cluster =
      if o.management_cluster
      then run_on o load cluster (discover_infrastructure_from_env o)
      else (wrapped "discovering infrastructure" (discover_infrastructure answer)
          >>= run_on o load cluster)
