-- ===== src/StartUp/Hosted.antt =====
-- pkg/operator/operator.go on a management cluster: from checked settings to a running operand.
use mathlib.Core.List.Memᴰ.{append_right}
use openshift_karpenter_oper.Base.{
  String, ◌≡◌, refl, ◌∙◌, sym, ap, Bool, true, false, not, ◌&&◌, Option, none, some, List, [], ◌∷◌,
  map, Memᴰ, Result, ok, is_ok, ok-injective, wrapped, any, any-append, arith, Bool-cases, inl, inr,
  string_eq, ◌!=◌, if◌then◌else◌,
}
use mathlib.Core.Path.{subst}
use openshift_karpenter_oper.Base.Checked.{bind-elim}
use openshift_karpenter_oper.Kube.{HostedControlPlane}
use openshift_karpenter_oper.Options.{Options, validate}
use openshift_karpenter_oper.Options.Valid.{validate_iff, GoodUid}
use openshift_karpenter_oper.CloudProvider.{
  Assets, CloudProvider, InfrastructureInfo, Environment, HcpNodeClassProvider, NodeClassController,
}
use openshift_karpenter_oper.CloudProvider.Select.{get_cloud_provider}
use openshift_karpenter_oper.Operand.Convert.{Codecs}
use openshift_karpenter_oper.Operand.Pod.Builds.{Total, build_deployment-is_ok}
use openshift_karpenter_oper.Operand.Hcp.{HcpControllerConfig, operand_config}
use openshift_karpenter_oper.Operand.Hcp.Planned.{built}
use openshift_karpenter_oper.StartUp.{
  Infrastructure, Config, Controller, crd, node_class, hcp_karpenter, ocp_karpenter,
  cluster_operator, discover_infrastructure_from_env, overridden, is_platform_supported,
  resolve_controller_config, new_hcp_node_class_provider, hcp_config, karpenter_crds,
  node_class_controllers, hosted_controllers, new_controllers, run_with, run_on, run, reporter,
}

-- A controller of standalone clusters.
abbrev pub is_standalone : Controller → Bool
is_standalone (ocp_karpenter _) = true
is_standalone (cluster_operator _) = true
is_standalone _ = false

if-true : {A : Type 0} (b : Bool) → b ≡ true → (x y : A) → (if b then x else y) ≡ x
if-true true h x y = refl
if-true false h x y = absurd (cc)

if-false : {A : Type 0} (b : Bool) → b ≡ false → (x y : A) → (if b then x else y) ≡ y
if-false true h x y = absurd (cc)
if-false false h x y = refl

managed-supported :
    (managed : Bool) (platform : String)
    → managed ≡ true
    → not (is_platform_supported managed platform) ≡ false
unfolding is_platform_supported
managed-supported managed platform h = ground arith

-- The settings that override are those that were discovered.
overridden-name :
    (o : Options) → (overridden o (discover_infrastructure_from_env o)).infra_name ≡ o.cluster_name
unfolding overridden discover_infrastructure_from_env
overridden-name o = ground arith

overridden-endpoint :
    (o : Options)
    → (overridden o (discover_infrastructure_from_env o)).cluster_endpoint ≡ o.cluster_endpoint
unfolding overridden discover_infrastructure_from_env
overridden-endpoint o = ground arith

map-standalone :
    (controllers : List NodeClassController)
    → any is_standalone (map node_class controllers) ≡ false
map-standalone [] = refl
map-standalone (c ∷ more) = map-standalone more

node_class_controllers-standalone :
    (provider : Option HcpNodeClassProvider)
    → any is_standalone (node_class_controllers provider) ≡ false
unfolding node_class_controllers
node_class_controllers-standalone none = refl
node_class_controllers-standalone (some provider) = map-standalone provider.controllers

module _ (env : Environment) (assets : Assets) where
  -- What a management cluster is given.
  pub record HostedStart (o : Options) (codecs : Codecs) (controllers : List Controller)
      : Type 0 where
    pub config : HcpControllerConfig
    pub started : Memᴰ (hcp_karpenter config) controllers
    pub hosted_only : any is_standalone controllers ≡ false
    pub namespace : config.namespace ≡ o.namespace
    pub cluster_name : config.cluster_name ≡ o.cluster_name
    pub cluster_endpoint : config.cluster_endpoint ≡ o.cluster_endpoint
    pub token_minter_image : config.token_minter_image ≡ o.token_minter_image
    pub builds : (hcp : HostedControlPlane) → is_ok (built config codecs hcp) ≡ true

  abbrev crds : Config → Controller
  crds cfg = crd (karpenter_crds assets cfg (new_hcp_node_class_provider cfg))

  new_controllers-hosted :
      (cfg : Config)
      → cfg.management_cluster ≡ true
      → crds cfg ∷ hosted_controllers cfg ≡ new_controllers env assets cfg
  unfolding new_controllers
  new_controllers-hosted cfg managed =
      ap (λ (rest : List Controller). crds cfg ∷ rest)
        (sym (if-true cfg.management_cluster managed (hosted_controllers cfg) _))

  hosted-member : (cfg : Config) → Memᴰ (hcp_karpenter (hcp_config cfg)) (hosted_controllers cfg)
  unfolding hosted_controllers
  hosted-member cfg =
      append_right (node_class_controllers (new_hcp_node_class_provider cfg)) (Memᴰ.head refl)

  hosted-standalone : (cfg : Config) → any is_standalone (hosted_controllers cfg) ≡ false
  unfolding hosted_controllers
  hosted-standalone cfg =
      any-append is_standalone (node_class_controllers (new_hcp_node_class_provider cfg)) _
      ∙ ground (arith, node_class_controllers-standalone (new_hcp_node_class_provider cfg))

  hosted_start :
      (o : Options) (codecs : Codecs) (infra : InfrastructureInfo) (provider : CloudProvider)
      (hosted : Bool) {controllers : List Controller}
      → o.management_cluster ≡ true
      → GoodUid o.default_security_context_uid
      → Total codecs
      → infra.infra_name ≡ o.cluster_name
      → infra.cluster_endpoint ≡ o.cluster_endpoint
      → new_controllers env assets
          (record (resolve_controller_config o infra provider) { hosted_cluster = hosted })
        ≡ controllers
      → HostedStart o codecs controllers
  unfolding resolve_controller_config hcp_config built operand_config
  hosted_start o codecs infra provider hosted managed good total name endpoint e =
      let cfg = record (resolve_controller_config o infra provider) { hosted_cluster = hosted } in
      subst (HostedStart o codecs) e (record {
        config = hcp_config cfg;
        started =
            subst (Memᴰ (hcp_karpenter (hcp_config cfg))) (new_controllers-hosted cfg managed)
              (Memᴰ.tail (hosted-member cfg));
        hosted_only =
            subst (λ (cs : List Controller). any is_standalone cs ≡ false)
              (new_controllers-hosted cfg managed) (hosted-standalone cfg);
        namespace = refl;
        cluster_name = name;
        cluster_endpoint = endpoint;
        token_minter_image = refl;
        builds = λ hcp. build_deployment-is_ok codecs total _ good _;
      })

  run_with-HostedStart :
      (o : Options) (codecs : Codecs) (infra : InfrastructureInfo) (cluster : Result (Unit {0}))
      (provider : CloudProvider) {controllers : List Controller}
      → o.management_cluster ≡ true
      → GoodUid o.default_security_context_uid
      → Total codecs
      → infra.infra_name ≡ o.cluster_name
      → infra.cluster_endpoint ≡ o.cluster_endpoint
      → run_with env assets o infra cluster provider ≡ ok controllers
      → HostedStart o codecs controllers
  unfolding run_with resolve_controller_config
  run_with-HostedStart o codecs infra cluster provider {controllers} managed good total name
        endpoint h =
      elim (Bool-cases (o.target_kubeconfig != "" && o.management_cluster)) [
        | inl hosted ↦
            bind-elim (wrapped "creating hosted cluster" cluster) _ (rw hosted at h) λ u e same.
              hosted_start o codecs infra provider true managed good total name endpoint
                (ok-injective _ controllers same)
        | inr alone ↦
            hosted_start o codecs infra provider false managed good total name endpoint
              (ok-injective _ controllers (rw alone at h))
      ]

  -- On a management cluster, with settings that pass `Validate`, a start that succeeds runs the controller of
  -- the hosted operand, with the namespace, the cluster's name and endpoint and the token minter's image of
  -- the settings, and none of the controllers of standalone clusters. That controller can build the operand's
  -- Deployment for every HostedControlPlane: the user of its pods, once checked, is no reason to fail. It is
  -- assumed that encoding/json converts the few API objects involved.
  pub run-HostedStart :
      (o : Options) (answer : Result Infrastructure) (load cluster : Result (Unit {0}))
      (codecs : Codecs) {controllers : List Controller}
      → validate o ≡ ok tt
      → o.management_cluster ≡ true
      → Total codecs
      → run env assets o answer load cluster ≡ ok controllers
      → HostedStart o codecs controllers
  unfolding run run_on
  run-HostedStart o answer load cluster codecs valid managed total h =
      let good = ((validate_iff o).0 valid).0 in
      let discovered = discover_infrastructure_from_env o in
      let infra = overridden o discovered in
      let on =
        sym (if-true o.management_cluster managed (run_on env assets o load cluster discovered) _)
        ∙ h in
      let supported = managed-supported o.management_cluster infra.platform_type managed in
      let provided = sym (if-false _ supported (ok (reporter o infra.platform_type)) _) ∙ on in
      bind-elim (wrapped "initializing cloud provider" (get_cloud_provider env load assets infra)) _
        provided
        λ provider e same.
          run_with-HostedStart o codecs infra cluster provider managed good total
            (overridden-name o) (overridden-endpoint o) same
