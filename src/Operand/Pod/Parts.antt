-- ===== src/Operand/Pod/Parts.antt =====
-- pkg/controllers/karpenter/deployment.go: a pod that was built, taken apart.
use openshift_karpenter_oper.Base.{◌≡◌, refl, List, ◌++◌, ok, ok-injective}
use mathlib.Core.Path.{subst}
use openshift_karpenter_oper.Base.Checked.{bind-eq-ok, bind-elim}
use openshift_karpenter_oper.CloudProvider.{Volume, VolumeMount}
use openshift_karpenter_oper.Operand.{OwnerRef, EnvVarApply, PodSpec, Deployment, OperandConfig}
use openshift_karpenter_oper.Operand.Convert.{
  Codecs, env_vars, volumes, volume_mounts, init_containers,
}
use openshift_karpenter_oper.Operand.Pod.{
  pod_security_context, container, common_env, build_env, build_pod_spec, deployment_of,
  build_deployment,
}

-- The conversions behind a pod, all of which have succeeded.
pub record Parts (codecs : Codecs) (cfg : OperandConfig) (spec : PodSpec) : Type 0 where
  pub cloud_env : List EnvVarApply
  pub additional_env : List EnvVarApply
  pub cloud_mounts : List VolumeMount
  pub additional_mounts : List VolumeMount
  pub cloud_vols : List Volume
  pub additional_vols : List Volume
  pub cloud_env_ok : env_vars codecs cfg.cloud_provider.operand_config.env ≡ ok cloud_env
  pub additional_env_ok : env_vars codecs cfg.additional_env ≡ ok additional_env
  pub cloud_mounts_ok :
      volume_mounts codecs cfg.cloud_provider.operand_config.volume_mounts ≡ ok cloud_mounts
  pub additional_mounts_ok :
      volume_mounts codecs cfg.additional_volume_mounts ≡ ok additional_mounts
  pub cloud_vols_ok : volumes codecs cfg.cloud_provider.operand_config.volumes ≡ ok cloud_vols
  pub additional_vols_ok : volumes codecs cfg.additional_volumes ≡ ok additional_vols
  pub inits_ok : init_containers codecs cfg.additional_init_containers ≡ ok spec.init_containers
  pub security_ok : pod_security_context cfg.default_security_context_uid ≡ ok spec.security_context
  pub container_eq :
      spec.container
      ≡ container cfg
          ((common_env cfg ++ cloud_env) ++ additional_env)
          (cloud_mounts ++ additional_mounts)
  pub volumes_eq : spec.volumes ≡ cloud_vols ++ additional_vols

module _ (codecs : Codecs) (cfg : OperandConfig) where
  pub build_pod_spec-Parts :
      {spec : PodSpec} → build_pod_spec codecs cfg ≡ ok spec → Parts codecs cfg spec
  unfolding build_pod_spec build_env
  build_pod_spec-Parts {spec} h =
      let cloud = cfg.cloud_provider.operand_config in
      bind-elim (build_env codecs cfg cloud) _ h λ env e0 h0.
        bind-elim (env_vars codecs cloud.env) _ e0 λ cloud_env c same.
          bind-elim (volume_mounts codecs cloud.volume_mounts) _ h0 λ cloud_mounts e1 h1.
            bind-elim (volume_mounts codecs cfg.additional_volume_mounts) _ h1
              λ additional_mounts e2 h2.
                bind-elim (volumes codecs cloud.volumes) _ h2 λ cloud_vols e3 h3.
                  bind-elim (volumes codecs cfg.additional_volumes) _ h3 λ additional_vols e4 h4.
                    bind-elim (env_vars codecs cfg.additional_env) _ h4 λ additional_env e5 h5.
                      bind-elim (init_containers codecs cfg.additional_init_containers) _ h5
                        λ inits e6 h6.
                          bind-elim (pod_security_context cfg.default_security_context_uid) _ h6
                            λ security e7 h7.
                              let env_eq : common_env cfg ++ cloud_env ≡ env =
                                ok-injective _ env same in
                              subst (Parts codecs cfg) (ok-injective _ spec h7) (record {
                                cloud_env = cloud_env;
                                additional_env = additional_env;
                                cloud_mounts = cloud_mounts;
                                additional_mounts = additional_mounts;
                                cloud_vols = cloud_vols;
                                additional_vols = additional_vols;
                                cloud_env_ok = c;
                                additional_env_ok = e5;
                                cloud_mounts_ok = e1;
                                additional_mounts_ok = e2;
                                cloud_vols_ok = e3;
                                additional_vols_ok = e4;
                                inits_ok = e6;
                                security_ok = e7;
                                container_eq = rw (← env_eq) refl;
                                volumes_eq = refl;
                              })

  -- A Deployment that was built, and its pods.
  pub build_deployment-eq-ok :
      (owner : OwnerRef) {dep : Deployment}
      → build_deployment codecs cfg owner ≡ ok dep
      → (spec : PodSpec) × (build_pod_spec codecs cfg ≡ ok spec)
        × (deployment_of cfg owner spec ≡ dep)
  unfolding build_deployment
  build_deployment-eq-ok owner h =
      let (spec, built, same) = bind-eq-ok (build_pod_spec codecs cfg) _ h in
      (spec, built, ok-injective _ _ same)
