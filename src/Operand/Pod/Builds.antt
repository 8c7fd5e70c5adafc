-- ===== src/Operand/Pod/Builds.antt =====
-- pkg/controllers/karpenter/deployment.go: when a Deployment can be built.
use openshift_karpenter_oper.Base.{
  ℕ, ◌+◌, zero, suc, ◌≡◌, refl, true, Option, none, some, String, List, [], ◌∷◌, Result, ok, err,
  is_ok, wrapped,
}
use openshift_karpenter_oper.Base.Checked.{bind-is_ok}
use openshift_karpenter_oper.Options.{ℤ, pos, negsuc}
use openshift_karpenter_oper.Options.Valid.{GoodUid}
use openshift_karpenter_oper.Operand.{OwnerRef, OperandConfig}
use openshift_karpenter_oper.Operand.Convert.{
  Codec, Codecs, to_apply_configuration, convert_from, apply_configurations, env_vars, volumes,
  volume_mounts, init_containers,
}
use openshift_karpenter_oper.Operand.Pod.{
  pod_security_context, build_env, build_pod_spec, build_deployment,
}

-- encoding/json converts every value of the type.
abbrev pub Converts : {In Out : Type 0} → Codec In Out → Type 0
Converts {In} codec = (x : In) → is_ok (to_apply_configuration codec x) ≡ true

pub record Total (codecs : Codecs) : Type 0 where
  pub env : Converts codecs.env
  pub volume : Converts codecs.volume
  pub volume_mount : Converts codecs.volume_mount
  pub init_container : Converts codecs.init_container

wrapped-is_ok :
    {A : Type 0} (text : String) (r : Result A) → is_ok r ≡ true → is_ok (wrapped text r) ≡ true
wrapped-is_ok text (ok a) h = refl
wrapped-is_ok text (err e) h = h

module _ {In Out : Type 0} (codec : Codec In Out) (total : Converts codec) where
  convert_from-is_ok :
      (field : String) (i : ℕ) (xs : List In) → is_ok (convert_from codec field i xs) ≡ true
  unfolding convert_from
  convert_from-is_ok field i [] = refl
  convert_from-is_ok field i (x ∷ xs) =
      bind-is_ok _ _ (wrapped-is_ok _ (to_apply_configuration codec x) (total x))
        λ y. bind-is_ok _ _ (convert_from-is_ok field (i + 1) xs) λ ys. refl

  apply_configurations-is_ok :
      (field : String) (xs : List In) → is_ok (apply_configurations codec xs field) ≡ true
  unfolding apply_configurations
  apply_configurations-is_ok field xs = convert_from-is_ok field 0 xs

pod_security_context-is_ok :
    (uid : Option ℤ) → GoodUid uid → is_ok (pod_security_context uid) ≡ true
unfolding pod_security_context
pod_security_context-is_ok none good = refl
pod_security_context-is_ok (some (pos zero)) good = absurd good
pod_security_context-is_ok (some (pos (suc n))) good = refl
pod_security_context-is_ok (some (negsuc n)) good = absurd good

module _ (codecs : Codecs) (total : Total codecs) (cfg : OperandConfig)
    (good : GoodUid cfg.default_security_context_uid) where
  build_pod_spec-is_ok : is_ok (build_pod_spec codecs cfg) ≡ true
  unfolding build_pod_spec build_env env_vars volumes volume_mounts init_containers
  build_pod_spec-is_ok =
      let envs = apply_configurations-is_ok codecs.env total.env "env" in
      let mounts =
        apply_configurations-is_ok codecs.volume_mount total.volume_mount "volumeMount" in
      let vols = apply_configurations-is_ok codecs.volume total.volume "volume" in
      bind-is_ok _ _ (bind-is_ok _ _ (envs _) λ e. refl) λ env.
        bind-is_ok _ _ (mounts _) λ cloud_mounts. bind-is_ok _ _ (mounts _) λ additional_mounts.
          bind-is_ok _ _ (vols _) λ cloud_vols. bind-is_ok _ _ (vols _) λ additional_vols.
            bind-is_ok _ _ (envs _) λ additional_env.
              bind-is_ok _ _
                (apply_configurations-is_ok codecs.init_container total.init_container
                  "initContainer" _)
                λ inits. bind-is_ok _ _ (pod_security_context-is_ok _ good) λ security. refl

  -- A Deployment is built where the user of its pods is good and each value can be converted.
  pub build_deployment-is_ok : (owner : OwnerRef) → is_ok (build_deployment codecs cfg owner) ≡ true
  unfolding build_deployment
  build_deployment-is_ok owner = bind-is_ok _ _ build_pod_spec-is_ok λ spec. refl
