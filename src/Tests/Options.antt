-- ===== src/Tests/Options.antt =====
-- Runs of pkg/operator/options.go on small environments.
use openshift_karpenter_oper.Base.{
  String, ◌≡◌, refl, ◌≢◌, ◌↔◌, true, false, none, some, [], ◌∷◌, ok, All, string_eq, nat_eq,
}
use openshift_karpenter_oper.Base.Dict.{Dict, lookup}
use openshift_karpenter_oper.Options.{
  Options, pos, negsuc, load_env, validate, parse_int, parse_bool, parse_management_cluster_env,
  parse_security_context_uid,
}
use openshift_karpenter_oper.Options.Valid.{required, unset, GoodUid, validate_iff}

abbrev bare : Options
bare = record {
  namespace = "openshift-karpenter";
  release_version = "";
  cluster_name = "";
  cluster_endpoint = "";
  platform = "";
  region = "";
  target_kubeconfig = "/kubeconfig";
  management_cluster = false;
  token_minter_image = "";
  default_security_context_uid = none;
  metrics_addr = "";
  probe_addr = "";
  leader_elect = false;
}

abbrev env : Dict String String
env =
    ("MANAGEMENT_CLUSTER", "true")
    ∷ ("PLATFORM", "AWS")
    ∷ ("REGION", "us-east-1")
    ∷ ("DEFAULT_SECURITY_CONTEXT_UID", "1001")
    ∷ []

abbrev hosted : Options
hosted = record bare {
  platform = "AWS";
  region = "us-east-1";
  management_cluster = true;
  default_security_context_uid = some (pos 1001);
}

negative : parse_int "-7" ≡ ok (negsuc 6)
unfolding parse_int nat_eq
negative = refl

loaded : load_env env bare ≡ ok hosted
unfolding load_env parse_management_cluster_env parse_security_context_uid parse_bool parse_int
    lookup string_eq nat_eq
loaded = refl

left_out : unset (required hosted) ≡ "CLUSTER_NAME" ∷ "CLUSTER_ENDPOINT" ∷ "TOKEN_MINTER_IMAGE" ∷ []
unfolding string_eq
left_out = refl

some_left_out : unset (required hosted) ≢ []
some_left_out = rw left_out (λ e. cc)

validate_iff_example : (validate bare ≡ ok tt) ↔ (
    GoodUid bare.default_security_context_uid
    × All (λ (s : String × String). s.1 ≢ "") (required bare))
validate_iff_example = validate_iff bare
