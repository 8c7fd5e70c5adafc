-- ===== src/Tests/Hypershift.antt =====
-- Lookups of pkg/hypershift on concrete objects.
use text.Mathlib.TextEquality.{eq_iff}
use openshift_karpenter_oper.Base.{
  ◌≡◌, refl, true, some, [], ◌∷◌, arith, string_eq, after_first, Memᴰ,
}
use openshift_karpenter_oper.Base.Dict.{lookup}
use openshift_karpenter_oper.Kube.{Secret}
use openshift_karpenter_oper.Hypershift.{waits_for_control_plane_upgrade}
use openshift_karpenter_oper.Hypershift.UserData.{
  one_secret, is_user_data_secret, expected_node_pool, map_user_data_secret_to_node_class,
  token_secret_node_pool_annotation, token_secret_annotation,
}
use openshift_karpenter_oper.Hypershift.Upgrade.{waits_iff}
use openshift_karpenter_oper.Hypershift.Enqueue.{map_user_data_secret-get}
use openshift_karpenter_oper.Tests.Objects.{hcp}

waits_iff_example : waits_for_control_plane_upgrade hcp "" ≡ true
unfolding string_eq
waits_iff_example = (waits_iff hcp "").1 (
  refl,
  ground (arith, eq_iff "release:4.21" ""),
  record {
    newer = record { state = "Partial"; image = "release:4.21"; version = "4.21" } ∷ [];
    entry = record { state = "Completed"; image = "release:4.20"; version = "4.20" };
    older = [];
    ordered = refl;
    pending = (ground (arith, eq_iff "Partial" "Completed"), tt);
    completed = refl;
  },
  ground (arith, eq_iff "release:4.20" "release:4.21"),
)

abbrev token : Secret
token = record {
  name = "token-a";
  labels = [];
  annotations =
      (token_secret_node_pool_annotation, "clusters-one/a-karpenter")
      ∷ (token_secret_annotation, "true")
      ∷ [];
  contents = [];
}

abbrev user_data : Secret
user_data = record token {
  name = "user-data-a";
  annotations = (token_secret_node_pool_annotation, "clusters-one/a-karpenter") ∷ [];
}

map_user_data_secret-get_example :
    Memᴰ user_data (token ∷ user_data ∷ [])
    × (map_user_data_secret_to_node_class user_data ≡ some "a")
unfolding one_secret is_user_data_secret expected_node_pool string_eq lookup after_first
map_user_data_secret-get_example =
    map_user_data_secret-get "clusters-one" "a" (token ∷ user_data ∷ []) user_data refl refl
