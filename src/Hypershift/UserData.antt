-- ===== src/Hypershift/UserData.antt =====
-- pkg/hypershift/userdatasecret.go: the user data Secret of a NodeClass, and the NodeClass of a Secret.
use openshift_karpenter_oper.Base.{
  String, ◌<>◌, Bool, false, Option, none, List, [], ◌∷◌, M, Result, ok, err, wrap, message,
  user_data_secret_not_found, lift, context, ◌>>=◌, if◌then◌else◌, ◌==◌, ◌!=◌, string_eq, ◌&&◌,
  get_or, select, length, itoa, quote, after_first, cut_suffix,
}
use openshift_karpenter_oper.Base.Dict.{Dict, lookup}
use openshift_karpenter_oper.Kube.{Secret}

abbrev pub token_secret_annotation : String
token_secret_annotation = "hypershift.openshift.io/ignition-config"

abbrev pub token_secret_node_pool_annotation : String
token_secret_node_pool_annotation = "hypershift.openshift.io/nodePool"

abbrev pub managed_by_karpenter_label : String
managed_by_karpenter_label = "hypershift.openshift.io/managed-by-karpenter"

abbrev pub karpenter_node_pool_suffix : String
karpenter_node_pool_suffix = "-karpenter"

-- `m[key]` of a Go map of strings: the empty text where the key is missing.
abbrev pub get_text : String → Dict String String → String
get_text key m = get_or (lookup key m) ""

-- `karpenterNodePoolName`
unfoldable pub karpenter_node_pool_name : String → String
karpenter_node_pool_name node_class_name = node_class_name <> karpenter_node_pool_suffix

-- The key of the NodePool that `GetUserDataSecret` expects, `client.ObjectKey{…}.String()`.
unfoldable pub expected_node_pool : String → String → String
unfolding karpenter_node_pool_name
expected_node_pool namespace node_class_name =
    namespace <> ("/" <> karpenter_node_pool_name node_class_name)

-- The test of the loop of `GetUserDataSecret`.
unfoldable pub is_user_data_secret : String → String → Secret → Bool
is_user_data_secret namespace node_class_name secret =
    get_text token_secret_node_pool_annotation secret.annotations
      == expected_node_pool namespace node_class_name
    && get_text token_secret_annotation secret.annotations != "true"

-- The switch of `GetUserDataSecret` on the number of Secrets.
unfoldable pub one_secret : String → List Secret → Result Secret
one_secret node_class_name [] =
    err (wrap ("for NodeClass " <> quote node_class_name) user_data_secret_not_found)
one_secret node_class_name (secret ∷ []) = ok secret
one_secret node_class_name (secret ∷ other ∷ more) = err (
    message (
      "expected one user data secret for NodeClass "
      <> quote node_class_name
      <> ", found "
      <> itoa (length (secret ∷ other ∷ more))))

-- `GetUserDataSecret`, over the call that lists the Secrets of the namespace that match the selector.
unfoldable pub get_user_data_secret :
    {W E : Type 0} → M W E (List Secret) → String → String → M W E Secret
get_user_data_secret list namespace node_class_name = do
  items ← context "listing secrets" list
  lift (one_secret node_class_name (select (is_user_data_secret namespace node_class_name) items))

-- `karpenterSecretSelector.Matches`
unfoldable pub is_karpenter_secret : Dict String String → Bool
is_karpenter_secret labels = get_text managed_by_karpenter_label labels == "true"

-- The events that `KarpenterSecretPredicate` tells apart.
pub data WatchEvent (A : Type 0) : Type 0 where
  created : A → WatchEvent A
  updated : A → A → WatchEvent A
  deleted : A → WatchEvent A
  generic : A → WatchEvent A

-- `KarpenterSecretPredicate`
unfoldable pub karpenter_secret_predicate : WatchEvent Secret → Bool
karpenter_secret_predicate (created s) = is_karpenter_secret s.labels
karpenter_secret_predicate (updated _ s) = is_karpenter_secret s.labels
karpenter_secret_predicate (deleted _) = false
karpenter_secret_predicate (generic _) = false

-- `mapUserDataSecretToNodeClass`: the name of the NodeClass that is enqueued, if any.
unfoldable pub map_user_data_secret_to_node_class : Secret → Option String
map_user_data_secret_to_node_class secret =
    if get_text token_secret_annotation secret.annotations == "true"
    then none
    else let node_pool = get_text token_secret_node_pool_annotation secret.annotations in
      let node_pool_name = get_or (after_first "/" node_pool) "" in
      cut_suffix node_pool_name karpenter_node_pool_suffix
