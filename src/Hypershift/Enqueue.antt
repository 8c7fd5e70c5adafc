-- ===== src/Hypershift/Enqueue.antt =====
-- pkg/hypershift/userdatasecret.go: the Secret that is read for a NodeClass is the one whose events enqueue it.
use mathlib.Core.Path.{subst}
use openshift_karpenter_oper.Base.{
  String, ◌<>◌, ◌≡◌, true, none, some, List, [], ◌∷◌, ap, arith, ok, select, All, string_eq,
  after_first, after_first-append, cut_suffix-append, char-append, select-All, Memᴰ,
}
use openshift_karpenter_oper.Kube.{Secret}
use openshift_karpenter_oper.Hypershift.UserData.{
  is_user_data_secret, one_secret, expected_node_pool, map_user_data_secret_to_node_class,
  karpenter_node_pool_suffix,
}

expected_node_pool_lem :
    (namespace node_class : String)
    → expected_node_pool namespace node_class
      ≡ namespace <> String.◌∷◌ "/" (node_class <> karpenter_node_pool_suffix)
unfolding expected_node_pool
expected_node_pool_lem namespace node_class =
    ap (λ (s : String). namespace <> s) (char-append "/" (node_class <> karpenter_node_pool_suffix))

one_secret-eq-ok :
    (P : Secret → Type 0) (node_class : String) (items : List Secret) (secret : Secret)
    → All P items
    → one_secret node_class items ≡ ok secret
    → P secret
unfolding one_secret
one_secret-eq-ok P node_class [] secret h e = cc
one_secret-eq-ok P node_class (s ∷ []) secret h e = let same : s ≡ secret = cc in subst P same h.0
one_secret-eq-ok P node_class (s ∷ t ∷ items) secret h e = cc

-- The Secret that `GetUserDataSecret` picks for a NodeClass is mapped back to that NodeClass by the
-- watch, whatever its name, if the namespace has no slash, as no namespace has.
pub map_user_data_secret-get :
    (namespace node_class : String) (items : List Secret) (secret : Secret)
    → after_first "/" namespace ≡ none
    → one_secret node_class (select (is_user_data_secret namespace node_class) items) ≡ ok secret
    → Memᴰ secret items × (map_user_data_secret_to_node_class secret ≡ some node_class)
unfolding map_user_data_secret_to_node_class is_user_data_secret
map_user_data_secret-get namespace node_class items secret free picked =
    let (member, fits) =
      one_secret-eq-ok (λ s. Memᴰ s items × (is_user_data_secret namespace node_class s ≡ true))
        node_class _ secret (select-All _ items) picked in
    (
      member,
      ground (
        arith,
        expected_node_pool_lem namespace node_class,
        after_first-append "/" namespace (node_class <> karpenter_node_pool_suffix) free,
        cut_suffix-append node_class karpenter_node_pool_suffix,
      ),
    )
