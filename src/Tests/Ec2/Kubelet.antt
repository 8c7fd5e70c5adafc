-- ===== src/Tests/Ec2/Kubelet.antt =====
-- api/karpenter/v1/kubelet_config.go, read and written with a small stand-in for encoding/json.
use Prim.Native.Char.{Char, code}
use Prim.Native.String.{count}
use package.text.Mathlib.TextLemmas.{length-cons}
use openshift_karpenter_oper.Base.{
  ℕ, zero, suc, String, ◌≡◌, refl, ◌≢◌, ap, true, false, Option, none, some, List, [], ◌∷◌, ok,
  contains, string_eq, nat_eq, ◌==◌, arith, Bool-cases, inl, inr, ◌⊎◌,
}
use openshift_karpenter_oper.Base.Dict.{Dict, lookup, erase}
use openshift_karpenter_oper.Ec2.Types.{KubeletConfiguration}
use openshift_karpenter_oper.Ec2.Kubelet.Json.{
  Json, IsLawful, kubelet_config_known_fields, erase_all, overflow_of, unmarshal_json,
}
use openshift_karpenter_oper.Ec2.Kubelet.PassThrough.{Written, marshal-unmarshal}

-- A text in front of another: each character behind an `x`, and an `e` at the end.
put : String → String → String
put String.[] rest = String.◌∷◌ "e" rest
put (String.◌∷◌ c s) rest = String.◌∷◌ "x" (String.◌∷◌ c (put s rest))

add_head : Char → List String → List String
add_head c [] = []
add_head c (s ∷ more) = String.◌∷◌ c s ∷ more

texts : String → List String
unfolding nat_eq
texts String.[] = []
texts (String.◌∷◌ c String.[]) = "" ∷ []
texts (String.◌∷◌ c (String.◌∷◌ d s)) = elim (code c == 101) [
  | true ↦ "" ∷ texts (String.◌∷◌ d s)
  | false ↦ add_head d (texts s)
]

texts-put : (s rest : String) → texts (put s rest) ≡ s ∷ texts rest
unfolding texts put add_head nat_eq
texts-put String.[] String.[] = refl
texts-put String.[] (String.◌∷◌ d rest) = refl
texts-put (String.◌∷◌ c s) rest = ap (add_head c) (texts-put s rest)

put_all : Dict String String → String
put_all [] = ""
put_all ((k, v) ∷ m) = put k (put v (put_all m))

pairs : List String → Dict String String
pairs (k ∷ v ∷ more) = (k, v) ∷ pairs more
pairs (k ∷ []) = []
pairs [] = []

pairs-put_all : (m : Dict String String) → pairs (texts (put_all m)) ≡ m
unfolding pairs put_all texts
pairs-put_all [] = refl
pairs-put_all ((k, v) ∷ m) =
    rw (texts-put k (put v (put_all m)), texts-put v (put_all m))
      (ap (λ (r : Dict String String). (k, v) ∷ r) (pairs-put_all m))

decoded : String → Dict String String
decoded String.[] = []
decoded (String.◌∷◌ _ s) = pairs (texts s)

abbrev unset : KubeletConfiguration
unset = record {
  max_pods = 0;
  pods_per_core = 0;
  system_reserved = none;
  kube_reserved = none;
  eviction_hard = none;
  eviction_soft = none;
  eviction_soft_grace_period = none;
  eviction_max_pod_grace_period = none;
  image_gc_high_threshold_percent = none;
  image_gc_low_threshold_percent = none;
  cpu_cfs_quota = none;
  overflow = "";
}

marks : ℕ → String
marks zero = ""
marks (suc n) = String.◌∷◌ "1" (marks n)

written_fields : ℕ → Dict String String
written_fields zero = []
written_fields (suc n) = ("maxPods", marks (suc n)) ∷ []

read_max_pods : Option String → ℕ
read_max_pods none = 0
read_max_pods (some v) = count v

-- Of the typed fields it knows `maxPods`, written in marks.
abbrev json : Json
json = record {
  Raw = String;
  decode_object = λ text. ok (decoded text);
  encode_object = λ m. ok (String.◌∷◌ "o" (put_all m));
  decode_fields =
      λ text. ok (record unset { max_pods = read_max_pods (lookup "maxPods" (decoded text)) });
  encode_fields = λ k. ok (String.◌∷◌ "o" (put_all (written_fields k.max_pods)));
}

written_fields-known :
    (n : ℕ) (key : String)
    → (contains kubelet_config_known_fields key ≡ true) ⊎ (lookup key (written_fields n) ≡ none)
unfolding written_fields lookup
written_fields-known zero key = inr refl
written_fields-known (suc n) key = elim (Bool-cases (key == "maxPods")) [
  | inl here ↦ inl (ground arith)
  | inr other ↦ inr (ground arith)
]

nonempty : (s : String) → String.◌∷◌ "o" s ≢ ""
nonempty s e = omega (arith, ap count e, length-cons "o" s)

json-IsLawful : IsLawful json
unfolding decoded
json-IsLawful = record {
  object = λ m. (
    String.◌∷◌ "o" (put_all m),
    m,
    refl,
    nonempty (put_all m),
    ap ok (pairs-put_all m),
    λ key. refl,
  );
  fields = λ k. (
    String.◌∷◌ "o" (put_all (written_fields k.max_pods)),
    written_fields k.max_pods,
    refl,
    ap ok (pairs-put_all (written_fields k.max_pods)),
    written_fields-known k.max_pods,
  );
}

-- An object with a typed field and one that the type does not know.
abbrev given : Dict String String
given = ("maxPods", "11") ∷ ("registryBurst", "20") ∷ []

abbrev text : String
text = String.◌∷◌ "o" (put_all given)

abbrev read : KubeletConfiguration
read = record unset {
  max_pods = 2;
  overflow = String.◌∷◌ "o" (put_all (("registryBurst", "20") ∷ []));
}

read_ok : unmarshal_json json text ≡ ok read
unfolding unmarshal_json overflow_of erase_all erase lookup string_eq decoded pairs texts put
    put_all add_head nat_eq read_max_pods
read_ok = refl

marshal-unmarshal_example :
    Written json json-IsLawful given read
    × ((typed : KubeletConfiguration) × (json.decode_fields text ≡ ok typed)
        × (read ≡ record typed { overflow = read.overflow }))
unfolding decoded pairs
marshal-unmarshal_example =
    marshal-unmarshal json json-IsLawful text read_ok (ap ok (pairs-put_all given))
