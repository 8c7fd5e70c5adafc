-- ===== src/Ec2/Kubelet/Json.antt =====
-- api/karpenter/v1/kubelet_config.go: UnmarshalJSON and MarshalJSON, which carry fields that the type does
-- not have from the NodeClass to the node.
use openshift_karpenter_oper.Base.{
  String, ◌≡◌, ◌≢◌, none, List, [], ◌∷◌, Result, ok, contains, true, ◌⊎◌, is_empty, if◌then◌else◌,
  ◌==◌, string_eq,
}
use openshift_karpenter_oper.Base.Checked.{◌>>=◌}
use openshift_karpenter_oper.Base.Dict.{Dict, lookup, insert, erase}
use openshift_karpenter_oper.Ec2.Types.{KubeletConfiguration}

-- `kubeletConfigKnownFields`: the keys in the tags of the typed fields.
abbrev pub kubelet_config_known_fields : List String
kubelet_config_known_fields =
    "maxPods" ∷ "podsPerCore" ∷ "systemReserved" ∷ "kubeReserved" ∷ "evictionHard" ∷ "evictionSoft"
    ∷ "evictionSoftGracePeriod" ∷ "evictionMaxPodGracePeriod" ∷ "imageGCHighThresholdPercent"
    ∷ "imageGCLowThresholdPercent" ∷ "cpuCFSQuota" ∷ []

-- encoding/json on texts, on objects with raw values, and on the typed fields (`Alias`).
pub record Json : Type 1 where
  pub Raw : Type 0
  pub decode_object : String → Result (Dict String Raw)
  pub encode_object : Dict String Raw → Result String
  pub decode_fields : String → Result KubeletConfiguration
  pub encode_fields : KubeletConfiguration → Result String

-- What is documented of it: an object is encoded, to a text that is not empty and that decodes to the same
-- object; the typed fields are encoded to an object that has no other key than theirs.
pub record IsLawful (json : Json) : Type 0 where
  pub object :
      (m : Dict String json.Raw)
      → (text : String) × (back : Dict String json.Raw) × (json.encode_object m ≡ ok text)
        × (text ≢ "")
        × (json.decode_object text ≡ ok back)
        × ((key : String) → lookup key back ≡ lookup key m)
  pub fields :
      (k : KubeletConfiguration)
      → (text : String) × (typed : Dict String json.Raw) × (json.encode_fields k ≡ ok text)
        × (json.decode_object text ≡ ok typed)
        × ((key : String)
            → (contains kubelet_config_known_fields key ≡ true) ⊎ (lookup key typed ≡ none))

-- `delete(raw, key)` for each key.
unfoldable pub erase_all {ℓ} : {V : Type ℓ} → List String → Dict String V → Dict String V
erase_all [] raw = raw
erase_all (key ∷ keys) raw = erase key (erase_all keys raw)

-- The loop of `MarshalJSON`, over a map and thus in any order.
unfoldable pub merge {ℓ} : {V : Type ℓ} → Dict String V → Dict String V → Dict String V
merge overflow [] = overflow
merge overflow ((key, val) ∷ structured) = insert key val (merge overflow structured)

module _ (json : Json) where
  -- The overflow of `UnmarshalJSON`: what is left of the object.
  unfoldable pub overflow_of : Dict String json.Raw → Result String
  overflow_of raw = if is_empty raw then ok "" else json.encode_object raw

  -- `UnmarshalJSON`
  unfoldable pub unmarshal_json : String → Result KubeletConfiguration
  unmarshal_json text = do
    typed ← json.decode_fields text
    raw ← json.decode_object text
    overflow ← overflow_of (erase_all kubelet_config_known_fields raw)
    ok (record typed { overflow = overflow })

  -- `MarshalJSON`
  unfoldable pub marshal_json : KubeletConfiguration → Result String
  marshal_json k = json.encode_fields k >>= λ text. if k.overflow == "" then ok text else do
    overflow_map ← json.decode_object k.overflow
    structured ← json.decode_object text
    json.encode_object (merge overflow_map structured)
