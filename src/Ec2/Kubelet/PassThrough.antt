-- ===== src/Ec2/Kubelet/PassThrough.antt =====
-- api/karpenter/v1/kubelet_config.go: fields without a type pass through.
use mathlib.Core.Path.{subst}
use openshift_karpenter_oper.Base.{
  String, ◌≡◌, refl, ◌∙◌, sym, ap, true, Option, none, some, List, [], ◌∷◌, ok, ok-injective,
  contains, is_empty, if◌then◌else◌, ◌==◌, string_eq, arith, Bool-cases, inl, inr, ◌⊎◌,
}
use openshift_karpenter_oper.Base.Checked.{bind-elim}
use openshift_karpenter_oper.Base.Dict.{
  Dict, lookup, lookup-insert, lookup-erase, lookup-nil, lookup-cons,
}
use openshift_karpenter_oper.Ec2.Types.{KubeletConfiguration}
use openshift_karpenter_oper.Ec2.Kubelet.Json.{
  Json, IsLawful, kubelet_config_known_fields, erase_all, merge, overflow_of, unmarshal_json,
  marshal_json,
}

module _ {ℓ} {V : Type ℓ} where
  lookup-erase_all :
      (key : String) (keys : List String) (raw : Dict String V)
      → lookup key (erase_all keys raw) ≡ (if contains keys key then none else lookup key raw)
  unfolding erase_all
  lookup-erase_all key [] raw = refl
  lookup-erase_all key (k ∷ keys) raw =
      ground (arith, lookup-erase key k (erase_all keys raw), lookup-erase_all key keys raw)

  lookup-empty : (key : String) (m : Dict String V) → is_empty m ≡ true → lookup key m ≡ none
  lookup-empty key [] h = lookup-nil key
  lookup-empty key (_ ∷ m) h = absurd (cc)

  -- A structured field wins over one of the overflow.
  abbrev or_else : Option V → Option V → Option V
  or_else none b = b
  or_else (some a) b = some a

  lookup-merge :
      (key : String) (overflow structured : Dict String V)
      → lookup key (merge overflow structured)
        ≡ or_else (lookup key structured) (lookup key overflow)
  unfolding merge
  lookup-merge key overflow [] = rw (lookup-nil {V = V} key) refl
  lookup-merge key overflow ((k, v) ∷ structured) =
      rw (lookup-insert key k v (merge overflow structured), lookup-cons key k v structured)
        (elim (Bool-cases (key == k)) [
          | inl here ↦ rw here refl
          | inr there ↦ rw there (lookup-merge key overflow structured)
        ])

  module _ (known : List String) (raw typed : Dict String V) (key : String)
      (only : (contains known key ≡ true) ⊎ (lookup key typed ≡ none)) where
    -- The field under a key, of the two objects that are put together.
    abbrev field : Option V
    field = if contains known key then lookup key typed else lookup key raw

    field_merged :
        (over : Dict String V)
        → lookup key over ≡ lookup key (erase_all known raw)
        → lookup key (merge over typed) ≡ field
    field_merged over same = elim (Bool-cases (contains known key)) [
      | inl is_known ↦
          rw (lookup-merge key over typed, same, lookup-erase_all key known raw, is_known)
            (ground arith)
      | inr other ↦ ground (arith, lookup-merge key over typed, lookup-erase_all key known raw)
    ]

    field_typed : is_empty (erase_all known raw) ≡ true → lookup key typed ≡ field
    field_typed empty =
        ground (arith, lookup-erase_all key known raw, lookup-empty key (erase_all known raw) empty)

module _ (json : Json) (laws : IsLawful json) where
  -- What a configuration is written as: an object with the typed fields of the configuration and, under
  -- every other key, what stood there in the object that it was read from.
  pub record Written (raw : Dict String json.Raw) (k : KubeletConfiguration) : Type 0 where
    pub typed_text : String
    pub typed : Dict String json.Raw
    pub text : String
    pub back : Dict String json.Raw
    pub typed_encoded : json.encode_fields k ≡ ok typed_text
    pub typed_decoded : json.decode_object typed_text ≡ ok typed
    pub marshalled : marshal_json json k ≡ ok text
    pub decoded : json.decode_object text ≡ ok back
    pub fields :
        (key : String)
        → lookup key back
          ≡ (if contains kubelet_config_known_fields key then lookup key typed else lookup key raw)

  -- Without overflow the typed fields are all.
  typed-Written :
      (raw : Dict String json.Raw) (k : KubeletConfiguration)
      → k.overflow ≡ ""
      → is_empty (erase_all kubelet_config_known_fields raw) ≡ true
      → Written raw k
  unfolding marshal_json
  typed-Written raw k none_left empty =
      let (typed_text, typed, encoded, decoded, only) = laws.fields k in
      record {
        typed_text = typed_text;
        typed = typed;
        text = typed_text;
        back = typed;
        typed_encoded = encoded;
        typed_decoded = decoded;
        marshalled = ground arith;
        decoded = decoded;
        fields = λ key. field_typed kubelet_config_known_fields raw typed key (only key) empty;
      }

  rest-Written :
      (raw : Dict String json.Raw) (k : KubeletConfiguration)
      → json.encode_object (erase_all kubelet_config_known_fields raw) ≡ ok k.overflow
      → Written raw k
  unfolding marshal_json
  rest-Written raw k overflow =
      let rest = erase_all kubelet_config_known_fields raw in
      let (typed_text, typed, encoded, decoded, only) = laws.fields k in
      let (o, over, o_encoded, o_nonempty, o_decoded, o_same) = laws.object rest in
      let same : o ≡ k.overflow = ok-injective o k.overflow (sym o_encoded ∙ overflow) in
      let (text, back, t_encoded, t_nonempty, t_decoded, t_same) = laws.object (merge over typed) in
      record {
        typed_text = typed_text;
        typed = typed;
        text = text;
        back = back;
        typed_encoded = encoded;
        typed_decoded = decoded;
        marshalled = rw (encoded, ← same) (ground (arith));
        decoded = t_decoded;
        fields = λ key.
            t_same key
            ∙ field_merged kubelet_config_known_fields raw typed key (only key) over (o_same key);
      }

  overflow-Written :
      (raw : Dict String json.Raw) (k : KubeletConfiguration)
      → overflow_of json (erase_all kubelet_config_known_fields raw) ≡ ok k.overflow
      → Written raw k
  unfolding overflow_of
  overflow-Written raw k h =
      elim (Bool-cases (is_empty (erase_all kubelet_config_known_fields raw))) [
        | inl empty ↦ typed-Written raw k (sym (ok-injective "" k.overflow (rw empty at h))) empty
        | inr more ↦ rest-Written raw k (rw more at h)
      ]

  -- A kubelet configuration that was read from an object can be written again, and no field is lost: under
  -- each key that the type does not know the new object has what the old one had, or nothing as it had, and
  -- under the known keys it has the typed fields as encoding/json writes them, which are those that it had
  -- read. Of encoding/json it is assumed that objects can be encoded and decoded again, and that the typed
  -- fields have no other keys than theirs.
  pub marshal-unmarshal :
      (text : String) {k : KubeletConfiguration} {raw : Dict String json.Raw}
      → unmarshal_json json text ≡ ok k
      → json.decode_object text ≡ ok raw
      → Written raw k
        × ((typed : KubeletConfiguration) × (json.decode_fields text ≡ ok typed)
            × (k ≡ record typed { overflow = k.overflow }))
  unfolding unmarshal_json
  marshal-unmarshal text {k} {raw} h object = bind-elim (json.decode_fields text) _ h λ typed e h1.
      bind-elim (json.decode_object text) _ h1 λ raw' e' h2.
        bind-elim (overflow_of json (erase_all kubelet_config_known_fields raw')) _ h2 λ o eo h3.
          let same : record typed { overflow = o } ≡ k = ok-injective _ k h3 in
          let there : raw' ≡ raw = ok-injective raw' raw (sym e' ∙ object) in
          let over : o ≡ k.overflow = ap (λ (c : KubeletConfiguration). c.overflow) same in
          (
            overflow-Written raw k (
                subst
                  (λ r. overflow_of json (erase_all kubelet_config_known_fields r) ≡ ok k.overflow)
                  there (eo ∙ ap ok over)),
            (typed, e, sym same ∙ ap (λ (t : String). record typed { overflow = t }) over),
          )
