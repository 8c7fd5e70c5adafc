-- ===== src/Options.antt =====
-- pkg/operator/options.go: the settings of the operator, from its environment, and what they must hold.
pub mod Valid
use Prim.Native.Char.{Char, code}
use openshift_karpenter_oper.Base.{
  ℕ, zero, nat_eq, ◌+◌, ◌-◌, ◌*◌, ◌^◌, String, ◌<>◌, Bool, true, false, ◌&&◌, Option, none, some,
  List, [], ◌∷◌, ◌++◌, Result, ok, err, message, wrapped, if◌then◌else◌, ◌==◌, string_eq, contains,
  is_empty, leb, quote,
}
use openshift_karpenter_oper.Base.Dict.{Dict}
use openshift_karpenter_oper.Hypershift.UserData.{get_text}

-- An `int64`.
pub data ℤ : Type 0 where
  pos : ℕ → ℤ
  negsuc : ℕ → ℤ

abbrev pub release_version_env_name : String
release_version_env_name = "RELEASE_VERSION"

abbrev pub cluster_name_env_name : String
cluster_name_env_name = "CLUSTER_NAME"

abbrev pub cluster_endpoint_env_name : String
cluster_endpoint_env_name = "CLUSTER_ENDPOINT"

abbrev pub platform_env_name : String
platform_env_name = "PLATFORM"

abbrev pub region_env_name : String
region_env_name = "REGION"

abbrev pub management_cluster_env_name : String
management_cluster_env_name = "MANAGEMENT_CLUSTER"

abbrev pub token_minter_image_env_name : String
token_minter_image_env_name = "TOKEN_MINTER_IMAGE"

abbrev pub default_security_context_uid_env_name : String
default_security_context_uid_env_name = "DEFAULT_SECURITY_CONTEXT_UID"

pub record Options : Type 0 where
  pub namespace : String
  pub release_version : String
  pub cluster_name : String
  pub cluster_endpoint : String
  pub platform : String
  pub region : String
  pub target_kubeconfig : String
  pub management_cluster : Bool
  pub token_minter_image : String
  pub default_security_context_uid : Option ℤ
  pub metrics_addr : String
  pub probe_addr : String
  pub leader_elect : Bool

-- The texts that `strconv.ParseBool` takes.
abbrev pub true_texts : List String
true_texts = "1" ∷ "t" ∷ "T" ∷ "TRUE" ∷ "true" ∷ "True" ∷ []

abbrev pub false_texts : List String
false_texts = "0" ∷ "f" ∷ "F" ∷ "FALSE" ∷ "false" ∷ "False" ∷ []

-- `strconv.ParseBool`
unfoldable pub parse_bool : String → Result Bool
parse_bool text =
    if contains true_texts text
    then ok true
    else if contains false_texts text
    then ok false
    else err (message ("strconv.ParseBool: parsing " <> quote text <> ": invalid syntax"))

parse_digits : String → ℕ → Option ℕ
parse_digits String.[] n = some n
parse_digits (String.◌∷◌ c s) n =
    let rest = parse_digits s (n * 10 + (code c - 48)) in
    if leb 48 (code c) && leb (code c) 57 then rest else none

parse_magnitude : String → Option ℕ
parse_magnitude String.[] = none
parse_magnitude (String.◌∷◌ c s) = parse_digits (String.◌∷◌ c s) 0

-- The number a magnitude and a sign give, within the bounds of an `int64`.
signed : Bool → Option ℕ → Option ℤ
signed negative none = none
signed false (some n) = if leb n (2 ^ 63 - 1) then some (pos n) else none
signed true (some zero) = some (pos 0)
signed true (some n) = if leb n (2 ^ 63) then some (negsuc (n - 1)) else none

parse_sign : String → Option ℤ
parse_sign String.[] = none
parse_sign (String.◌∷◌ c s) =
    if code c == 45
    then signed true (parse_magnitude s)
    else if code c == 43
    then signed false (parse_magnitude s)
    else signed false (parse_magnitude (String.◌∷◌ c s))

-- `strconv.ParseInt(v, 10, 64)`
unfoldable pub parse_int : String → Result ℤ
unfolding parse_sign parse_magnitude parse_digits signed
parse_int text = elim (parse_sign text) [
  | some n ↦ ok n
  | none ↦ err (message ("strconv.ParseInt: parsing " <> quote text))
]

-- `ParseManagementClusterEnv`, in the given environment.
unfoldable pub parse_management_cluster_env : Dict String String → Result Bool
parse_management_cluster_env env =
    let v = get_text management_cluster_env_name env in
    if v == ""
    then ok false
    else wrapped ("invalid " <> management_cluster_env_name <> " value " <> quote v) (parse_bool v)

-- `parseSecurityContextUID`
unfoldable pub parse_security_context_uid : Dict String String → Result (Option ℤ)
parse_security_context_uid env =
    let v = get_text default_security_context_uid_env_name env in
    if v == "" then ok none else elim (parse_int v) [
      | ok uid ↦ ok (some uid)
      | err e ↦ wrapped "parsing security context UID" (err e)
    ]

-- `LoadEnv`. With an error the operator does not start, so what the fields hold then is left out.
unfoldable pub load_env : Dict String String → Options → Result Options
load_env env o = elim (parse_management_cluster_env env) [
  | err e ↦ err e
  | ok management ↦ elim (parse_security_context_uid env) [
    | err e ↦ wrapped ("loading " <> default_security_context_uid_env_name) (err e)
    | ok uid ↦ ok (record o {
      release_version = get_text release_version_env_name env;
      cluster_name = get_text cluster_name_env_name env;
      cluster_endpoint = get_text cluster_endpoint_env_name env;
      platform = get_text platform_env_name env;
      region = get_text region_env_name env;
      token_minter_image = get_text token_minter_image_env_name env;
      management_cluster = management;
      default_security_context_uid = uid;
    })
  ]
]

-- `ptr.Deref(uid, 1) <= 0`
unfoldable pub is_root_or_negative : Option ℤ → Bool
is_root_or_negative none = false
is_root_or_negative (some (pos zero)) = true
is_root_or_negative (some (pos _)) = false
is_root_or_negative (some (negsuc _)) = true

abbrev add_missing : String → String → List String → List String
add_missing value name missing = if value == "" then missing ++ name ∷ [] else missing

-- The variable `missing` of `Validate`, at its end.
unfoldable pub missing_settings : Options → List String
missing_settings o =
    let missing = add_missing o.namespace "--namespace" [] in
    if o.management_cluster
    then add_missing o.token_minter_image token_minter_image_env_name (
        add_missing o.region region_env_name (
          add_missing o.platform platform_env_name (
            add_missing o.cluster_endpoint cluster_endpoint_env_name (
              add_missing o.cluster_name cluster_name_env_name
                (add_missing o.target_kubeconfig "--target-kubeconfig" missing)))))
    else missing

-- `strings.Join(texts, ", ")`
unfoldable pub join : List String → String
join [] = ""
join (text ∷ []) = text
join (text ∷ next ∷ more) = text <> (", " <> join (next ∷ more))

-- `Validate`
unfoldable pub validate : Options → Result (Unit {0})
validate o =
    let missing = missing_settings o in
    if is_root_or_negative o.default_security_context_uid
    then err (message (default_security_context_uid_env_name <> " must be a positive non-root UID"))
    else if is_empty missing
    then ok tt
    else err (message ("required configuration not set: " <> join missing))
