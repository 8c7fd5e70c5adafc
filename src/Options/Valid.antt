-- ===== src/Options/Valid.antt =====
-- pkg/operator/options.go: which settings pass, and what else is reported.
use openshift_karpenter_oper.Base.{
  zero, suc, String, ◌<>◌, ◌≡◌, ◌≢◌, ◌↔◌, inl, inr, refl, sym, ap, ◌∙◌, ◌||◌, Bool, true, false,
  Option, none, some, List, [], ◌∷◌, arith, ok, err, message, Bool-cases, Result-cases, All, ◌==◌,
  string_eq, contains, is_empty, if◌then◌else◌,
}
use openshift_karpenter_oper.Base.Dict.{Dict}
use openshift_karpenter_oper.Hypershift.UserData.{get_text}
use openshift_karpenter_oper.Options.{
  Options, ℤ, pos, negsuc, true_texts, false_texts, parse_bool, parse_management_cluster_env,
  parse_security_context_uid, load_env, is_root_or_negative, missing_settings, validate, join,
}

-- The settings that `Validate` asks for, in order, each with its name.
abbrev pub required : Options → List (String × String)
required o =
    ("--namespace", o.namespace)
    ∷ (if o.management_cluster
        then ("--target-kubeconfig", o.target_kubeconfig)
          ∷ ("CLUSTER_NAME", o.cluster_name)
          ∷ ("CLUSTER_ENDPOINT", o.cluster_endpoint)
          ∷ ("PLATFORM", o.platform)
          ∷ ("REGION", o.region)
          ∷ ("TOKEN_MINTER_IMAGE", o.token_minter_image)
          ∷ []
        else [])

abbrev pub unset : List (String × String) → List String
unset [] = []
unset ((name, value) ∷ more) = let rest = unset more in if value == "" then name ∷ rest else rest

-- A user that is none, or positive.
abbrev pub GoodUid : Option ℤ → Type 0
GoodUid none = Unit
GoodUid (some (pos (suc _))) = Unit
GoodUid (some (pos zero)) = ⊥
GoodUid (some (negsuc _)) = ⊥

missing_settings-eq : (o : Options) → missing_settings o ≡ unset (required o)
unfolding missing_settings
missing_settings-eq o = ground arith

unset-empty :
    (l : List (String × String))
    → (is_empty (unset l) ≡ true) ↔ All (λ (s : String × String). s.1 ≢ "") l
unset-empty [] = (λ _. tt, λ _. refl)
unset-empty ((name, value) ∷ more) =
    let (f, g) = unset-empty more in
    elim (Bool-cases (value == "")) [
      | inl empty ↦ (λ h. absurd (ground arith), λ h. absurd (ground (arith, h.0)))
      | inr set ↦ (λ h. (ground arith, f (rw set at h)), λ h. rw set (g h.1))
    ]

empty-eq : (l : List String) → is_empty l ≡ true → l ≡ []
empty-eq [] h = refl
empty-eq (x ∷ l) h = cc

uid-cases : (uid : Option ℤ) → (is_root_or_negative uid ≡ false) ↔ GoodUid uid
unfolding is_root_or_negative
uid-cases none = (λ _. tt, λ _. refl)
uid-cases (some (pos zero)) = (λ h. absurd (ground arith), λ h. absurd h)
uid-cases (some (pos (suc n))) = (λ _. tt, λ _. refl)
uid-cases (some (negsuc n)) = (λ h. absurd (ground arith), λ h. absurd h)

-- The options pass exactly if the user of the operand, where one is set, is positive, and if the
-- namespace and, on a management cluster, the six further settings are not empty.
pub validate_iff :
    (o : Options)
    → (validate o ≡ ok tt) ↔ (
        GoodUid o.default_security_context_uid
        × All (λ (s : String × String). s.1 ≢ "") (required o))
unfolding validate
validate_iff o =
    let (f, g) = unset-empty (required o) in
    let (u, v) = uid-cases o.default_security_context_uid in
    let same = missing_settings-eq o in
    (
      λ h. (u (ground (arith, h)), f (ground (arith, h, same))),
      λ (good, set). ground (arith, same, v good, g set),
    )

-- With a good user, what is reported names the settings that are empty, in the order in which they
-- are asked for, and no other.
pub validate-missing :
    (o : Options)
    → GoodUid o.default_security_context_uid
    → unset (required o) ≢ []
    → validate o ≡ err (message ("required configuration not set: " <> join (unset (required o))))
unfolding validate
validate-missing o good some_ =
    let same = missing_settings-eq o in
    let user = (uid-cases o.default_security_context_uid).1 good in
    rw (same, user)
      (elim (Bool-cases (is_empty (unset (required o)))) [
        | inl empty ↦ absurd (some_ (empty-eq (unset (required o)) empty))
        | inr missing ↦ rw missing refl
      ])

empty-not-true : contains true_texts "" ≡ false
unfolding string_eq
empty-not-true = refl

parse_management_cluster_env-eq :
    (env : Dict String String) (management : Bool)
    → parse_management_cluster_env env ≡ ok management
    → let v = get_text "MANAGEMENT_CLUSTER" env in
      (management ≡ contains true_texts v)
      × ((v == "" || contains true_texts v || contains false_texts v) ≡ true)
unfolding parse_management_cluster_env parse_bool
parse_management_cluster_env-eq env management h =
    let v = get_text "MANAGEMENT_CLUSTER" env in
    elim (string_eq.dec v "") [
      | yes unset_ ↦
          let off : management ≡ false = ground arith in
          (off ∙ sym empty-not-true ∙ ap (contains true_texts) (sym unset_), ground arith)
      | no set ↦
          let here : (v == "") ≡ false = ground arith in
          elim (Bool-cases (contains true_texts v)) [
            | inl on ↦ let yes_ : management ≡ true = ground arith in (yes_ ∙ sym on, ground arith)
            | inr off ↦ elim (Bool-cases (contains false_texts v)) [
              | inl no_ ↦ let f : management ≡ false = ground arith in (f ∙ sym off, ground arith)
              | inr bad ↦ absurd (ground arith)
            ]
          ]
    ]

-- The operator takes itself to run on a management cluster exactly if the environment says so in one
-- of the six texts for true. The options are not loaded if it says anything else that is not
-- empty and none of the six texts for false.
pub load_env-management :
    (env : Dict String String) (o loaded : Options)
    → load_env env o ≡ ok loaded
    → (loaded.management_cluster ≡ contains true_texts (get_text "MANAGEMENT_CLUSTER" env))
      × ((get_text "MANAGEMENT_CLUSTER" env == ""
            || contains true_texts (get_text "MANAGEMENT_CLUSTER" env)
            || contains false_texts (get_text "MANAGEMENT_CLUSTER" env))
          ≡ true)
unfolding load_env
load_env-management env o loaded h = elim (Result-cases (parse_management_cluster_env env)) [
  | inr (e, bad) ↦ absurd (ground arith)
  | inl (management, good) ↦ elim (Result-cases (parse_security_context_uid env)) [
    | inr (e, bad) ↦ absurd (ground (arith, good, bad))
    | inl (uid, fine) ↦
        let m : management ≡ loaded.management_cluster = ground (arith, good, fine) in
        let (a, b) = parse_management_cluster_env-eq env management good in (sym m ∙ a, b)
  ]
]
