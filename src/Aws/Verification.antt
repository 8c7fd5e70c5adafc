-- ===== src/Aws/Verification.antt =====
-- pkg/cloudprovider/aws/node_identity_verifier.go: what a verification asks EC2, and what its answer means.
use Prim.Native.String.{String}
use mathlib.Core.List.{append-nil, append_assoc}
use openshift_karpenter_oper.Base.{
  ◌≤◌, ◌<◌, ◌≡◌, refl, ◌≢◌, Bool, true, false, none, some, List, [], ◌∷◌, ◌++◌, arith, ok, err,
  Result-cases, Bool-cases, inl, inr, any, All, length, ◌∙◌, ap, ◌⊎◌, ◌<>◌, after_last,
  after_last-append, string_eq,
}
use openshift_karpenter_oper.Kube.{NodeClaim}
use openshift_karpenter_oper.Aws.Batches.{chunk, concat, chunk-concat, chunk-All}
use openshift_karpenter_oper.Aws.{
  ec2_instance_id, Described, Deps, instance_ids, has_private_dns_name, matches_private_dns_name,
  verify_batches, verify, max_instance_ids_per_describe_call,
}

module _ (deps : Deps) (node_name : String) where
  -- The answer shows an instance with the node's name.
  abbrev pub shows : Described → Bool
  shows call = elim call.answer [
    | ok reservations ↦ has_private_dns_name node_name reservations
    | err _ ↦ false
  ]

  -- The ids of the calls of a run, in order.
  abbrev pub asked : List Described → List String
  asked [] = []
  asked (call ∷ calls) = call.ids ++ asked calls

  verify_batches-sizes :
      (batches : List (List String)) (w : deps.World)
      → All (λ ids. (0 < length ids) × (length ids ≤ 1000)) batches
      → All
          (λ (d : Described). (0 < length d.ids) × (length d.ids ≤ 1000))
          (verify_batches deps node_name batches w).2
  unfolding verify_batches matches_private_dns_name
  verify_batches-sizes [] w h = tt
  verify_batches-sizes (batch ∷ batches) w h =
      elim (Result-cases (deps.describe_instances batch w).0) [
        | inr (e, bad) ↦ rw bad (h.0, tt)
        | inl (reservations, good) ↦
            elim (Bool-cases (has_private_dns_name node_name reservations)) [
              | inl hit ↦ rw good (rw hit (h.0, tt))
              | inr miss ↦ rw good (rw miss (h.0, verify_batches-sizes batches _ h.1))
            ]
      ]

  verify_batches-answer :
      (batches : List (List String)) (w : deps.World) {b : Bool}
      → (verify_batches deps node_name batches w).0 ≡ ok b
      → any shows (verify_batches deps node_name batches w).2 ≡ b
  unfolding verify_batches matches_private_dns_name
  verify_batches-answer [] w h = ground arith
  verify_batches-answer (batch ∷ batches) w {b} h =
      ground (arith, verify_batches-answer batches (deps.describe_instances batch w).1 {b = b})

  verify_batches-asked_from :
      (batches : List (List String)) (w : deps.World)
      → (rest : List String) × (asked (verify_batches deps node_name batches w).2 ++ rest
          ≡ concat batches)
  unfolding verify_batches matches_private_dns_name
  verify_batches-asked_from [] w = ([], refl)
  verify_batches-asked_from (batch ∷ batches) w =
      elim (Result-cases (deps.describe_instances batch w).0) [
        | inr (e, bad) ↦ (concat batches, rw (bad, append-nil))
        | inl (reservations, good) ↦
            elim (Bool-cases (has_private_dns_name node_name reservations)) [
              | inl hit ↦ (concat batches, rw good (rw hit (rw append-nil)))
              | inr miss ↦
                  let (rest, whole) =
                    verify_batches-asked_from batches (deps.describe_instances batch w).1 in
                  (
                    rest,
                    rw good (
                        rw miss
                          (append_assoc batch _ rest ∙ ap (λ (l : List String). batch ++ l) whole)),
                  )
            ]
      ]

  verify_batches-asked :
      (batches : List (List String)) (w : deps.World)
      → (verify_batches deps node_name batches w).0 ≡ ok false
      → asked (verify_batches deps node_name batches w).2 ≡ concat batches
  unfolding verify_batches matches_private_dns_name
  verify_batches-asked [] w h = refl
  verify_batches-asked (batch ∷ batches) w h =
      ground (arith, verify_batches-asked batches (deps.describe_instances batch w).1)

  -- Whatever EC2 answers, each call of a verification asks for 1 to 1000 instances, and the ids of all
  -- calls are, in order, the first of those of the claims: no id is asked for that no claim has, and
  -- an empty list of ids, which would describe every instance of the account, is never sent.
  pub verify-asks :
      (claims : List NodeClaim) (w : deps.World)
      → All
          (λ (d : Described). (0 < length d.ids) × (length d.ids ≤ 1000))
          (verify deps node_name claims w).2
        × (rest : List String) × (asked (verify deps node_name claims w).2 ++ rest
            ≡ instance_ids claims)
  unfolding verify
  verify-asks claims w =
      let ids = instance_ids claims in
      let batches = chunk max_instance_ids_per_describe_call ids in
      let (rest, whole) = verify_batches-asked_from batches w in
      (verify_batches-sizes batches w (chunk-All 999 ids), rest, whole ∙ chunk-concat 999 ids)

  -- A verification that ends well says yes exactly when one of its calls showed an instance with the
  -- node's name, and says no only after it has asked for the instances of all the claims.
  pub verify-answer :
      (claims : List NodeClaim) (w : deps.World) {b : Bool}
      → (verify deps node_name claims w).0 ≡ ok b
      → (any shows (verify deps node_name claims w).2 ≡ b)
        × ((b ≡ true) ⊎ (asked (verify deps node_name claims w).2 ≡ instance_ids claims))
  unfolding verify
  verify-answer claims w {b} h =
      let ids = instance_ids claims in
      let batches = chunk max_instance_ids_per_describe_call ids in
      (
        verify_batches-answer batches w h,
        elim (Bool-cases b) [
          | inl yes_ ↦ inl yes_
          | inr no_ ↦ inr (verify_batches-asked batches w (h ∙ ap ok no_) ∙ chunk-concat 999 ids)
        ],
      )

-- The id of an instance is what stands behind the last slash of a provider id.
pub ec2_instance_id-append :
    (scope id : String)
    → after_last "/" id ≡ none
    → id ≢ ""
    → ec2_instance_id (scope <> String.◌∷◌ "/" id) ≡ some id
unfolding ec2_instance_id
ec2_instance_id-append scope id plain nonempty =
    ground (arith, after_last-append "/" scope id plain)
