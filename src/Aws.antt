-- ===== src/Aws.antt =====
-- pkg/cloudprovider/aws/node_identity_verifier.go: whether a node is an EC2 instance of the claims.
pub mod Batches
pub mod Verification
use openshift_karpenter_oper.Base.{
  ℕ, String, Bool, true, false, ◌||◌, Option, none, some, List, [], ◌∷◌, M, Result, pure, call,
  ◌>>=◌, if◌then◌else◌, ◌==◌, string_eq, any, after_last, get_or,
}
use openshift_karpenter_oper.Aws.Batches.{chunk}
use openshift_karpenter_oper.Kube.{NodeClaim}

abbrev pub max_instance_ids_per_describe_call : ℕ
max_instance_ids_per_describe_call = 1000

-- `ec2.Instance`, of which the verifier reads one field, and `ec2.Reservation`.
pub record Instance : Type 0 where
  pub private_dns_name : Option String

pub record Reservation : Type 0 where
  pub instances : List Instance

-- `ec2InstanceID`
unfoldable pub ec2_instance_id : String → Option String
ec2_instance_id provider_id = elim (after_last "/" provider_id) [
  | none ↦ none
  | some id ↦ if id == "" then none else some id
]

-- The first loop of `Verify`: the instance ids of the claims that have one.
unfoldable pub instance_ids : List NodeClaim → List String
instance_ids [] = []
instance_ids (claim ∷ claims) = elim (ec2_instance_id claim.provider_id) [
  | none ↦ instance_ids claims
  | some id ↦ id ∷ instance_ids claims
]

-- The loops of `matchesPrivateDNSName` over its answer.
unfoldable pub has_private_dns_name : String → List Reservation → Bool
has_private_dns_name node_name =
    any λ reservation. any (λ i. get_or i.private_dns_name "" == node_name) reservation.instances

-- One call of `DescribeInstances`, with the ids asked for and the answer.
pub record Described : Type 0 where
  pub ids : List String
  pub answer : Result (List Reservation)

-- The EC2 client.
pub record Deps : Type 1 where
  pub World : Type 0
  pub describe_instances : List String → World → Result (List Reservation) × World

module _ (deps : Deps) where
  open deps use {World, describe_instances}

  -- `matchesPrivateDNSName`
  unfoldable pub matches_private_dns_name : List String → String → M World Described Bool
  matches_private_dns_name ids node_name = do
    reservations ← call (describe_instances ids) (λ answer. record { ids = ids; answer = answer })
    pure (has_private_dns_name node_name reservations)

  -- The second loop of `Verify`, over the batches.
  unfoldable pub verify_batches : String → List (List String) → M World Described Bool
  verify_batches node_name [] = pure false
  verify_batches node_name (batch ∷ batches) = do
    found ← matches_private_dns_name batch node_name
    if found then pure true else verify_batches node_name batches

  -- `Verify`
  unfoldable pub verify : String → List NodeClaim → M World Described Bool
  verify node_name claims =
      verify_batches node_name (chunk max_instance_ids_per_describe_call (instance_ids claims))
