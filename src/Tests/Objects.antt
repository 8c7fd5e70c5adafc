-- ===== src/Tests/Objects.antt =====
-- Objects that several tests share.
use openshift_karpenter_oper.Base.{
  String, ◌≡◌, refl, false, none, some, List, [], ◌∷◌, arith, contains, select, ◌!=◌, string_eq,
}
use openshift_karpenter_oper.Kube.{HostedControlPlane}
use openshift_karpenter_oper.Kube.Finalizers.{Finalizers, IsLawful}

abbrev pub hcp : HostedControlPlane
hcp = record {
  name = "hcp";
  namespace = "clusters-one";
  uid = "7d1c";
  annotations = [];
  finalizers = [];
  deletion_timestamp = none;
  infra_id = "one-x7";
  provisioner_name = "Karpenter";
  karpenter_config = record { platform = "AWS"; aws_role_arn = "arn:role"; azure_client_id = "" };
  resource_tags = some (record { key = "team"; value = "a"; override_policy = "" } ∷ []);
  control_plane_version = record {
    desired_image = "release:4.21";
    desired_version = "4.21";
    history =
        record { state = "Partial"; image = "release:4.21"; version = "4.21" }
        ∷ record { state = "Completed"; image = "release:4.20"; version = "4.20" }
        ∷ [];
  };
  auto_node = record { node_count = none; node_claim_count = none; vcpus = none };
}

-- Finalizers as the strings of the list.
abbrev pub plain : Finalizers
plain = record {
  contains_finalizer = contains;
  add_finalizer = λ fs x. x ∷ fs;
  remove_finalizer = λ fs x. select (λ f. f != x) fs;
}

contains-remove : (fs : List String) (x : String) → contains (select (λ f. f != x) fs) x ≡ false
contains-remove [] x = refl
contains-remove (f ∷ fs) x = ground (arith, contains-remove fs x)

pub plain-IsLawful : IsLawful plain
plain-IsLawful = record { contains-add = λ fs x. ground arith; contains-remove = contains-remove }
