-- ===== src/Kube/Finalizers.antt =====
-- The finalizer functions of controller-runtime's `controllerutil`, and what the operator relies on.
use openshift_karpenter_oper.Base.{String, ◌≡◌, Bool, true, false, List}

pub record Finalizers : Type 0 where
  pub contains_finalizer : List String → String → Bool
  pub add_finalizer : List String → String → List String
  pub remove_finalizer : List String → String → List String

pub record IsLawful (f : Finalizers) : Type 0 where
  pub contains-add :
      (fs : List String) (x : String) → f.contains_finalizer (f.add_finalizer fs x) x ≡ true
  pub contains-remove :
      (fs : List String) (x : String) → f.contains_finalizer (f.remove_finalizer fs x) x ≡ false
