-- ===== src/CloudProvider/Embedded.antt =====
-- pkg/assets/assets.go: the embedded objects, decoded once at the start.
use openshift_karpenter_oper.Base.{String, Result, ok, [], ◌∷◌}
use openshift_karpenter_oper.Base.Checked.{◌>>=◌}
use openshift_karpenter_oper.CloudProvider.{
  Assets, CustomResourceDefinition, RbacAssets, Role, RoleBinding,
}

-- `mustDecode` of a file and the assertion of the object's type, an error where one of them panics. The
-- files are embedded, and the decoder is apimachinery's.
pub record Decoder : Type 0 where
  pub role : String → Result Role
  pub role_binding : String → Result RoleBinding
  pub cluster_role : String → Result Role
  pub cluster_role_binding : String → Result RoleBinding
  pub crd : String → Result CustomResourceDefinition

-- `CoreRBAC`
unfoldable pub core_rbac : Decoder → Result RbacAssets
core_rbac decode = do
  role ← decode.role "karpenter/role.yaml"
  role_binding ← decode.role_binding "karpenter/role-binding.yaml"
  cluster_role ← decode.cluster_role "karpenter/clusterrole-core.yaml"
  cluster_role_binding ← decode.cluster_role_binding "karpenter/clusterrolebinding-core.yaml"
  ok (record {
    roles = role ∷ [];
    role_bindings = role_binding ∷ [];
    cluster_roles = cluster_role ∷ [];
    cluster_role_bindings = cluster_role_binding ∷ [];
  })

-- `AWSRBACAssets`
unfoldable pub aws_rbac_assets : Decoder → Result RbacAssets
aws_rbac_assets decode = do
  cluster_role ← decode.cluster_role "aws/clusterrole.yaml"
  cluster_role_binding ← decode.cluster_role_binding "aws/clusterrolebinding.yaml"
  ok (record {
    roles = [];
    role_bindings = [];
    cluster_roles = cluster_role ∷ [];
    cluster_role_bindings = cluster_role_binding ∷ [];
  })

-- `init`
unfoldable pub load_assets : Decoder → Result Assets
unfolding core_rbac aws_rbac_assets
load_assets decode = do
  core ← core_rbac decode
  aws ← aws_rbac_assets decode
  node_pools ← decode.crd "crds/karpenter.sh_nodepools.yaml"
  node_claims ← decode.crd "crds/karpenter.sh_nodeclaims.yaml"
  ec2_node_classes ← decode.crd "aws/karpenter.k8s.aws_ec2nodeclasses.yaml"
  openshift_ec2_node_classes ←
      decode.crd "hypershift/karpenter.hypershift.openshift.io_openshiftec2nodeclasses.yaml"
  aks_node_classes ← decode.crd "azure/karpenter.azure.com_aksnodeclasses.yaml"
  node_overlays ← decode.crd "crds/karpenter.sh_nodeoverlays.yaml"
  openshift_azure_node_classes ←
      decode.crd "hypershift/karpenter.hypershift.openshift.io_openshiftazurenodeclasses.yaml"
  ok (record {
    core_rbac = core;
    aws_rbac_assets = aws;
    core_crds = node_pools ∷ node_claims ∷ [];
    aws_crds = ec2_node_classes ∷ [];
    aws_hcp_crds = openshift_ec2_node_classes ∷ [];
    azure_crds = aks_node_classes ∷ node_overlays ∷ [];
    azure_hcp_crds = openshift_azure_node_classes ∷ [];
  })
