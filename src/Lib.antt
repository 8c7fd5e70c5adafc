-- ===== src/Lib.antt =====
-- karpenter-operator installs and runs Karpenter for OpenShift: it approves the certificates of new nodes,
-- turns OpenShift NodeClasses into those of the cloud provider, reports the state of the hosted cluster and
-- cleans up when a hosted cluster is deleted. It is a set of Kubernetes controllers that share no state but
-- the API servers.
--
-- How it is modelled. A controller's clients are a record `Deps` with an abstract `World`: each call takes
-- the world and gives an answer and the next world, so that any answer and any change by others between two
-- calls is included. A run (`M`, in Base/Effects) returns a result, the world and the list of its calls with
-- their answers; an error is a value that `context` wraps as fmt.Errorf does. The theorems speak of that
-- list and of the result. Texts, booleans, lists and options stand for Go's; a Go map is an association list
-- whose keys are distinct; a nil map or pointer is `none`. A w-bit integer keeps its wrap-around written out
-- (`% 2 ^ w`) where the code computes with it; one that is only copied is a natural number.
--
-- The parts:
--   Base               equality, texts, lists, maps, errors and runs, shared by all.
--   Kube               the API objects and the controllerutil finalizer functions, with their laws.
--   MachineApprover    pkg/controllers/machineapprover: csrFilterFn, Reconcile, authorize, approve, parseCSR.
--                      Approval: the trace of an approval. Exactly: which requests are approved. Queue: the
--                      filter, and requests that are decided. OnAws: the approver with the verifier of Aws.
--   Hypershift         pkg/hypershift: GetHostedControlPlane, IsClusterDeleting, WaitsForControlPlaneUpgrade.
--                      UserData: GetUserDataSecret and the watch of Secrets. Upgrade, Enqueue: their proofs.
--   Deletion           pkg/controllers/hcp/deletion: Reconcile and cleanupKarpenterResources. Finalizer,
--                      Cleanup, Live: the finalizer, the calls of a cleanup, a cluster that is not deleted.
--   Aws                pkg/cloudprovider/aws/node_identity_verifier.go: Verify; the machine approver calls it
--                      as its verifier. Batches: slices.Chunk. Verification: the proofs.
--   Azure              pkg/controllers/nodeclass/azure and api/karpenter/v1alpha1: the OpenShiftAzureNodeClass
--                      (Types, with spec.go). Controller: controller.go. Gone: its deletion. Settled: repeated
--                      reconciles. Policy: vap/controller.go.
--   Crds               pkg/controllers/crd: which CRDs are written where. Applied: what a reconcile writes.
--   AutoNode           pkg/controllers/hcp/autonodestatus: the counts in HCP.Status.AutoNode. Counts, Watches.
--   NodeClass          pkg/controllers/nodeclass/status: SyncConditions (Status) and its proofs (Ready).
--   Ec2                pkg/controllers/nodeclass/ec2 and api/karpenter/v1. Types, Upstream: the objects of
--                      the operator and of the provider. Kubelet: HasTypedFields, with Json: UnmarshalJSON and
--                      MarshalJSON, and PassThrough: their proof. Convert: karpenter_util.go.
--                      Tags: mergeEC2NodeClassTags, setAWSResourceTagConflictCondition. Spec: userdata.go and
--                      reconcileEC2NodeClass. Status: reconcileStatus. Calls, Controller: Reconcile,
--                      deleteIfNeeded, reconcileKarpenterSubnetsConfigMap. Policy: what reconcileVAP
--                      writes. Watches: the predicates and maps.
--   ClusterOperator    pkg/controllers/clusteroperator: Reconcile, operandConditions, applyStatus. Report: what
--                      is reported. Conditions: the conditions.
--   DefaultNodeClass   pkg/controllers/nodeclass/default and pkg/cloudprovider/{aws,azure}/nodeclass.go: the
--                      default NodeClass. Desired: what its watch passes over.
--   Options            pkg/operator/options.go: LoadEnv and Validate; Valid: what passes and what is reported.
--   CloudProvider      pkg/cloudprovider: what a provider tells the others. Aws, Azure: New and OperandConfig.
--                      Select: GetCloudProvider. Embedded: pkg/assets.
--   Operand            pkg/controllers/karpenter. Convert: convert.go and rbac.go. Pod: deployment.go and
--                      podmonitor.go, with Parts (a pod taken apart), Keys (its merge keys), Builds (when it
--                      is built). Apply: apply.go. Rollout: the abstract controller, and Steps, that the apply
--                      functions follow it. Hcp and Ocp: the two controllers, with Planned (they follow the
--                      abstract one), Sound and Owned (what they apply), Unchanged (what a watch passes over).
--                      Fits: the pods of both on both clouds.
--   StartUp            pkg/operator/operator.go and pkg/controllers/controllers.go: Run, NewControllers. Hosted:
--                      the start on a management cluster.
--   Metrics            pkg/controllers/metrics.go: the metric of the operator's image. Wait: the wait for it.
--   Tests              runs on concrete clusters, and the theorems applied to them.
--
-- Bounds. The loops recurse on lists. `itoa` and `chunk` run on fuel: the number plus one, and the length
-- of the list, which is enough as each round divides by ten or takes at least one element. The wait for the
-- operator's image has 31 rounds, which is enough as each takes half of one of its fifteen seconds.
--
-- Not modelled: code that is vendored, generated or only registers watches and controllers; logging; the
-- texts of the embedded files. `to_lower` and `to_upper` are those of ASCII, which the enum values consist
-- of. A panic in a reconcile counts as an error of it.
pub mod Base
pub mod Kube
pub mod MachineApprover
pub mod Hypershift
pub mod Deletion
pub mod Aws
pub mod Azure
pub mod Crds
pub mod AutoNode
pub mod Metrics
pub mod NodeClass
pub mod Ec2
pub mod Operand
pub mod Options
pub mod CloudProvider
pub mod ClusterOperator
pub mod DefaultNodeClass
pub mod StartUp
mod Tests
