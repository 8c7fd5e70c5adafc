-- ===== src/Tests.antt =====
-- Runs on concrete data, and the theorems at inputs that meet their hypotheses.
mod Objects
mod MachineApprover
mod Deletion
mod Hypershift
mod Aws
mod AutoNode
mod NodeClass
mod Ec2
mod Operand
mod StartUp
mod Metrics
mod Options
mod ClusterOperator
mod DefaultNodeClass
mod Azure
mod Crds
