-- ===== src/Azure.antt =====
-- pkg/controllers/nodeclass/azure: an OpenShiftAzureNodeClass of the hosted cluster becomes an AKSNodeClass.
pub mod Types
pub mod Controller
pub mod Gone
pub mod Settled
pub mod Policy
