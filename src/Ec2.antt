-- ===== src/Ec2.antt =====
-- pkg/controllers/nodeclass/ec2: an OpenshiftEC2NodeClass of the hosted cluster becomes an EC2NodeClass.
pub mod Types
pub mod Upstream
pub mod Kubelet
pub mod Convert
pub mod Tags
pub mod Spec
pub mod Status
pub mod Calls
pub mod Policy
pub mod Controller
pub mod Watches
