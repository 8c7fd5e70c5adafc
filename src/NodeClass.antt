-- ===== src/NodeClass.antt =====
-- pkg/controllers/nodeclass: what the controllers of the NodeClasses share.
pub mod Status
pub mod Ready
