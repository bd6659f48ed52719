-- ===== src/Security.antt =====
-- vyomel/security: classification, policy, approvals and the audit trail.
pub mod External
pub mod Fixture
pub mod Matching
pub mod Capability
pub mod Policy
pub mod Approvals
pub mod Audit
