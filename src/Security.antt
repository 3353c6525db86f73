-- ===== src/Security.antt =====
-- crates/tomcatrs-security: declarative constraints and request hardening.
pub mod Constraints
pub mod AccessControl
