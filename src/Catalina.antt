-- ===== src/Catalina.antt =====
-- The servlet container (crates/tomcatrs-catalina).
pub mod Mapper
