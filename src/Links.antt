-- ===== src/Links.antt =====
-- internal/links: names, targets and domain patterns.
pub mod Validate
pub mod Target
pub mod Domains
pub mod Hosts
pub mod QuickName
