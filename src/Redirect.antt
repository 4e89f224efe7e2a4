-- ===== src/Redirect.antt =====
-- internal/redirect: from a request and a link to the URL that the client is sent to.
pub mod Parse
pub mod Paths
pub mod Simple
pub mod Advanced
pub mod Safety
