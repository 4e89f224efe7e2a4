-- ===== src/Tests.antt =====
-- Runs of the definitions at concrete inputs, and the theorems applied to some.
pub mod Fixtures
pub mod LruExample
pub mod JwtExample
mod LoginTests
mod PageTests
mod RouteTests
mod StoreTests
mod LinksTests
mod RedirectTests
mod DbTests
mod CacheTests
mod ServerTests
mod AuthTests
mod KeyTests
mod ExportTests
