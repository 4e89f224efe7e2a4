-- ===== src/Server.antt =====
-- internal/server: the handlers and what they share.
pub mod Handler
pub mod Json
pub mod Net
pub mod Paging
pub mod Pages
pub mod ListPages
pub mod DetailsPage
pub mod Access
pub mod Actions
pub mod Api
pub mod Redirects
pub mod Ui
pub mod NewLink
pub mod Import
pub mod Middleware
pub mod ApiKeys
pub mod Routes
pub mod Providers
pub mod Authorised
pub mod Forms
pub mod Export
pub mod Sent
pub mod Targets
pub mod AdminPages
pub mod Cookies
pub mod Login
pub mod Verified
pub mod Session
pub mod AdminForms
pub mod Reassigned
pub mod PageRoutes
pub mod Reserved
pub mod Restored
pub mod Importable
pub mod RoundTrip
pub mod Rendering
pub mod Shown
pub mod Visitors
pub mod Saved
pub mod AliasForm
pub mod Created
pub mod Canonical
pub mod Resolved
pub mod Steps
