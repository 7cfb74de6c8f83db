-- ===== src/Web.antt =====
-- crates/web: the HTTP layer on the service.
pub mod Strings
pub mod Pages
pub mod Http
pub mod Cookies
pub mod Csv
pub mod Extract
pub mod SignIn
pub mod AuditLog
pub mod Sharing
pub mod Minting
pub mod Upload
pub mod Router
