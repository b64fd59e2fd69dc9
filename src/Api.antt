-- ===== src/Api.antt =====
-- src/api: the chain that a request passes, uploads, and what the controllers share.
pub mod RequestUtils
pub mod Validation
pub mod Middleware
pub mod Uploads
pub mod Handlers
pub mod Account
pub mod Login
mod Tests
