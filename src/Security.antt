-- ===== src/Security.antt =====
-- src/security: who may do what, and how often.
pub mod RateLimit
pub mod Idempotency
pub mod Jwt
pub mod Auth
pub mod ApiKeys
pub mod Tokens
pub mod Sessions
mod Tests
