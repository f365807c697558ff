-- ===== src/Auth.antt =====
-- lib/federation-auth.ts: request signatures. The digests of SHA-256 and HMAC-SHA256, in lowercase
-- hex, are parameters; the clock is an argument. A body is the text of its bytes, empty if absent.
pub mod Hex
pub mod Middleware
pub mod FromSign
pub mod Signature
pub mod Continuity
pub mod Plugins
pub mod Guard
mod Examples
