-- ===== src/Consent.antt =====
-- core/consent: one-time approval of cross-node actions by a PIN.
pub mod Store
pub mod Request
pub mod Api
pub mod Gate
pub mod Handshake
pub mod Initiator
pub mod Examples
