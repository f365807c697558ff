-- ===== src/Peers.antt =====
-- lib/peers: the peer store, the pinning of keys at first sight, and the commands that write peers.
pub mod Store
pub mod Tofu
pub mod Commands
pub mod Pins
pub mod Pinning
pub mod Overlap
pub mod NodeKey
mod Examples
