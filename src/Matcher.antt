-- ===== src/Matcher.antt =====
-- core/matcher: the normal form of a typed name (normalize-target.ts) and its resolution against a list
-- of named items (resolve-target.ts).
pub mod Normalize
pub mod Resolve
pub mod Tiers
mod Examples
