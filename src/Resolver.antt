-- ===== src/Resolver.antt =====
-- packages/method: resolution of a did:btcr2 identifier (src/core/resolver.ts) and what it calls.
pub mod Provide
pub mod Machine
pub mod Beacons
pub mod Types
pub mod Documents
pub mod Apply
pub mod Updates
