-- ===== src/Smt.antt =====
-- packages/smt: the zero-hash sparse Merkle tree of did:btcr2.
pub mod Bits
pub mod Hash
pub mod ZeroHash
pub mod Proof
pub mod Tree
