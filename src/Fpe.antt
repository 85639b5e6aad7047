-- ===== src/Fpe.antt =====
-- src/fpe: format-preserving encryption of the first `num_bits` bits of a block.
pub mod Fnr
pub mod Key
pub mod Bits
pub mod Xor
pub mod Halves
pub mod RoundTrip
pub mod Saved
pub mod Calls
