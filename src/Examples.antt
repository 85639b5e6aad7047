-- ===== src/Examples.antt =====
-- Runs of the models on concrete input, and the theorems at inputs that meet their hypotheses.
mod Sm4
mod Modes
mod Aead
mod Sm2
mod Sm3
mod Kdf
mod Sm9
mod Fpe
mod Residues
mod Curve
mod Protocols
mod Messages
mod Groups
