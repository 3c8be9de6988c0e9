-- ===== src/Sieve.antt =====
-- src/sieve.rs: modular arithmetic, Montgomery form, packed bit sets and the searches over them.
pub mod ModArith
pub mod Montgomery
pub mod BitSieve
pub mod Factor
pub mod Order
pub mod Depth
pub mod Fermat
pub mod DiscreteLog
