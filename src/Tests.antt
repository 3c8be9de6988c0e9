-- ===== src/Tests.antt =====
-- The theorems at concrete inputs.
mod Arithmetic
mod Bits
mod Forms
mod Kbn
mod Primes
mod Residues
mod Files
mod Searches
mod Objects
mod Projects
