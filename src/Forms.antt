-- ===== src/Forms.antt =====
-- The sieves of the search forms.
pub mod Sweep
pub mod CullenWoodall
pub mod CarolKynea
pub mod NearRepdigit
pub mod Incremental
pub mod Factorial
pub mod Primorial
pub mod Palindromic
pub mod GenFermat
pub mod Wagstaff
pub mod Kbn
