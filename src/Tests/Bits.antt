-- ===== src/Tests/Bits.antt =====
-- src/sieve.rs, `BitSieve` of 70 bits.
use prime_hunter.Common.{◌<◌, ◌≡◌, length, false, arith}
use prime_hunter.Sieve.BitSieve.{
  BitSieve, new_all_set, new_all_clear, clear, count_ones, iter_set_bits,
}
use prime_hunter.Sieve.BitSieve.Words.{bit, new_all_set-IsValid}
use prime_hunter.Sieve.BitSieve.Access.{WritesBit, clear-WritesBit}
use prime_hunter.Sieve.BitSieve.Iter.{scan, iter_set_bits-scan, count_ones-length}

abbrev full : BitSieve
full = new_all_set 70

abbrev empty : BitSieve
empty = new_all_clear 70

full_range : 65 < full.len
unfolding new_all_set
full_range = omega arith

empty_range : 65 < empty.len
unfolding new_all_clear
empty_range = omega arith

clear-WritesBit_example : WritesBit full (clear full 65) 65 false
clear-WritesBit_example = clear-WritesBit (new_all_set-IsValid 70) 65 full_range

iter_set_bits-scan_example : iter_set_bits full ≡ scan (bit full) full.len 0
iter_set_bits-scan_example = iter_set_bits-scan (new_all_set-IsValid 70)

count_ones-length_example : count_ones full ≡ length (iter_set_bits full)
count_ones-length_example = count_ones-length (new_all_set-IsValid 70)
