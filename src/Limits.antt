-- ===== src/Limits.antt =====
-- src/lib.rs: the block sizes of a search by the size of its exponent, and the exponent's width.
use prime_hunter.Common.{ℕ, ◌≤◌, ◌^◌, ltb, leb, if◌then◌else◌, arith, Outcome, ok, panic}

-- The ranges of the match, in order.
unfoldable pub block_size_for_n : ℕ → ℕ
block_size_for_n n =
    if leb n 1000
    then 10000
    else if leb n 10000
    then 10000
    else if leb n 50000
    then 2000
    else if leb n 200000
    then 500
    else 100

unfoldable pub block_size_for_n_heavy : ℕ → ℕ
block_size_for_n_heavy n =
    if leb n 1000
    then 10000
    else if leb n 10000
    then 5000
    else if leb n 50000
    then 1000
    else if leb n 200000
    then 200
    else 50

unfoldable pub checked_u32 : ℕ → Outcome ℕ
checked_u32 n = if ltb n (2 ^ 32) then ok n else panic

-- A larger exponent never has a larger block, in a search of either kind, and a heavy search never
-- has a larger block than another.
block_size-antitone :
    (m n : ℕ)
    → m ≤ n
    → (block_size_for_n n ≤ block_size_for_n m)
      × (block_size_for_n_heavy n ≤ block_size_for_n_heavy m)
      × (block_size_for_n_heavy n ≤ block_size_for_n n)
unfolding block_size_for_n block_size_for_n_heavy
block_size-antitone m n h = ground arith
