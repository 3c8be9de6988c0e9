-- ===== src/Sieve/Depth.antt =====
-- src/sieve.rs, `auto_sieve_depth` and `resolve_sieve_limit`. The power 2/3 of the test cost, in
-- f64, is a parameter: `raw_depth bits` is `(bits² ^ (2/3) * 10.0) as u64`.
use prime_hunter.Common.{ℕ, ◌≤◌, ◌<◌, ◌||◌, ◌==◌, ltb, if◌then◌else◌, ◌≡◌, ◌⊎◌, arith}

abbrev pub sieve_limit_default : ℕ
sieve_limit_default = 10000000

abbrev pub clamp : ℕ → ℕ → ℕ → ℕ
clamp x low high = if ltb x low then low else if ltb high x then high else x

abbrev pub min : ℕ → ℕ → ℕ
min a b = if ltb a b then a else b

module _ (raw_depth : ℕ → ℕ) where
  unfoldable pub auto_sieve_depth : ℕ → ℕ → ℕ
  auto_sieve_depth candidate_bits n_range =
      let depth = clamp (raw_depth candidate_bits) 1000000 1000000000 in
      if (candidate_bits == 0) || (n_range == 0)
      then sieve_limit_default
      else if ltb n_range 100
      then min depth sieve_limit_default
      else depth

  unfoldable pub resolve_sieve_limit : ℕ → ℕ → ℕ → ℕ
  resolve_sieve_limit sieve_limit candidate_bits n_range =
      if ltb 0 sieve_limit then sieve_limit else auto_sieve_depth candidate_bits n_range

  -- A limit that the user gives is kept. Without one the limit lies between a million and a billion,
  -- and it is at most the default for a range of fewer than 100 candidates, whatever the estimate.
  pub resolve_sieve_limit-bounds :
      (sieve_limit candidate_bits n_range : ℕ)
      → ((0 < sieve_limit) × (resolve_sieve_limit sieve_limit candidate_bits n_range ≡ sieve_limit))
        ⊎ ((sieve_limit ≡ 0)
            × (1000000 ≤ resolve_sieve_limit sieve_limit candidate_bits n_range)
            × (resolve_sieve_limit sieve_limit candidate_bits n_range ≤ 1000000000)
            × ((100 ≤ n_range)
                ⊎ (resolve_sieve_limit sieve_limit candidate_bits n_range ≤ sieve_limit_default)))
  unfolding resolve_sieve_limit auto_sieve_depth
  resolve_sieve_limit-bounds sieve_limit candidate_bits n_range = ground arith
