-- ===== src/Tests/Forms.antt =====
-- The sieves of the search forms at concrete ranges.
use prime_hunter.Common.Prime.{IsPrime}
use prime_hunter.Common.{
  ℕ, ◌+◌, ◌-◌, ◌*◌, ◌/◌, ◌%◌, ◌^◌, ◌<◌, ◌≤◌, ◌≡◌, refl, Bool, true, false, List, [], ◌∷◌, length,
  replicate, any, All, leb, if◌then◌else◌, ok, panic, arith,
}
use prime_hunter.Forms.Sweep.{number_map, strike_out}
use prime_hunter.Forms.CullenWoodall.{sieve_cullen_woodall}
use prime_hunter.Forms.CullenWoodall.Exact.{
  IsSmall, divides_cullen, divides_woodall, sieve_cullen_woodall_lem,
}
use prime_hunter.Forms.CarolKynea.{sieve_carol_kynea}
use prime_hunter.Forms.CarolKynea.Values.{divides_carol, divides_kynea}
use prime_hunter.Forms.CarolKynea.Exact.{sieve_carol_kynea_lem}
use prime_hunter.Forms.NearRepdigit.{is_valid_params, sieve_filter}
use prime_hunter.Forms.NearRepdigit.Remainder.{IsTried, candidate}
use prime_hunter.Forms.NearRepdigit.Filter.{
  IsAscending, divides_below, max_safe_prime, sieve_filter-candidate,
}
use prime_hunter.Forms.Palindromic.{
  increment_digits, mirror_to_palindrome, is_filter_composite, digits_to_integer,
}
use prime_hunter.Forms.Palindromic.Digits.{AreDigits, value, increment_digits_lem}
use prime_hunter.Forms.Palindromic.Mirror.{IsMirror, mirror_to_palindrome-IsMirror}
use prime_hunter.Forms.Palindromic.Even.{even-dvd}
use prime_hunter.Forms.Palindromic.Filter.{is_filter_composite_lem}
use prime_hunter.Forms.GenFermat.{sieve_gf}
use prime_hunter.Forms.GenFermat.Exact.{survives_gf, sieve_gf-survives_gf}
use prime_hunter.Forms.Wagstaff
use prime_hunter.Forms.Wagstaff.Exact.{divides_wagstaff, is_composite-new}
use prime_hunter.Tests.Primes.{primes, primes-IsSievePrime, five-IsPrime, seven-IsPrime}

primes-IsSmall : All IsSmall primes
primes-IsSmall =
    ((omega arith, omega arith), ((omega arith, omega arith), ((omega arith, omega arith), tt)))

sieve_cullen_woodall_lem_example :
    sieve_cullen_woodall 2 5 primes 3
    ≡ ok (
        number_map
          (strike_out (leb 3) divides_cullen divides_woodall primes)
          2
          (replicate (5 - 2 + 1) (true, true)))
sieve_cullen_woodall_lem_example =
    sieve_cullen_woodall_lem 3 2 5 primes (omega arith) (omega arith) (omega arith) primes-IsSmall

sieve_carol_kynea_lem_example :
    sieve_carol_kynea 2 5 primes 3
    ≡ ok (
        number_map
          (strike_out (leb 3) divides_carol divides_kynea primes)
          2
          (replicate (5 - 2 + 1) (true, true)))
sieve_carol_kynea_lem_example =
    sieve_carol_kynea_lem 3 2 5 primes (omega arith) (omega arith) (omega arith) primes-IsSmall

-- 10 ^ 5 - 1 - 3 * (10 ^ 3 + 10).
tried : IsTried 2 3 1
unfolding is_valid_params
tried = record { digit = omega arith; valid = refl; narrow = omega arith }

primes-IsAscending : IsAscending 2 primes
primes-IsAscending =
    (omega arith, omega arith, (omega arith, omega arith, (omega arith, omega arith, tt)))

sieve_filter-candidate_example :
    (sieve_filter 2 3 1 primes
      ≡ ok (any (divides_below (max_safe_prime 2) (candidate 2 3 1)) primes))
    × (sieve_filter 2 3 1 primes ≡ ok true → ¬ IsPrime (candidate 2 3 1))
sieve_filter-candidate_example = sieve_filter-candidate primes tried primes-IsAscending

increment_digits_lem_example :
    (ds' : List ℕ) × (overflow : Bool) × (increment_digits (1 ∷ 9 ∷ []) 10 ≡ ok (ds', overflow))
    × (length ds' ≡ 2)
    × AreDigits 10 ds'
    × (value 10 ds' + (if overflow then 10 ^ 2 else 0) ≡ value 10 (1 ∷ 9 ∷ []) + 1)
increment_digits_lem_example =
    increment_digits_lem (1 ∷ 9 ∷ []) 10 (omega arith) (omega arith)
      (omega arith, (omega arith, tt))

mirror_to_palindrome-IsMirror_example :
    (digits : List ℕ) × (mirror_to_palindrome (1 ∷ 2 ∷ []) true ≡ ok digits)
    × IsMirror (1 ∷ 2 ∷ []) digits (2 * 2 - 1)
mirror_to_palindrome-IsMirror_example =
    mirror_to_palindrome-IsMirror (1 ∷ 2 ∷ []) true λ odd. omega arith

even-dvd_example :
    (digits : List ℕ) × (mirror_to_palindrome (1 ∷ 2 ∷ []) false ≡ ok digits)
    × (digits_to_integer digits 10 % 11 ≡ 0)
even-dvd_example = even-dvd (1 ∷ 2 ∷ []) 10 (omega arith)

is_filter_composite_lem_example :
    (10 ^ 2 < 2 ^ 64
      → (is_filter_composite (1 ∷ 2 ∷ 1 ∷ []) 10 primes 3
          ≡ ok (any (divides_below (10 ^ 2) (digits_to_integer (1 ∷ 2 ∷ 1 ∷ []) 10)) primes))
        × (is_filter_composite (1 ∷ 2 ∷ 1 ∷ []) 10 primes 3 ≡ ok true
            → ¬ IsPrime (digits_to_integer (1 ∷ 2 ∷ 1 ∷ []) 10)))
    × (2 ^ 64 ≤ 10 ^ 2 → is_filter_composite (1 ∷ 2 ∷ 1 ∷ []) 10 primes 3 ≡ panic)
is_filter_composite_lem_example =
    is_filter_composite_lem 1 (2 ∷ 1 ∷ []) 10 primes (omega arith) (omega arith) (omega arith)
      (omega arith, (omega arith, (omega arith, tt))) primes-IsAscending

sieve_gf-survives_gf_example :
    sieve_gf 2 6 1 primes 4
    ≡ ok (number_map (survives_gf 2 1 4 primes) 0 (replicate ((6 - 2) / 2 + 1) true))
sieve_gf-survives_gf_example =
    sieve_gf-survives_gf 2 1 4 6 primes (omega arith) (omega arith) refl (omega arith)
      primes-IsSievePrime

is_composite-new_example :
    (es : List (ℕ × ℕ)) × (Wagstaff.new (5 ∷ 7 ∷ []) ≡ ok es)
    × (Wagstaff.is_composite es 9 ≡ any (divides_wagstaff 9) (5 ∷ 7 ∷ []))
is_composite-new_example =
    is_composite-new (5 ∷ 7 ∷ []) ((five-IsPrime, omega arith), ((seven-IsPrime, omega arith), tt))
      9 refl
