-- ===== src/Forms/Palindromic/Filter.antt =====
-- `is_filter_composite` passes on every prime, while its bound fits 64 bits.
use native.Mathlib.Nat
use prime_hunter.Common.Prime.{IsPrime}
use prime_hunter.Common.{
  ℕ, suc, ◌+◌, ◌%◌, ◌^◌, ◌<◌, ◌≤◌, Bool, true, List, [], ◌∷◌, length, any, leb, ◌≡◌, refl, sym, ap,
  ◌∙◌, ok, panic, fits, sub_checked, Bool-cases, leb→le, inl, inr, arith,
}
use prime_hunter.Common.Residue.{fits-ok}
use prime_hunter.Forms.NearRepdigit.Filter.{IsAscending, divides_below, above, hit-divides}
use prime_hunter.Forms.Palindromic.{filter_loop, is_filter_composite, digits_to_integer}
use prime_hunter.Forms.Palindromic.Digits.{
  AreDigits, digits_mod-digits_to_integer, digits_to_integer-value, leading-le,
}

module _ (base bound : ℕ) (digits : List ℕ) (narrow : base < 2 ^ 32)
    (are_digits : AreDigits base digits) where
  filter_loop_lem :
      (low : ℕ) (ps : List ℕ)
      → 0 < low
      → IsAscending low ps
      → filter_loop digits base bound ps
        ≡ ok (any (divides_below bound (digits_to_integer digits base)) ps)
  unfolding filter_loop
  filter_loop_lem low [] pos asc = refl
  filter_loop_lem low (p ∷ ps) pos (le, small, rest) = elim (Bool-cases (leb bound p)) [
    | inl stop ↦ rw stop (
        ap ok (
          sym (
            above bound (digits_to_integer digits base) p (p ∷ ps) (leb→le bound p stop)
              (omega arith, small, rest))))
    | inr go ↦
        rw
          (
            go,
            digits_mod-digits_to_integer digits base p narrow (omega (arith, pos, le)) small
                are_digits,
          )
          (ground (arith, filter_loop_lem (p + 1) ps (omega arith) rest, go))
  ]

-- For a base of 32 bits, a leading digit above 0, the number of the digits as digit_count and an
-- ascending list of numbers from 2 up to 32 bits: where base ^ (digit_count - 1) fits 64 bits, the
-- filter answers whether a number of the list below that power divides the number of the digits, and
-- a number that is filtered out is not prime; where it does not fit, the filter panics.
pub is_filter_composite_lem :
    (d : ℕ) (ds : List ℕ) (base : ℕ) (filter_primes : List ℕ)
    → 0 < d
    → base < 2 ^ 32
    → length ds < 2 ^ 32
    → AreDigits base (d ∷ ds)
    → IsAscending 2 filter_primes
    → (base ^ length ds < 2 ^ 64
        → (is_filter_composite (d ∷ ds) base filter_primes (suc (length ds))
            ≡ ok (
                any
                  (divides_below (base ^ length ds) (digits_to_integer (d ∷ ds) base))
                  filter_primes))
          × (is_filter_composite (d ∷ ds) base filter_primes (suc (length ds)) ≡ ok true
              → ¬ IsPrime (digits_to_integer (d ∷ ds) base)))
      × (2 ^ 64 ≤ base ^ length ds
          → is_filter_composite (d ∷ ds) base filter_primes (suc (length ds)) ≡ panic)
unfolding is_filter_composite
is_filter_composite_lem d ds base filter_primes lead narrow short are_digits asc = (
  λ room. (run room, λ filtered. composite room filtered),
  λ over. rw (minus, exponent, ground_over over) refl,
)
  where
    number : ℕ
    number = digits_to_integer (d ∷ ds) base

    minus : sub_checked (suc (length ds)) 1 ≡ ok (length ds)
    minus = checked (length ds)
      where
        checked : (n : ℕ) → sub_checked (suc n) 1 ≡ ok n
        checked n = ground arith

    exponent : length ds % 2 ^ 32 ≡ length ds
    exponent = Nat.mod-eq_of_lt short

    ground_over : 2 ^ 64 ≤ base ^ length ds → fits 64 (base ^ length ds) ≡ panic
    ground_over h = ground (arith, h)

    run :
        base ^ length ds < 2 ^ 64
        → is_filter_composite (d ∷ ds) base filter_primes (suc (length ds))
          ≡ ok (any (divides_below (base ^ length ds) number) filter_primes)
    run room =
        rw (minus, exponent, fits-ok 64 (base ^ length ds) room)
          (filter_loop_lem base (base ^ length ds) (d ∷ ds) narrow are_digits 2 filter_primes
            (omega arith) asc)

    same : (b : Bool) → ok b ≡ ok true → b ≡ true
    same b e = ground (arith, e)

    large : base ^ length ds ≤ number
    large = omega (arith, digits_to_integer-value (d ∷ ds) base, leading-le base d ds lead)

    composite :
        base ^ length ds < 2 ^ 64
        → is_filter_composite (d ∷ ds) base filter_primes (suc (length ds)) ≡ ok true
        → ¬ IsPrime number
    composite room filtered prime =
        let (p, big, small, bound, div) =
          hit-divides (base ^ length ds) number 2 filter_primes asc
            (same _ (sym (run room) ∙ filtered)) in
        omega
          (arith, large, bound, prime.only p (omega (arith, big)) (Nat.dvd_of_mod-eq-zero p div))
