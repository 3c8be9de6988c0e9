-- ===== src/Forms/Palindromic.antt =====
-- src/palindromic.rs: the digit arrays, most significant digit first, and the divisor filter.
pub mod Digits
pub mod Mirror
pub mod Even
pub mod Filter
use prime_hunter.Common.{
  ℕ, zero, suc, ◌+◌, ◌-◌, ◌*◌, ◌%◌, ◌^◌, Bool, true, false, List, [], ◌∷◌, ◌++◌, length, ◌==◌, ltb,
  leb, if◌then◌else◌, Outcome, ok, panic, ◌>>=◌, fits, sub_checked,
}

-- The digits from the right, each with what it hands on: whether the ones behind it overflowed.
pub increment_digits : List ℕ → ℕ → Outcome (List ℕ × Bool)
increment_digits [] base = ok ([], true)
increment_digits (d ∷ ds) base = do
  r ← increment_digits ds base
  let bumped : Outcome (List ℕ × Bool) = (do
    x ← fits 32 (d + 1)
    ok (if ltb x base then (x ∷ r.0, false) else (0 ∷ r.0, true)))
  if r.1 then bumped else ok (d ∷ r.0, false)

-- `half_digits[i]`.
pub digit_at : List ℕ → ℕ → Outcome ℕ
digit_at [] i = panic
digit_at (d ∷ ds) zero = ok d
digit_at (d ∷ ds) (suc i) = digit_at ds i

-- `for i in (0..mirror_from).rev() { digits.push(half_digits[i]) }`.
pub push_mirrored : List ℕ → ℕ → List ℕ → Outcome (List ℕ)
push_mirrored half_digits zero digits = ok digits
push_mirrored half_digits (suc i) digits = do
  d ← digit_at half_digits i
  push_mirrored half_digits i (digits ++ d ∷ [])

unfoldable pub mirror_to_palindrome : List ℕ → Bool → Outcome (List ℕ)
mirror_to_palindrome half_digits is_odd = do
  full_len ← sub_checked (length half_digits * 2) (if is_odd then 1 else 0)
  push_mirrored half_digits (if is_odd then length half_digits - 1 else length half_digits)
      half_digits

pub mod_loop : ℕ → ℕ → List ℕ → ℕ → Outcome ℕ
mod_loop base m [] r = ok r
mod_loop base m (d ∷ ds) r = do
  product ← fits 64 (r * base)
  sum ← fits 64 (product + d)
  next ← (if m == 0 then panic else ok (sum % m))
  mod_loop base m ds next

unfoldable pub digits_mod : List ℕ → ℕ → ℕ → Outcome ℕ
digits_mod digits base m = mod_loop base m digits 0

pub integer_loop : ℕ → List ℕ → ℕ → ℕ
integer_loop base [] result = result
integer_loop base (d ∷ ds) result = integer_loop base ds (result * base + d)

unfoldable pub digits_to_integer : List ℕ → ℕ → ℕ
digits_to_integer digits base = integer_loop base digits 0

-- `for &p in filter_primes`, up to `min_value`.
pub filter_loop : List ℕ → ℕ → ℕ → List ℕ → Outcome Bool
filter_loop digits base min_value [] = ok false
filter_loop digits base min_value (p ∷ ps) =
    let rest = filter_loop digits base min_value ps in
    let test : Outcome Bool = (do r ← digits_mod digits base p; if r == 0 then ok true else rest) in
    if leb min_value p then ok false else test

-- `(digit_count - 1) as u32` keeps 32 bits, and `pow` is computed in u64.
unfoldable pub is_filter_composite : List ℕ → ℕ → List ℕ → ℕ → Outcome Bool
is_filter_composite digits base filter_primes digit_count = do
  exponent ← sub_checked digit_count 1
  min_value ← fits 64 (base ^ (exponent % 2 ^ 32))
  filter_loop digits base min_value filter_primes
