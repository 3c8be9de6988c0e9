-- ===== src/Forms/Palindromic/Even.antt =====
-- A palindrome of even length is a multiple of base + 1.
use mathlib.Core.List.{reverse, reverse-cons, append_assoc}
use native.Mathlib.Nat
use prime_hunter.Common.{
  ℕ, zero, suc, ◌+◌, ◌*◌, ◌%◌, ◌^◌, ◌<◌, false, List, [], ◌∷◌, ◌++◌, length, length-append, ◌≡◌,
  refl, sym, ap, ◌∙◌, ok, arith,
}
use prime_hunter.Common.Mod.{CongMod, cong-add, cong-mul, cong-pow, pow-add, pow_square}
use prime_hunter.Forms.Palindromic.{push_mirrored, mirror_to_palindrome, digits_to_integer}
use prime_hunter.Forms.Palindromic.Digits.{value, digits_to_integer-value}
use prime_hunter.Forms.Palindromic.Mirror.{push_lem, take_all, length-reverse, checked}

-- The number of two arrays in a row.
value-append :
    (base : ℕ) (xs ys : List ℕ)
    → value base (xs ++ ys) ≡ value base xs * base ^ length ys + value base ys
unfolding value
value-append base [] ys = omega (arith, Nat.zero-mul (base ^ length ys))
value-append base (x ∷ xs) ys = omega (
  arith,
  value-append base xs ys,
  Nat.add-mul (x * base ^ length xs) (value base xs) (base ^ length ys),
  Nat.mul_assoc x (base ^ length xs) (base ^ length ys),
  ap (λ (t : ℕ). x * t)
      (ap (λ (t : ℕ). base ^ t) (length-append xs ys) ∙ pow-add base (length xs) (length ys)),
)

one_power : (n : ℕ) → 1 ^ n ≡ 1
one_power zero = Nat.pow-zero 1
one_power (suc n) = omega (arith, Nat.pow-suc 1 n, one_power n, Nat.mul-one (1 ^ n))

-- base ^ (2 * n + 1) is -1 modulo base + 1.
odd_power : (b n : ℕ) → 0 < b → (b ^ (n + n + 1) + 1) % (b + 1) ≡ 0
odd_power zero n h = absurd (omega arith)
odd_power (suc c) n h =
    cong-add (suc c + 1) (suc c ^ (n + n + 1)) (suc c) 1 1 power refl ∙ Nat.mod_self (suc c + 1)
  where
    first : (b : ℕ) → b ^ 1 ≡ b
    first b = omega (arith, Nat.pow-suc b 0, ap (λ (t : ℕ). t * b) (Nat.pow-zero b), Nat.one-mul b)

    square : CongMod (suc c + 1) (suc c * suc c) 1
    square =
        ap (λ (t : ℕ). t % (suc c + 1)) {x = suc c * suc c} {y = (suc c + 1) * c + 1} (grind arith)
        ∙ Nat.mul-add-mod_self_left (suc c + 1) c 1

    even : CongMod (suc c + 1) (suc c ^ (n + n)) 1
    even =
        ap (λ (t : ℕ). t % (suc c + 1)) (pow-add (suc c) n n ∙ sym (pow_square (suc c) n))
        ∙ cong-pow (suc c + 1) (suc c * suc c) 1 n square
        ∙ ap (λ (t : ℕ). t % (suc c + 1)) (one_power n)

    power : CongMod (suc c + 1) (suc c ^ (n + n + 1)) (suc c)
    power =
        ap (λ (t : ℕ). t % (suc c + 1))
          (pow-add (suc c) (n + n) 1 ∙ ap (λ (t : ℕ). suc c ^ (n + n) * t) (first (suc c)))
        ∙ cong-mul (suc c + 1) (suc c ^ (n + n)) 1 (suc c) (suc c) even refl
        ∙ ap (λ (t : ℕ). t % (suc c + 1)) (Nat.one-mul (suc c))

mirrored_multiple :
    (base : ℕ) (half : List ℕ) → 0 < base → value base (half ++ reverse half) % (base + 1) ≡ 0
unfolding value
mirrored_multiple base [] h = Nat.zero-mod (base + 1)
mirrored_multiple base (x ∷ xs) h =
    ap (λ (t : ℕ). t % (base + 1)) whole
    ∙ cong-add (base + 1) (x * (base ^ (length xs + length xs + 1) + 1)) 0 (inner * base ^ 1) 0
        outer_part (inner_part (mirrored_multiple base xs h))
    ∙ Nat.zero-mod (base + 1)
  where
    inner : ℕ
    inner = value base (xs ++ reverse xs)

    tail : xs ++ reverse (x ∷ xs) ≡ (xs ++ reverse xs) ++ x ∷ []
    tail = ap (λ t. xs ++ t) (reverse-cons x xs) ∙ sym (append_assoc xs (reverse xs) (x ∷ []))

    count : length (xs ++ reverse (x ∷ xs)) ≡ length xs + length xs + 1
    count = length-append xs (reverse (x ∷ xs)) ∙ omega (arith, length-reverse (x ∷ xs))

    last : value base (xs ++ reverse (x ∷ xs)) ≡ inner * base ^ 1 + x
    last =
        ap (value base) tail
        ∙ value-append base (xs ++ reverse xs) (x ∷ [])
        ∙ omega (arith, ap (λ (t : ℕ). x * t) (Nat.pow-zero base), Nat.mul-one x)

    whole :
        x * base ^ length (xs ++ reverse (x ∷ xs)) + value base (xs ++ reverse (x ∷ xs))
        ≡ x * (base ^ (length xs + length xs + 1) + 1) + inner * base ^ 1
    whole = omega (
      arith,
      last,
      ap (λ (t : ℕ). x * base ^ t) count,
      Nat.mul-add x (base ^ (length xs + length xs + 1)) 1,
    )

    outer_part : CongMod (base + 1) (x * (base ^ (length xs + length xs + 1) + 1)) 0
    outer_part =
        cong-mul (base + 1) x x (base ^ (length xs + length xs + 1) + 1) 0 refl
          (odd_power base (length xs) h ∙ sym (Nat.zero-mod (base + 1)))
        ∙ ap (λ (t : ℕ). t % (base + 1)) (Nat.mul-zero x)

    inner_part : inner % (base + 1) ≡ 0 → CongMod (base + 1) (inner * base ^ 1) 0
    inner_part ih =
        cong-mul (base + 1) inner 0 (base ^ 1) (base ^ 1) (ih ∙ sym (Nat.zero-mod (base + 1))) refl
        ∙ ap (λ (t : ℕ). t % (base + 1)) (Nat.zero-mul (base ^ 1))

-- In a base above 0, the number that an even mirroring of a half stands for is a multiple of
-- base + 1.
pub even-dvd :
    (half : List ℕ) (base : ℕ)
    → 0 < base
    → (digits : List ℕ) × (mirror_to_palindrome half false ≡ ok digits)
      × (digits_to_integer digits base % (base + 1) ≡ 0)
unfolding mirror_to_palindrome
even-dvd half base h = (
  half ++ reverse half,
  checked (length half * 2) 0 (omega arith) (λ x. push_mirrored half (length half) half)
      ∙ push_lem half (length half) half (omega arith)
      ∙ ap (λ t. ok (half ++ reverse t)) (take_all half),
  ap (λ (t : ℕ). t % (base + 1)) (digits_to_integer-value (half ++ reverse half) base)
      ∙ mirrored_multiple base half h,
)
