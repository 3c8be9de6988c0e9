-- ===== src/Sieve/Factor/Euclid.antt =====
-- Euclid's lemma: a prime that divides a product divides a factor, so the primes of a number are
-- those of its factorization.
use mathlib.Core.Path.{subst}
use native.Mathlib.Nat
use prime_hunter.Common.Prime.{IsPrime}
use prime_hunter.Common.{
  ℕ, zero, suc, ◌+◌, ◌*◌, ◌^◌, ◌∣◌, ◌≡◌, ◌⊎◌, inl, inr, List, [], ◌∷◌, ltb, Bool-cases, ltb→lt,
  ltb→le, arith,
}
use prime_hunter.Sieve.ModArith.{gcd}
use prime_hunter.Sieve.ModArith.Gcd.{dvd-gcd, dvd-gcd-mul}
use prime_hunter.Sieve.Factor.Correct.{product, AscendingPrimes}

-- A common divisor of a prime `q` and of `a` is 1, or `q` divides `a`.
gcd-prime : (q a : ℕ) → IsPrime q → (q ∣ a) ⊎ (gcd a q ≡ 1)
gcd-prime q a prime =
    let (left, right) = (dvd-gcd (gcd a q) a q).0 (Nat.dvd_refl (gcd a q)) in
    elim (Bool-cases (ltb 1 (gcd a q))) [
      | inl big ↦
          inl (subst (λ t. t ∣ a) (prime.only (gcd a q) (ltb→lt 1 (gcd a q) big) right) left)
      | inr small ↦ inr (
          omega (
            arith,
            ltb→le 1 (gcd a q) small,
            Nat.pos_of_dvd_of_pos right (omega (arith, prime.big)),
          ))
    ]

pub prime-dvd-mul : (q a b : ℕ) → IsPrime q → q ∣ a * b → (q ∣ a) ⊎ (q ∣ b)
prime-dvd-mul q a b prime h = elim (gcd-prime q a prime) [
  | inl left ↦ inl left
  | inr coprime ↦
      inr
        (subst (◌∣◌ q) (rw (coprime, Nat.one-mul)) (dvd-gcd-mul q a q b h (Nat.dvd-mul_right q b)))
]

prime-dvd-pow : (q p e : ℕ) → IsPrime q → IsPrime p → q ∣ p ^ e → q ≡ p
prime-dvd-pow q p zero prime prime_p h =
    absurd (omega (arith, prime.big, Nat.eq-one_of_dvd-one (rw Nat.pow-zero at h)))
prime-dvd-pow q p (suc e) prime prime_p h =
    elim (prime-dvd-mul q (p ^ e) p prime (rw Nat.pow-suc at h)) [
      | inl left ↦ prime-dvd-pow q p e prime prime_p left
      | inr right ↦ prime_p.only q prime.big right
    ]

-- `q` is one of the primes of the list.
abbrev pub IsFactor : ℕ → List (ℕ × ℕ) → Type 0
IsFactor q [] = ⊥
IsFactor q ((p, e) ∷ fs) = (q ≡ p) ⊎ IsFactor q fs

pub prime-dvd-product :
    (q low : ℕ) (fs : List (ℕ × ℕ))
    → IsPrime q
    → AscendingPrimes low fs
    → q ∣ product fs
    → IsFactor q fs
unfolding product
prime-dvd-product q low [] prime h div =
    absurd (omega (arith, prime.big, Nat.eq-one_of_dvd-one div))
prime-dvd-product q low ((p, e) ∷ fs) prime h div =
    elim (prime-dvd-mul q (p ^ e) (product fs) prime div) [
      | inl left ↦ inl (prime-dvd-pow q p e prime h.1 left)
      | inr right ↦ inr (prime-dvd-product q (p + 1) fs prime h.3 right)
    ]
