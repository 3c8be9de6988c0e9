-- ===== src/Sieve/Fermat.antt =====
-- Fermat's little theorem, by the binomial theorem.
use native.Mathlib.Nat
use prime_hunter.Common.Prime.{IsPrime}
use prime_hunter.Common.Mod.{CongMod, cong-add}
use prime_hunter.Common.Residue.{mod-eq_iff, mod-one_iff}
use prime_hunter.Common.{
  ℕ, zero, suc, ◌+◌, ◌-◌, ◌*◌, ◌%◌, ◌^◌, ◌<◌, ◌≤◌, ◌∣◌, ◌≡◌, refl, sym, ap, ◌∙◌, ◌==◌, ==_iff, inl,
  inr, Bool-cases, arith,
}
use prime_hunter.Sieve.Factor.Euclid.{prime-dvd-mul}

binom : ℕ → ℕ → ℕ
binom n zero = 1
binom zero (suc k) = 0
binom (suc n) (suc k) = binom n k + binom n (suc k)

binom_above : (n k : ℕ) → n < k → binom n k ≡ 0
unfolding binom
binom_above n zero h = absurd (omega arith)
binom_above zero (suc k) h = refl
binom_above (suc n) (suc k) h =
    omega (arith, binom_above n k (omega arith), binom_above n (suc k) (omega arith))

binom_self : (n : ℕ) → binom n n ≡ 1
unfolding binom
binom_self zero = refl
binom_self (suc n) = omega (arith, binom_self n, binom_above n (suc n) (omega arith))

-- k * binom n k = n * binom (n - 1) (k - 1).
absorb : (n k : ℕ) → suc k * binom (suc n) (suc k) ≡ suc n * binom n k
unfolding binom
absorb zero zero = refl
absorb zero (suc k) = omega arith
absorb (suc n) zero = omega (arith, absorb n zero)
absorb (suc n) (suc k) =
    regroup n k (binom (suc n) (suc k)) (binom (suc n) (suc (suc k))) (binom n k) (binom n (suc k))
      refl (absorb n k) (absorb n (suc k))
  where
    regroup :
        (n k x y u v : ℕ)
        → x ≡ u + v
        → suc k * x ≡ suc n * u
        → suc (suc k) * y ≡ suc n * v
        → suc (suc k) * (x + y) ≡ suc (suc n) * x
    regroup n k x y u v e p q = omega (
      arith,
      e,
      p,
      q,
      Nat.mul-add (suc (suc k)) x y,
      ap (λ (t : ℕ). suc n * t) e,
      Nat.mul-add (suc n) u v,
      Nat.suc-mul (suc k) x,
      Nat.suc-mul (suc n) x,
    )

-- The terms of (1 + a) ^ n up to a ^ m.
partial : ℕ → ℕ → ℕ → ℕ
partial a n zero = 1
partial a n (suc m) = partial a n m + binom n (suc m) * a ^ suc m

partial-suc : (a n m : ℕ) → partial a (suc n) (suc m) ≡ partial a n (suc m) + a * partial a n m
unfolding partial binom
partial-suc a n zero = omega (
  arith,
  Nat.pow-suc a 0,
  Nat.pow-zero a,
  Nat.one-mul a,
  ap (λ (t : ℕ). (1 + binom n 1) * t) (Nat.pow-suc a 0 ∙ ap (λ (t : ℕ). t * a) (Nat.pow-zero a)),
  Nat.add-mul 1 (binom n 1) (1 * a),
  ap (λ (t : ℕ). binom n 1 * t) (Nat.pow-suc a 0 ∙ ap (λ (t : ℕ). t * a) (Nat.pow-zero a)),
)
partial-suc a n (suc m) =
    regroup (partial a (suc n) (suc m)) (partial a n (suc m)) (partial a n m) (binom n (suc m))
      (binom n (suc (suc m))) (a ^ suc m) (partial-suc a n m)
  where
    regroup :
        (x y z u v w : ℕ)
        → x ≡ y + a * z
        → x + (u + v) * a ^ suc (suc m) ≡ y + v * a ^ suc (suc m) + a * (z + u * a ^ suc m)
    regroup x y z u v w e = omega (
      arith,
      e,
      Nat.add-mul u v (a ^ suc (suc m)),
      Nat.mul-add a z (u * a ^ suc m),
      ap (λ (t : ℕ). u * t) (Nat.pow-suc a (suc m) ∙ Nat.mul_comm (a ^ suc m) a),
      Nat.mul_left_comm u a (a ^ suc m),
    )

-- The binomial theorem.
power-partial : (a n : ℕ) → (1 + a) ^ n ≡ partial a n n
unfolding partial
power-partial a zero = Nat.pow-zero (1 + a)
power-partial a (suc n) =
    Nat.pow-suc (1 + a) n
    ∙ ap (λ (t : ℕ). t * (1 + a)) (power-partial a n)
    ∙ omega (
      arith,
      Nat.mul_comm (partial a n n) (1 + a),
      Nat.add-mul 1 a (partial a n n),
      ap (λ (t : ℕ). t * a ^ suc n) (binom_above n (suc n) (omega arith)),
      partial-suc a n n,
    )

-- A prime divides its binomial coefficients but the outer ones.
prime-dvd-binom : (n k : ℕ) → IsPrime (suc n) → k < n → suc n ∣ binom (suc n) (suc k)
prime-dvd-binom n k prime h =
    elim (prime-dvd-mul (suc n) (suc k) (binom (suc n) (suc k)) prime
      (rw (absorb n k) (Nat.dvd-mul_right (suc n) (binom n k)))) [
        | inl left ↦ absurd (omega (arith, Nat.le_of_dvd (omega arith) left, h))
        | inr right ↦ right
      ]

partial_small : (a n m : ℕ) → IsPrime (suc n) → m ≤ n → CongMod (suc n) (partial a (suc n) m) 1
unfolding partial
partial_small a n zero prime h = refl
partial_small a n (suc m) prime h =
    cong-add (suc n) (partial a (suc n) m) 1 (binom (suc n) (suc m) * a ^ suc m) 0
      (partial_small a n m prime (omega (arith, h)))
      (Nat.mod-eq-zero_of_dvd (suc n) (
          Nat.dvd-mul_right_of_dvd (suc n) (prime-dvd-binom n m prime (omega (arith, h)))
            (a ^ suc m))
        ∙ sym (Nat.zero-mod (suc n)))

next_power : (a n : ℕ) → IsPrime (suc n) → CongMod (suc n) ((1 + a) ^ suc n) (1 + a ^ suc n)
unfolding partial
next_power a n prime =
    ap (λ (t : ℕ). t % suc n) (power-partial a (suc n))
    ∙ cong-add (suc n) (partial a (suc n) n) 1 (binom (suc n) (suc n) * a ^ suc n) (a ^ suc n)
        (partial_small a n n prime (omega arith))
        (ap (λ (t : ℕ). t * a ^ suc n % suc n) (binom_self (suc n))
          ∙ ap (λ (t : ℕ). t % suc n) (Nat.one-mul (a ^ suc n)))

-- a ^ p ≡ a modulo a prime p.
pub fermat-pow : (p a : ℕ) → IsPrime p → CongMod p (a ^ p) a
fermat-pow zero a prime = absurd (omega (arith, prime.big))
fermat-pow (suc n) zero prime = ap (λ (t : ℕ). t % suc n) (Nat.pow-suc 0 n ∙ Nat.mul-zero (0 ^ n))
fermat-pow (suc n) (suc a) prime =
    ap (λ (t : ℕ). t ^ suc n % suc n) e
    ∙ next_power a n prime
    ∙ cong-add (suc n) 1 1 (a ^ suc n) a refl (fermat-pow (suc n) a prime)
    ∙ ap (λ (t : ℕ). t % suc n) (sym e)
  where
    e : suc a ≡ 1 + a
    e = omega arith

-- a ^ (p - 1) ≡ 1 modulo a prime p that does not divide a.
pub fermat : (p a : ℕ) → IsPrime p → ¬ (p ∣ a) → a ^ (p - 1) % p ≡ 1
fermat p a prime apart = close
  where
    pos : 0 < p
    pos = omega (arith, prime.big)

    positive : 0 < a
    positive = elim (Bool-cases (a == 0)) [
      | inl is_zero ↦ absurd (apart (rw ((==_iff a 0).0 is_zero) (Nat.dvd-zero p)))
      | inr other ↦ ground (arith, other)
    ]

    split : a ^ p ≡ a * a ^ (p - 1)
    split = ap (λ (t : ℕ). a ^ t) (the_suc) ∙ Nat.pow-suc a (p - 1) ∙ Nat.mul_comm (a ^ (p - 1)) a
      where
        the_suc : p ≡ suc (p - 1)
        the_suc = omega (arith, pos)

    room : 1 ≤ a ^ (p - 1)
    room = Nat.one-le-pow (p - 1) a positive

    factor : a ^ p - a ≡ a * (a ^ (p - 1) - 1)
    factor = omega (arith, split, Nat.mul-sub a (a ^ (p - 1)) 1)

    whole : p ∣ a * (a ^ (p - 1) - 1)
    whole = rw (sym factor) (
        Nat.dvd_of_mod-eq-zero p (
          (==_iff ((a ^ p - a) % p) 0).0 (
            sym (mod-eq_iff p (a ^ p) a pos (rw split (Nat.le-mul_of_pos_right a room)))
            ∙ (==_iff (a ^ p % p) (a % p)).1 (fermat-pow p a prime))))

    close : a ^ (p - 1) % p ≡ 1
    close = elim (prime-dvd-mul p a (a ^ (p - 1) - 1) prime whole) [
      | inl left ↦ absurd (apart left)
      | inr right ↦ (==_iff (a ^ (p - 1) % p) 1).0 (
          mod-one_iff p (a ^ (p - 1)) prime.big room
          ∙ (==_iff ((a ^ (p - 1) - 1) % p) 0).1 (Nat.mod-eq-zero_of_dvd p right))
    ]
