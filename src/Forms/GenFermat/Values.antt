-- ===== src/Forms/GenFermat/Values.antt =====
-- When a prime divides b ^ (2 ^ n) + 1, by Fermat's little theorem.
use native.Mathlib.Nat
use prime_hunter.Common.Prime.{IsPrime}
use prime_hunter.Common.Mod.{CongMod, cong-mul, cong-pow, pow-add}
use prime_hunter.Common.Residue.{mod-pred}
use prime_hunter.Common.{
  ℕ, zero, suc, ◌+◌, ◌-◌, ◌*◌, ◌/◌, ◌%◌, ◌^◌, ◌<◌, ◌∣◌, false, ◌==◌, ◌≡◌, refl, sym, ap, ◌∙◌, arith,
}
use prime_hunter.Sieve.Fermat.{fermat}
use prime_hunter.Sieve.Order.Smallest.{pow-mul, one-pow}

-- The generalized Fermat number of b.
abbrev pub gen_fermat : ℕ → ℕ → ℕ
gen_fermat b n = b ^ (2 ^ n) + 1

-- By Fermat, an exponent counts modulo p - 1.
fermat_reduced : (p b e : ℕ) → IsPrime p → ¬ (p ∣ b) → CongMod p (b ^ (e % (p - 1))) (b ^ e)
fermat_reduced p b e prime apart =
    ap (λ (t : ℕ). t % p) (sym (Nat.one-mul (b ^ (e % (p - 1)))))
    ∙ cong-mul p 1 (b ^ ((p - 1) * (e / (p - 1)))) (b ^ (e % (p - 1))) (b ^ (e % (p - 1)))
        (sym rounds) refl
    ∙ ap (λ (t : ℕ). t % p)
        (sym (pow-add b ((p - 1) * (e / (p - 1))) (e % (p - 1)))
          ∙ ap (λ (t : ℕ). b ^ t) (Nat.div-add-mod e (p - 1)))
  where
    order_one : CongMod p (b ^ (p - 1)) 1
    order_one = fermat p b prime apart ∙ sym (Nat.mod-eq_of_lt prime.big)

    rounds : CongMod p (b ^ ((p - 1) * (e / (p - 1)))) 1
    rounds =
        ap (λ (t : ℕ). t % p) (pow-mul b (p - 1) (e / (p - 1)))
        ∙ cong-pow p (b ^ (p - 1)) 1 (e / (p - 1)) order_one
        ∙ ap (λ (t : ℕ). t % p) (one-pow (e / (p - 1)))

-- A multiple of p has no power that is -1 modulo p.
pub multiple_misses : (p b k : ℕ) → 1 < p → 0 < k → b % p ≡ 0 → ((b ^ k + 1) % p == 0) ≡ false
multiple_misses p b zero big pos h = absurd (omega arith)
multiple_misses p b (suc k) big pos h =
    sym (mod-pred p (b ^ suc k) (omega (arith, big))) ∙ ground (arith, vanishes, big)
  where
    vanishes : b ^ suc k % p ≡ 0
    vanishes =
        ap (λ (t : ℕ). t % p) (Nat.pow-suc b k)
        ∙ cong-mul p (b ^ k) (b ^ k) b 0 refl (h ∙ sym (Nat.zero-mod p))
        ∙ ap (λ (t : ℕ). t % p) (Nat.mul-zero (b ^ k))
        ∙ Nat.zero-mod p

-- The test of the sieve, at a base that q does not divide.
pub test_lem :
    (q b n : ℕ)
    → IsPrime q
    → (b % q == 0) ≡ false
    → ((b % q) ^ (2 ^ n % (q - 1)) % q == q - 1) ≡ (gen_fermat b n % q == 0)
test_lem q b n prime apart =
    ap (λ (t : ℕ). t == q - 1)
      (cong-pow q (b % q) b (2 ^ n % (q - 1)) (Nat.mod-mod b q)
        ∙ fermat_reduced q b (2 ^ n) prime not_dvd)
    ∙ mod-pred q (b ^ (2 ^ n)) (omega (arith, prime.big))
  where
    not_dvd : ¬ (q ∣ b)
    not_dvd h = ground (arith, apart, Nat.mod-eq-zero_of_dvd q h)
