-- ===== src/Forms/CullenWoodall/Exact.antt =====
-- The Cullen and Woodall sieve strikes out exactly the numbers with a divisor in its list.
use native.Mathlib.Nat
use prime_hunter.Common.{
  ℕ, zero, suc, ◌+◌, ◌-◌, ◌*◌, ◌%◌, ◌^◌, ◌<◌, ◌≤◌, Bool, true, false, ◌&&◌, not, List, [], ◌∷◌,
  replicate, any, All, ◌==◌, leb, ◌≡◌, refl, sym, ap, ◌∙◌, ok, sub_checked, Bool-cases, ==_iff, inl,
  inr, arith,
}
use prime_hunter.Common.Mod.{cong-add, mul-mod_left, mul-mod_right}
use prime_hunter.Common.Residue.{fits-ok, mod-pred, mod-one_iff, product_narrow}
use prime_hunter.Sieve.ModArith.Power.{pow_mod-eq-pow}
use prime_hunter.Forms.Sweep.{
  sweep-number_map, number_map, strike, strike_out, for_each-strike_out, spared,
}
use prime_hunter.Forms.CullenWoodall.{
  cullen_woodall_step, mark_cullen_woodall, sieve_cullen_woodall,
}

-- n * 2 ^ n + 1 and n * 2 ^ n - 1 have the divisor p.
abbrev pub divides_cullen : ℕ → ℕ → Bool
divides_cullen p n = (n * 2 ^ n + 1) % p == 0

abbrev pub divides_woodall : ℕ → ℕ → Bool
divides_woodall p n = (n * 2 ^ n - 1) % p == 0

-- What the pass for p carries along.
record IsCarried (p n : ℕ) (s : ℕ × ℕ) : Type 0 where
  pub positive : 0 < n
  pub power : s.0 ≡ 2 ^ n % p
  pub product : s.1 ≡ n * 2 ^ n % p

next_power : (p n : ℕ) → 2 * (2 ^ n % p) % p ≡ 2 ^ suc n % p
next_power p n = mul-mod_right p 2 (2 ^ n) ∙ ap (λ (t : ℕ). t % p) (omega (arith, Nat.pow-suc 2 n))

next_product : (p n : ℕ) → (2 * (n * 2 ^ n % p) + 2 ^ suc n % p) % p ≡ suc n * 2 ^ suc n % p
next_product p n =
    cong-add p (2 * (n * 2 ^ n % p)) (2 * (n * 2 ^ n)) (2 ^ suc n % p) (2 ^ suc n)
      (mul-mod_right p 2 (n * 2 ^ n)) (Nat.mod-mod (2 ^ suc n) p)
    ∙ ap (λ (t : ℕ). t % p) split
  where
    split : 2 * (n * 2 ^ n) + 2 ^ suc n ≡ suc n * 2 ^ suc n
    split =
        omega (
          arith,
          Nat.pow-suc 2 n,
          ap (λ (t : ℕ). n * t) (Nat.pow-suc 2 n),
          Nat.mul_assoc n (2 ^ n) 2,
        )

product_positive : (n : ℕ) → 0 < n → 0 < n * 2 ^ n
product_positive n h = Nat.mul-pos h (Nat.one-le-pow n 2 (omega arith))

-- A prime of 32 bits; its being prime is not used.
abbrev pub IsSmall : ℕ → Type 0
IsSmall p = (1 < p) × (p < 2 ^ 32)

module _ (sieve_min_n : ℕ) where
  abbrev from : ℕ → Bool
  from n = leb sieve_min_n n

  abbrev outcome : ℕ → ℕ → Bool × Bool → Bool × Bool
  outcome p = strike_out from divides_cullen divides_woodall (p ∷ [])

  struck :
      (p n f : ℕ) (x : Bool × Bool)
      → IsSmall p
      → 0 < n
      → f ≡ n * 2 ^ n % p
      → ◌≡◌ {A = Bool × Bool}
          (strike (from n && (f == p - 1)) x.0, strike (from n && (f == 1)) x.1)
          (outcome p n x)
  unfolding strike_out
  struck p n f x (big, small) pos e =
      let cullen : (f == p - 1) ≡ divides_cullen p n =
        ap (λ t. t == p - 1) e ∙ mod-pred p (n * 2 ^ n) (omega (arith, big)) in
      let woodall : (f == 1) ≡ divides_woodall p n =
        ap (λ t. t == 1) e ∙ mod-one_iff p (n * 2 ^ n) big (product_positive n pos) in
      rw (cullen, woodall) (pairs (from n) (divides_cullen p n) (divides_woodall p n) x.0 x.1)
    where
      pairs :
          (t c w x y : Bool)
          → ◌≡◌ {A = Bool × Bool}
              (strike (t && c) x, strike (t && w) y)
              (x && not (t && any (λ q. c) (p ∷ [])), y && not (t && any (λ q. w) (p ∷ [])))
      pairs t c w x y = ground arith

  step_lem :
      (p n : ℕ) (s : ℕ × ℕ) (x : Bool × Bool)
      → IsSmall p
      → IsCarried p n s
      → (s' : ℕ × ℕ) × (cullen_woodall_step p sieve_min_n n s x ≡ ok (outcome p n x, s'))
        × IsCarried p (n + 1) s'
  unfolding cullen_woodall_step
  step_lem p n (g, f) (c, w) (big, small) inv =
      let pos : 0 < p = omega (arith, big) in
      let g_small : g < p = rw inv.power (Nat.mod-lt (2 ^ n) pos) in
      let f_small : f < p = rw inv.product (Nat.mod-lt (n * 2 ^ n) pos) in
      let rest_small : 2 * g % p < p = Nat.mod-lt (2 * g) pos in
      (
        (2 * g % p, (2 * f + 2 * g % p) % p),
        rw
            (
              fits-ok 64 (2 * g) (omega (arith, g_small, small)),
              fits-ok 64 (2 * f) (omega (arith, f_small, small)),
              fits-ok 64 (2 * f + 2 * g % p) (omega (arith, f_small, rest_small, small)),
            )
            (ap (λ (r : Bool × Bool). ok (r, (2 * g % p, (2 * f + 2 * g % p) % p)))
              (struck p n f (c, w) (big, small) inv.positive inv.product)),
        carried p n g f inv,
      )
    where
      carried :
          (p n g f : ℕ)
          → IsCarried p n (g, f)
          → IsCarried p (n + 1) (2 * g % p, (2 * f + 2 * g % p) % p)
      carried p n g f inv =
          let power : 2 * g % p ≡ 2 ^ suc n % p =
            ap (λ (t : ℕ). 2 * t % p) inv.power ∙ next_power p n in
          let both : (2 * f + 2 * g % p) % p ≡ suc n * 2 ^ suc n % p =
            ap (λ (t : ℕ). (2 * f + t) % p) power
            ∙ ap (λ (t : ℕ). (2 * t + 2 ^ suc n % p) % p) inv.product
            ∙ next_product p n in
          let e : suc n ≡ n + 1 = omega arith in
          record {
            positive = omega arith;
            power = power ∙ ap (λ (t : ℕ). 2 ^ t % p) e;
            product = both ∙ ap (λ (t : ℕ). t * 2 ^ t % p) e;
          }

  odd_neighbours :
      (k x : ℕ) → x ≡ k * 2 → 0 < k → (((x + 1) % 2 == 0) ≡ false) × (((x - 1) % 2 == 0) ≡ false)
  odd_neighbours k x e h = ground arith

  -- p = 2 divides neither number, so that it may be left out.
  two_strikes_none : (n : ℕ) → 0 < n → (divides_cullen 2 n ≡ false) × (divides_woodall 2 n ≡ false)
  two_strikes_none zero h = absurd (omega arith)
  two_strikes_none (suc m) h =
      odd_neighbours (suc m * 2 ^ m) (suc m * 2 ^ suc m)
        (ap (λ (t : ℕ). suc m * t) (Nat.pow-suc 2 m) ∙ sym (Nat.mul_assoc (suc m) (2 ^ m) 2))
        (Nat.mul-pos (omega arith) (Nat.one-le-pow m 2 (omega arith)))

  mark_lem :
      (min_n : ℕ)
      → 0 < min_n
      → min_n < 2 ^ 64
      → (p : ℕ) (xs : List (Bool × Bool)) → IsSmall p
      → mark_cullen_woodall min_n sieve_min_n p xs ≡ ok (number_map (outcome p) min_n xs)
  unfolding mark_cullen_woodall
  mark_lem min_n pos narrow p xs (big, small) = elim (Bool-cases (p == 2)) [
    | inl two ↦ rw two (
        ap ok (
          spared from divides_cullen divides_woodall 2 1 two_strikes_none min_n xs pos
          ∙ ap (λ q. number_map (outcome q) min_n xs) (sym ((==_iff p 2).0 two))))
    | inr odd ↦
        let p_pos : 0 < p = omega (arith, big) in
        let run = pow_mod-eq-pow 2 min_n p narrow p_pos in
        let product_small : min_n % p * (2 ^ min_n % p) < 2 ^ 64 =
          product_narrow p (min_n % p) (2 ^ min_n % p) small (Nat.mod-lt min_n p_pos)
            (Nat.mod-lt (2 ^ min_n) p_pos) in
        rw (odd, run, fits-ok 64 (min_n % p * (2 ^ min_n % p)) product_small)
          (sweep-number_map (cullen_woodall_step p sieve_min_n) (outcome p) (IsCarried p)
            (λ n s x inv. step_lem p n s x (big, small) inv) min_n
            (2 ^ min_n % p, min_n % p * (2 ^ min_n % p) % p) xs
            (record {
              positive = pos;
              power = refl;
              product = mul-mod_left p min_n (2 ^ min_n % p) ∙ mul-mod_right p min_n (2 ^ min_n);
            }))
  ]

  -- For 0 < min_n ≤ max_n below 2 ^ 64 - 1 and a list of numbers from 2 up to 32 bits, the sieve
  -- returns without an overflow, and n survives for Cullen exactly when it lies below sieve_min_n or
  -- no number of the list divides n * 2 ^ n + 1; for Woodall, n * 2 ^ n - 1.
  pub sieve_cullen_woodall_lem :
      (min_n max_n : ℕ) (sieve_primes : List ℕ)
      → 0 < min_n
      → min_n ≤ max_n
      → max_n < 2 ^ 64 - 1
      → All IsSmall sieve_primes
      → sieve_cullen_woodall min_n max_n sieve_primes sieve_min_n
        ≡ ok (
            number_map
              (strike_out from divides_cullen divides_woodall sieve_primes)
              min_n
              (replicate (max_n - min_n + 1) (true, true)))
  unfolding sieve_cullen_woodall
  sieve_cullen_woodall_lem min_n max_n sieve_primes pos le narrow primes =
      rw (checked min_n max_n le, fits-ok 64 (max_n - min_n + 1) (omega arith))
        (for_each-strike_out from divides_cullen divides_woodall
          (mark_cullen_woodall min_n sieve_min_n) IsSmall min_n (mark_lem min_n pos (omega arith))
          sieve_primes (replicate (max_n - min_n + 1) (true, true)) primes)
    where
      checked : (a b : ℕ) → a ≤ b → sub_checked b a ≡ ok (b - a)
      checked a b h = ground arith
