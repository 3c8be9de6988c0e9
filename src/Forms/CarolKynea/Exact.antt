-- ===== src/Forms/CarolKynea/Exact.antt =====
-- The Carol and Kynea sieve strikes out exactly the numbers with a divisor in its list.
use native.Mathlib.Nat
use prime_hunter.Common.{
  ℕ, suc, ◌+◌, ◌-◌, ◌*◌, ◌%◌, ◌^◌, ◌<◌, ◌≤◌, Bool, true, false, ◌&&◌, not, List, [], ◌∷◌, replicate,
  any, All, ◌==◌, leb, ◌≡◌, refl, sym, ap, ◌∙◌, ok, sub_checked, Bool-cases, leb→le, inl, inr,
  arith,
}
use prime_hunter.Common.Mod.{cong-add, mul-mod_right}
use prime_hunter.Common.Residue.{fits-ok, mod-eq_iff, mod-one_iff}
use prime_hunter.Sieve.ModArith.Power.{pow_mod-eq-pow}
use prime_hunter.Forms.Sweep.{
  sweep-number_map, number_map, strike, strike_out, for_each-strike_out, spared,
}
use prime_hunter.Forms.CullenWoodall.Exact.{IsSmall}
use prime_hunter.Forms.CarolKynea.{carol_kynea_step, mark_carol_kynea, sieve_carol_kynea}
use prime_hunter.Forms.CarolKynea.Values.{
  large, carol_form, kynea_form, carol_room, no_small, even_power, divides_carol, divides_kynea,
}

-- What the pass for q carries along.
record IsCarried (q n : ℕ) (s : ℕ × ℕ) : Type 0 where
  pub two_on : 2 ≤ n
  pub power_two : s.0 ≡ 2 ^ n % q
  pub power_four_ : s.1 ≡ 4 ^ n % q

next_power : (q b n : ℕ) → b * (b ^ n % q) % q ≡ b ^ (n + 1) % q
next_power q b n =
    mul-mod_right q b (b ^ n)
    ∙ ap (λ (t : ℕ). t % q)
        (Nat.mul_comm b (b ^ n) ∙ sym (Nat.pow-suc b n) ∙ ap (λ (t : ℕ). b ^ t) e)
  where
    e : suc n ≡ n + 1
    e = omega arith

module _ (sieve_min_n : ℕ) where
  abbrev from : ℕ → Bool
  from n = leb sieve_min_n n

  abbrev outcome : ℕ → ℕ → Bool × Bool → Bool × Bool
  outcome q = strike_out from divides_carol divides_kynea (q ∷ [])

  struck :
      (q n g2 g4 : ℕ) (x : Bool × Bool)
      → IsSmall q
      → IsCarried q n (g2, g4)
      → ◌≡◌ {A = Bool × Bool}
          (
            strike (from n && (g4 == (2 * g2 % q + 1) % q)) x.0,
            strike (from n && ((g4 + 2 * g2 % q) % q == 1)) x.1,
          )
          (outcome q n x)
  unfolding strike_out
  struck q n g2 g4 x (big, small) inv =
      let pos : 0 < q = omega (arith, big) in
      let two : 2 * g2 % q ≡ 2 * 2 ^ n % q =
        ap (λ (t : ℕ). 2 * t % q) inv.power_two ∙ mul-mod_right q 2 (2 ^ n) in
      let right : (2 * g2 % q + 1) % q ≡ (2 * 2 ^ n + 1) % q =
        cong-add q (2 * g2 % q) (2 * 2 ^ n) 1 1
          (ap (λ (t : ℕ). t % q) two ∙ Nat.mod-mod (2 * 2 ^ n) q) refl in
      let sum : (g4 + 2 * g2 % q) % q ≡ (4 ^ n + 2 * 2 ^ n) % q =
        cong-add q g4 (4 ^ n) (2 * g2 % q) (2 * 2 ^ n)
          (ap (λ (t : ℕ). t % q) inv.power_four_ ∙ Nat.mod-mod (4 ^ n) q)
          (ap (λ (t : ℕ). t % q) two ∙ Nat.mod-mod (2 * 2 ^ n) q) in
      let is_carol : (g4 == (2 * g2 % q + 1) % q) ≡ divides_carol q n =
        (λ i. inv.power_four_ i == right i)
        ∙ mod-eq_iff q (4 ^ n) (2 * 2 ^ n + 1) pos (carol_room n inv.two_on)
        ∙ ap (λ (t : ℕ). t % q == 0) (sym (carol_form n)) in
      let is_kynea : ((g4 + 2 * g2 % q) % q == 1) ≡ divides_kynea q n =
        ap (λ (t : ℕ). t == 1) sum
        ∙ mod-one_iff q (4 ^ n + 2 * 2 ^ n) big (omega (arith, Nat.one-le-pow n 4 (omega arith)))
        ∙ ap (λ (t : ℕ). t % q == 0) (sym (kynea_form n)) in
      rw (is_carol, is_kynea) (pairs (from n) (divides_carol q n) (divides_kynea q n) x.0 x.1)
    where
      pairs :
          (t c w x y : Bool)
          → ◌≡◌ {A = Bool × Bool}
              (strike (t && c) x, strike (t && w) y)
              (
                x && not (t && any (λ (k : ℕ). c) (q ∷ [])),
                y && not (t && any (λ (k : ℕ). w) (q ∷ [])),
              )
      pairs t c w x y = ground arith

  step_lem :
      (q n : ℕ) (s : ℕ × ℕ) (x : Bool × Bool)
      → IsSmall q
      → IsCarried q n s
      → (s' : ℕ × ℕ) × (carol_kynea_step q sieve_min_n n s x ≡ ok (outcome q n x, s'))
        × IsCarried q (n + 1) s'
  unfolding carol_kynea_step
  step_lem q n (g2, g4) (c, k) (big, small) inv =
      let pos : 0 < q = omega (arith, big) in
      let g2_small : g2 < q = rw inv.power_two (Nat.mod-lt (2 ^ n) pos) in
      let g4_small : g4 < q = rw inv.power_four_ (Nat.mod-lt (4 ^ n) pos) in
      let two_small : 2 * g2 % q < q = Nat.mod-lt (2 * g2) pos in
      (
        (2 * g2 % q, 4 * g4 % q),
        rw
            (
              fits-ok 64 (2 * g2) (omega (arith, g2_small, small)),
              fits-ok 64 (2 * g2 % q + 1) (omega (arith, two_small, small)),
              fits-ok 64 (g4 + 2 * g2 % q) (omega (arith, g4_small, two_small, small)),
              fits-ok 64 (4 * g4) (omega (arith, g4_small, small)),
            )
            (ap (λ (r : Bool × Bool). ok (r, (2 * g2 % q, 4 * g4 % q)))
              (struck q n g2 g4 (c, k) (big, small) inv)),
        record {
          two_on = omega (arith, inv.two_on);
          power_two = ap (λ (t : ℕ). 2 * t % q) inv.power_two ∙ next_power q 2 n;
          power_four_ = ap (λ (t : ℕ). 4 * t % q) inv.power_four_ ∙ next_power q 4 n;
        },
      )

  -- The numbers are divisible by neither 2 nor 3, so that these may be left out.
  small_strikes_none :
      (q : ℕ)
      → 1 < q
      → q ≤ 3
      → (n : ℕ) → 2 ≤ n
      → (divides_carol q n ≡ false) × (divides_kynea q n ≡ false)
  small_strikes_none q big small n h =
      let l = large n h in
      let even = even_power n h in
      (
        no_small q (2 ^ n - 1) big small (omega (arith, l, even))
            (squares (2 ^ n - 1) (omega (arith, l))),
        no_small q (2 ^ n + 1) big small (omega (arith, even))
            (squares (2 ^ n + 1) (omega (arith, l))),
      )
    where
      squares : (y : ℕ) → 2 ≤ y → 2 ≤ y * y
      squares y h = grind (arith, Nat.mul-le-mul_left y h)

  mark_lem :
      (min_n : ℕ)
      → 2 ≤ min_n
      → min_n < 2 ^ 64
      → (q : ℕ) (xs : List (Bool × Bool)) → IsSmall q
      → mark_carol_kynea min_n sieve_min_n q xs ≡ ok (number_map (outcome q) min_n xs)
  unfolding mark_carol_kynea
  mark_lem min_n two_on narrow q xs (big, small) = elim (Bool-cases (leb q 3)) [
    | inl skipped ↦ rw skipped (
        ap ok (
          spared from divides_carol divides_kynea q 2
            (small_strikes_none q big (leb→le q 3 skipped)) min_n xs two_on))
    | inr used ↦
        let pos : 0 < q = omega (arith, big) in
        rw (used, pow_mod-eq-pow 2 min_n q narrow pos, pow_mod-eq-pow 4 min_n q narrow pos)
          (sweep-number_map (carol_kynea_step q sieve_min_n) (outcome q) (IsCarried q)
            (λ n s x inv. step_lem q n s x (big, small) inv) min_n (2 ^ min_n % q, 4 ^ min_n % q) xs
            (record { two_on = two_on; power_two = refl; power_four_ = refl }))
  ]

  -- For 2 ≤ min_n ≤ max_n below 2 ^ 64 - 1 and a list of numbers from 2 up to 32 bits, the sieve
  -- returns without an overflow, and n survives for Carol exactly when it lies below sieve_min_n or
  -- no number of the list divides (2 ^ n - 1) ^ 2 - 2; for Kynea, (2 ^ n + 1) ^ 2 - 2.
  pub sieve_carol_kynea_lem :
      (min_n max_n : ℕ) (sieve_primes : List ℕ)
      → 2 ≤ min_n
      → min_n ≤ max_n
      → max_n < 2 ^ 64 - 1
      → All IsSmall sieve_primes
      → sieve_carol_kynea min_n max_n sieve_primes sieve_min_n
        ≡ ok (
            number_map
              (strike_out from divides_carol divides_kynea sieve_primes)
              min_n
              (replicate (max_n - min_n + 1) (true, true)))
  unfolding sieve_carol_kynea
  sieve_carol_kynea_lem min_n max_n sieve_primes two_on le narrow primes =
      rw (checked min_n max_n le, fits-ok 64 (max_n - min_n + 1) (omega arith))
        (for_each-strike_out from divides_carol divides_kynea (mark_carol_kynea min_n sieve_min_n)
          IsSmall min_n (mark_lem min_n two_on (omega arith)) sieve_primes
          (replicate (max_n - min_n + 1) (true, true)) primes)
    where
      checked : (a b : ℕ) → a ≤ b → sub_checked b a ≡ ok (b - a)
      checked a b h = ground arith
