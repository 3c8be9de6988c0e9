-- ===== src/Forms/Palindromic/Digits.antt =====
-- The number that a digit array stands for.
use native.Mathlib.Nat
use prime_hunter.Common.{
  ℕ, suc, ◌+◌, ◌-◌, ◌*◌, ◌%◌, ◌^◌, ◌<◌, ◌≤◌, Bool, true, false, List, [], ◌∷◌, length, All, ◌==◌,
  ltb, if◌then◌else◌, ◌≡◌, refl, sym, ap, ◌∙◌, ok, Bool-cases, ltb→lt, ltb→le, inl, inr, arith,
}
use prime_hunter.Common.Mod.{cong-add, cong-mul}
use prime_hunter.Common.Residue.{fits-ok}
use prime_hunter.Forms.Palindromic.{
  increment_digits, mod_loop, digits_mod, integer_loop, digits_to_integer,
}

-- The place value of each digit.
unfoldable pub value : ℕ → List ℕ → ℕ
value base [] = 0
value base (d ∷ ds) = d * base ^ length ds + value base ds

abbrev pub AreDigits : ℕ → List ℕ → Type 0
AreDigits base ds = All (λ d. d < base) ds

shift : (base r d k v : ℕ) → (r * base + d) * base ^ k + v ≡ r * base ^ suc k + (d * base ^ k + v)
shift base r d k v = omega (
  arith,
  Nat.add-mul (r * base) d (base ^ k),
  ap (λ (t : ℕ). r * t) (Nat.pow-suc base k ∙ Nat.mul_comm (base ^ k) base),
  Nat.mul_assoc r base (base ^ k),
)

integer_loop_lem :
    (base r : ℕ) (ds : List ℕ) → integer_loop base ds r ≡ r * base ^ length ds + value base ds
unfolding integer_loop value
integer_loop_lem base r [] = omega (arith, ap (λ (t : ℕ). r * t) (Nat.pow-zero base), Nat.mul-one r)
integer_loop_lem base r (d ∷ ds) =
    integer_loop_lem base (r * base + d) ds ∙ shift base r d (length ds) (value base ds)

-- Horner's method gives the number.
pub digits_to_integer-value :
    (digits : List ℕ) (base : ℕ) → digits_to_integer digits base ≡ value base digits
unfolding digits_to_integer
digits_to_integer-value digits base =
    integer_loop_lem base 0 digits ∙ omega (arith, Nat.zero-mul (base ^ length digits))

mod_loop_lem :
    (base m : ℕ) (ds : List ℕ) (v : ℕ)
    → base < 2 ^ 32
    → 0 < m
    → m < 2 ^ 32
    → AreDigits base ds
    → mod_loop base m ds (v % m) ≡ ok ((v * base ^ length ds + value base ds) % m)
unfolding mod_loop value
mod_loop_lem base m [] v hb pos hm h =
    ap (λ (t : ℕ). ok (t % m))
      (omega (arith, ap (λ (t : ℕ). v * t) (Nat.pow-zero base), Nat.mul-one v))
mod_loop_lem base m (d ∷ ds) v hb pos hm (hd, rest) =
    rw
      (
        fits-ok 64 (v % m * base) (omega (arith, product)),
        fits-ok 64 (v % m * base + d) (omega (arith, product, hd, hb)),
        nonzero,
        reduced,
      )
      (mod_loop_lem base m ds (v * base + d) hb pos hm rest
        ∙ ap (λ (t : ℕ). ok (t % m)) (shift base v d (length ds) (value base ds)))
  where
    product : v % m * base ≤ (2 ^ 32 - 2) * (2 ^ 32 - 1)
    product =
        Nat.mul-le-mul {n₁ = v % m} {m₁ = base} {n₂ = 2 ^ 32 - 2} {m₂ = 2 ^ 32 - 1}
          (omega (arith, Nat.mod-lt v pos, hm)) (omega (arith, hb))

    nonzero : (m == 0) ≡ false
    nonzero = ground (arith, pos)

    reduced : (v % m * base + d) % m ≡ (v * base + d) % m
    reduced =
        cong-add m (v % m * base) (v * base) d d
          (cong-mul m (v % m) v base base (Nat.mod-mod v m) refl) refl

-- For a base and a modulus of 32 bits and digits below the base, `digits_mod` returns the remainder
-- of the number that `digits_to_integer` builds, without an overflow.
pub digits_mod-digits_to_integer :
    (digits : List ℕ) (base m : ℕ)
    → base < 2 ^ 32
    → 0 < m
    → m < 2 ^ 32
    → AreDigits base digits
    → digits_mod digits base m ≡ ok (digits_to_integer digits base % m)
unfolding digits_mod
digits_mod-digits_to_integer digits base m hb pos hm h =
    ap (λ (t : ℕ). mod_loop base m digits t) (sym (Nat.zero-mod m))
    ∙ mod_loop_lem base m digits 0 hb pos hm h
    ∙ ap (λ (t : ℕ). ok (t % m))
        (omega (arith, Nat.zero-mul (base ^ length digits))
          ∙ sym (digits_to_integer-value digits base))

pub value-lt : (base : ℕ) (ds : List ℕ) → AreDigits base ds → value base ds < base ^ length ds
unfolding value
value-lt base [] h = omega (arith, Nat.pow-zero base)
value-lt base (d ∷ ds) (hd, rest) = omega (
  arith,
  value-lt base ds rest,
  Nat.pow-suc base (length ds),
  Nat.mul_comm (base ^ length ds) base,
  Nat.suc-mul d (base ^ length ds),
  Nat.mul-le-mul_right {m = suc d} {n = base} (base ^ length ds) hd,
)

pub leading-le : (base d : ℕ) (ds : List ℕ) → 0 < d → base ^ length ds ≤ value base (d ∷ ds)
unfolding value
leading-le base d ds h = omega (
  arith,
  Nat.mul-le-mul_right {m = 1} {n = d} (base ^ length ds) h,
  Nat.one-mul (base ^ length ds),
)

-- For a base of 32 bits and digits below it, the array that `increment_digits` leaves has the same
-- length and digits below the base, and it stands for the next number; where it answers `true`, the
-- array stood for the last number of its length, base ^ length - 1, and is left at 0.
pub increment_digits_lem :
    (ds : List ℕ) (base : ℕ)
    → 0 < base
    → base < 2 ^ 32
    → AreDigits base ds
    → (ds' : List ℕ) × (overflow : Bool) × (increment_digits ds base ≡ ok (ds', overflow))
      × (length ds' ≡ length ds)
      × AreDigits base ds'
      × (value base ds' + (if overflow then base ^ length ds else 0) ≡ value base ds + 1)
unfolding increment_digits value
increment_digits_lem [] base pos hb h = ([], true, refl, refl, tt, omega (arith, Nat.pow-zero base))
increment_digits_lem (d ∷ ds) base pos hb (hd, rest) =
    let (ds', overflow, run, len, digits, sum) = increment_digits_lem ds base pos hb rest in
    elim (Bool-cases overflow) [
      | inr still ↦ (
        d ∷ ds',
        false,
        rw (run, still) refl,
        ap suc len,
        (hd, digits),
        omega (arith, ap (λ (t : ℕ). d * base ^ t) len, rw still at sum),
      )
      | inl carried ↦
          let whole : value base ds' + base ^ length ds ≡ value base ds + 1 = rw carried at sum in
          elim (Bool-cases (ltb (d + 1) base)) [
            | inl room ↦ (
              (d + 1) ∷ ds',
              false,
              rw (run, carried, fits-ok 32 (d + 1) (omega (arith, hd, hb)), room) refl,
              ap suc len,
              (ltb→lt (d + 1) base room, digits),
              omega (
                arith,
                ap (λ (t : ℕ). (d + 1) * base ^ t) len,
                Nat.add-mul d 1 (base ^ length ds),
                Nat.one-mul (base ^ length ds),
                whole,
              ),
            )
            | inr full ↦
                let last : base ≡ d + 1 = omega (arith, ltb→le (d + 1) base full, hd) in
                (
                  0 ∷ ds',
                  true,
                  rw (run, carried, fits-ok 32 (d + 1) (omega (arith, hd, hb)), full) refl,
                  ap suc len,
                  (pos, digits),
                  omega (
                    arith,
                    Nat.zero-mul (base ^ length ds'),
                    Nat.pow-suc base (length ds),
                    ap (λ (t : ℕ). base ^ length ds * t) last,
                    Nat.mul-add (base ^ length ds) d 1,
                    Nat.mul_comm (base ^ length ds) d,
                    whole,
                  ),
                )
          ]
    ]
