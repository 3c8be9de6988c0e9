-- ===== src/Common/Mod.antt =====
-- Congruence modulo `m`, and powers.
use Prim.Native.Nat.{ℕ, zero, suc, ◌+◌, ◌*◌, ◌/◌, ◌%◌, ◌^◌}
use mathlib.Core.Path.{◌≡◌, sym, ap, ◌∙◌}
use native.Mathlib.Nat
use native.Mathlib.Omega.{arith}

abbrev pub CongMod : ℕ → ℕ → ℕ → Type 0
CongMod m a b = a % m ≡ b % m

pub mul-mod_left : (m a b : ℕ) → CongMod m (a % m * b) (a * b)
mul-mod_left m a b =
    sym (ap (λ (t : ℕ). t % m) split ∙ Nat.mul-add-mod_self_left m (a / m * b) (a % m * b))
  where
    split : a * b ≡ m * (a / m * b) + a % m * b
    split = omega (arith, ap (λ (t : ℕ). t * b) (Nat.div-add-mod a m))

pub mul-mod_right : (m a b : ℕ) → CongMod m (a * (b % m)) (a * b)
mul-mod_right m a b = rw (Nat.mul_comm a (b % m), Nat.mul_comm a b) (mul-mod_left m b a)

pub cong-mul : (m a b c d : ℕ) → CongMod m a b → CongMod m c d → CongMod m (a * c) (b * d)
cong-mul m a b c d e f =
    sym (mul-mod_left m a c)
    ∙ sym (mul-mod_right m (a % m) c)
    ∙ cc (e, f)
    ∙ mul-mod_right m (b % m) d
    ∙ mul-mod_left m b d

pub cong-add : (m a b c d : ℕ) → CongMod m a b → CongMod m c d → CongMod m (a + c) (b + d)
cong-add m a b c d e f = Nat.add-mod a c m ∙ cc (e, f) ∙ sym (Nat.add-mod b d m)

pub pow-add : (b x y : ℕ) → b ^ (x + y) ≡ b ^ x * b ^ y
pow-add b x zero = rw (Nat.add-zero, Nat.pow-zero) (omega arith)
pow-add b x (suc y) = rw (Nat.add-suc, Nat.pow-suc, Nat.pow-suc, pow-add b x y) (omega arith)

pub pow_square : (b q : ℕ) → (b * b) ^ q ≡ b ^ q * b ^ q
pow_square b zero = rw (Nat.pow-zero, Nat.pow-zero) (omega arith)
pow_square b (suc q) = rw (Nat.pow-suc, Nat.pow-suc, pow_square b q) (omega arith)

pub cong-pow : (m a b k : ℕ) → CongMod m a b → CongMod m (a ^ k) (b ^ k)
cong-pow m a b zero e = rw (Nat.pow-zero, Nat.pow-zero)
cong-pow m a b (suc k) e =
    rw (Nat.pow-suc, Nat.pow-suc) (cong-mul m (a ^ k) (b ^ k) a b (cong-pow m a b k e) e)

-- A congruence modulo a multiple of `m`.
pub cong_of_multiple : (m q a b : ℕ) → CongMod (m * q) a b → CongMod m a b
cong_of_multiple m q a b e =
    sym (Nat.mod-mod_of_dvd m a (Nat.dvd-mul_right m q))
    ∙ ap (λ (t : ℕ). t % m) e
    ∙ Nat.mod-mod_of_dvd m b (Nat.dvd-mul_right m q)
