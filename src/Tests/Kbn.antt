-- ===== src/Tests/Kbn.antt =====
-- The sieve of k * b ^ n + 1 and k * b ^ n - 1 for k = 3 and b = 2, with an integer root.
use native.Mathlib.Nat
use prime_hunter.Common.{
  ℕ, zero, suc, ◌+◌, ◌-◌, ◌*◌, ◌^◌, ◌<◌, ◌≤◌, ◌≡◌, ap, refl, true, [], ◌∷◌, All, leb, if◌then◌else◌,
  ok, Bool-cases, leb→le, inl, inr, arith,
}
use prime_hunter.Sieve.BitSieve.{BitSieve}
use prime_hunter.Sieve.DiscreteLog.Exact.{IsRoot}
use prime_hunter.Forms.Kbn.{bsgs_sieve}
use prime_hunter.Forms.Kbn.Mark.{Reads}
use prime_hunter.Forms.Kbn.Values.{IsSieved, hits_plus, hits_minus, left}
use prime_hunter.Forms.Kbn.Exact.{bsgs_sieve-Reads}
use prime_hunter.Tests.Primes.{two-IsPrime, five-IsPrime, seven-IsPrime}

-- The square root, rounded up.
unfoldable root : ℕ → ℕ
root zero = 0
root (suc n) = let r = root n in if leb (suc n) (r * r) then r else suc r

root_lem : (n : ℕ) → (n ≤ root n * root n) × ((root n - 1) * (root n - 1) ≤ n - 1)
unfolding root
root_lem zero = (omega arith, omega arith)
root_lem (suc n) =
    let (enough, least) = root_lem n in
    elim (Bool-cases (leb (suc n) (root n * root n))) [
      | inl stays ↦ rw stays (leb→le (suc n) (root n * root n) stays, omega (arith, least))
      | inr rises ↦ rw rises (risen (root n) enough, lowered (root n) (ground (arith, rises)))
    ]
  where
    risen : (r : ℕ) → n ≤ r * r → suc n ≤ suc r * suc r
    risen r h = omega (arith, h, Nat.suc-mul r (suc r), Nat.mul-suc r r)

    lowered : (r : ℕ) → r * r ≤ n → (suc r - 1) * (suc r - 1) ≤ suc n - 1
    lowered r h = omega (arith, h, ap (λ (t : ℕ). t * t) {x = suc r - 1} {y = r} (omega arith))

root-IsRoot : (n : ℕ) → 0 < n → n < 2 ^ 32 → IsRoot (root n) n
root-IsRoot n pos small = record {
  enough = (root_lem n).0;
  least = omega (arith, (root_lem n).1, pos);
}

three_primes : All (IsSieved 3 2) (2 ∷ 5 ∷ 7 ∷ [])
three_primes = (
  (two-IsPrime, inr refl, omega arith),
  (
    (five-IsPrime, inl (omega arith), omega arith),
    ((seven-IsPrime, inl (omega arith), omega arith), tt),
  ),
)

bsgs_sieve-Reads_example :
    (plus : BitSieve) × (minus : BitSieve) × (bsgs_sieve root 2 9 3 2 4 (2 ∷ 5 ∷ 7 ∷ [])
      ≡ ok (plus, minus))
    × Reads (9 - 2 + 1) (left 4 2 (hits_plus 3 2) (2 ∷ 5 ∷ 7 ∷ []) (λ j. true)) plus
    × Reads (9 - 2 + 1) (left 4 2 (hits_minus 3 2) (2 ∷ 5 ∷ 7 ∷ []) (λ j. true)) minus
bsgs_sieve-Reads_example =
    bsgs_sieve-Reads root root-IsRoot 2 9 3 2 4 (omega arith) (omega arith) (omega arith)
      (omega arith) (omega arith) (2 ∷ 5 ∷ 7 ∷ []) three_primes
