-- ===== src/Forms/Kbn/Mark.antt =====
-- One pass of `bsgs_sieve` over a sieve clears the members of a progression.
use native.Mathlib.Nat
use prime_hunter.Common.{
  ℕ, zero, suc, ◌+◌, ◌-◌, ◌*◌, ◌%◌, ◌^◌, ◌<◌, ◌≤◌, ◌≡◌, refl, sym, ap, ◌∙◌, Bool, true, false, not,
  ◌>>=◌, ◌&&◌, ◌||◌, ◌==◌, leb, if◌then◌else◌, ok, sub_checked, Bool-cases, leb→le, inl, inr, arith,
}
use prime_hunter.Common.Residue.{fits-ok}
use prime_hunter.Sieve.BitSieve.{BitSieve, get, clear}
use prime_hunter.Sieve.BitSieve.Words.{IsValid}
use prime_hunter.Sieve.BitSieve.Access.{clear-WritesBit}
use prime_hunter.Forms.Kbn.{mark_loop}

-- A valid sieve of `range` bits, whose bit j is `f j`.
pub record Reads (range : ℕ) (f : ℕ → Bool) (s : BitSieve) : Type 0 where
  pub valid : IsValid s
  pub sized : s.len ≡ range
  pub bits : (j : ℕ) → j < range → get s j ≡ ok (f j)

pub cong-Reads :
    (range : ℕ) (f g : ℕ → Bool) (s : BitSieve)
    → ((j : ℕ) → j < range → f j ≡ g j)
    → Reads range f s
    → Reads range g s
cong-Reads range f g s same r = record {
  valid = r.valid;
  sized = r.sized;
  bits = λ j h. r.bits j h ∙ ap ok (same j h);
}

-- x is n or comes a multiple of the order later.
abbrev pub follows : ℕ → ℕ → ℕ → Bool
follows order n x = leb n x && ((x - n) % order == 0)

follows_step :
    (order n x : ℕ) → 0 < order → follows order n x ≡ ((x == n) || follows order (n + order) x)
follows_step order n x pos = elim (Bool-cases (leb (n + order) x)) [
  | inl far ↦
      let le : n + order ≤ x = leb→le (n + order) x far in
      let same : (x - n) % order ≡ (x - (n + order)) % order =
        ap (λ (t : ℕ). t % order) {x = x - n} {y = order * 1 + (x - (n + order))}
          (omega (arith, le, Nat.mul-one order))
        ∙ Nat.mul-add-mod_self_left order 1 (x - (n + order)) in
      ground (arith, far, le, same, pos)
  | inr near ↦ elim (Bool-cases (leb n x)) [
    | inr before ↦ ground (arith, near, before, pos)
    | inl from ↦
        let small : (x - n) % order ≡ x - n = Nat.mod-eq_of_lt (ground (arith, near, from)) in
        ground (arith, near, from, small, pos)
  ]
]

module _ (min_n max_n sieve_min_n order : ℕ) (le : min_n ≤ max_n) (pos : 0 < order)
    (narrow : max_n + order < 2 ^ 64) where
  abbrev pub span : ℕ
  span = max_n - min_n + 1

  -- What is left of f where the progression from n is cleared.
  abbrev pub cleared : ℕ → (ℕ → Bool) → ℕ → Bool
  cleared n f j = f j && not (leb sieve_min_n (min_n + j) && follows order n (min_n + j))

  clear_one :
      (n : ℕ) (f : ℕ → Bool) (s : BitSieve)
      → min_n ≤ n
      → n ≤ max_n
      → Reads span f s
      → (s' : BitSieve) × ((if leb sieve_min_n n then (sub_checked n min_n >>= clear s) else ok s)
          ≡ ok s')
        × Reads span (λ j. f j && not (leb sieve_min_n (min_n + j) && (min_n + j == n))) s'
  clear_one n f s above below r = elim (Bool-cases (leb sieve_min_n n)) [
    | inr early ↦ (
      s,
      rw early refl,
      cong-Reads span f (λ j. f j && not (leb sieve_min_n (min_n + j) && (min_n + j == n))) s
          (λ j h. ground (arith, early)) r,
    )
    | inl late ↦
        let (s', run, valid, len, reads) =
          clear-WritesBit r.valid (n - min_n) (omega (arith, r.sized, above, below)) in
        (
          s',
          rw (late, at_index) run,
          record {
            valid = valid;
            sized = len ∙ r.sized;
            bits = λ j h.
                reads j
                ∙ ap (λ b. if n - min_n == j then ok false else b) (r.bits j h)
                ∙ ground (arith, late, above);
          },
        )
  ]
    where
      at_index : sub_checked n min_n ≡ ok (n - min_n)
      at_index = ground (arith, above)

  past_all : (n : ℕ) (f : ℕ → Bool) (j : ℕ) → leb n max_n ≡ false → j < span → f j ≡ cleared n f j
  past_all n f j stop h = ground (arith, stop, h, le)

  step_all :
      (n : ℕ) (f : ℕ → Bool) (j : ℕ)
      → cleared (n + order) (λ i. f i && not (leb sieve_min_n (min_n + i) && (min_n + i == n))) j
        ≡ cleared n f j
  step_all n f j =
      rearrange (f j) (leb sieve_min_n (min_n + j)) (min_n + j == n)
        (follows order (n + order) (min_n + j))
      ∙ ap (λ b. f j && not (leb sieve_min_n (min_n + j) && b))
          (sym (follows_step order n (min_n + j) pos))
    where
      rearrange :
          (x t a b : Bool) → ((x && not (t && a)) && not (t && b)) ≡ (x && not (t && (a || b)))
      rearrange x t a b = ground arith

  halts :
      (fuel n : ℕ) (f : ℕ → Bool) (s : BitSieve)
      → leb n max_n ≡ false
      → Reads span f s
      → (s' : BitSieve) × (mark_loop (suc fuel) min_n max_n sieve_min_n order n s ≡ ok s')
        × Reads span (cleared n f) s'
  unfolding mark_loop
  halts fuel n f s stop r =
      (s, rw stop refl, cong-Reads span f (cleared n f) s (λ j h. past_all n f j stop h) r)

  go_on :
      (fuel n : ℕ) (s left : BitSieve)
      → min_n ≤ n
      → leb n max_n ≡ true
      → (if leb sieve_min_n n then (sub_checked n min_n >>= clear s) else ok s) ≡ ok left
      → mark_loop (suc fuel) min_n max_n sieve_min_n order n s
        ≡ mark_loop fuel min_n max_n sieve_min_n order (n + order) left
  unfolding mark_loop
  go_on fuel n s left above more run =
      rw (more, run, fits-ok 64 (n + order) (omega (arith, leb→le n max_n more, narrow))) refl

  -- With a round for each number up to max_n, the pass ends, and it clears the progression from n.
  pub mark_loop-Reads :
      (fuel n : ℕ) (f : ℕ → Bool) (s : BitSieve)
      → min_n ≤ n
      → max_n < n + fuel
      → Reads span f s
      → (s' : BitSieve) × (mark_loop (suc fuel) min_n max_n sieve_min_n order n s ≡ ok s')
        × Reads span (cleared n f) s'
  mark_loop-Reads zero n f s above enough r = halts zero n f s (ground (arith, enough)) r
  mark_loop-Reads (suc fuel) n f s above enough r = elim (Bool-cases (leb n max_n)) [
    | inr stop ↦ halts (suc fuel) n f s stop r
    | inl more ↦
        let (left, cleared_run, r') = clear_one n f s above (leb→le n max_n more) r in
        let (s', run, done) =
          mark_loop-Reads fuel (n + order)
            (λ j. f j && not (leb sieve_min_n (min_n + j) && (min_n + j == n))) left
            (omega (arith, above)) (omega (arith, enough, pos)) r' in
        (
          s',
          go_on (suc fuel) n s left above more cleared_run ∙ run,
          cong-Reads span _ (cleared n f) s' (λ j h. step_all n f j) done,
        )
  ]
