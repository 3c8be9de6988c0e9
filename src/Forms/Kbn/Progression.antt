-- ===== src/Forms/Kbn/Progression.antt =====
-- The first member of the progression of a logarithm, and the pass from it.
use native.Mathlib.Nat
use prime_hunter.Common.{
  ℕ, suc, ◌+◌, ◌-◌, ◌*◌, ◌/◌, ◌%◌, ◌^◌, ◌<◌, ◌≤◌, ◌≡◌, ◌≢◌, refl, sym, ap, ◌∙◌, Option, none, some,
  Bool, false, not, ◌&&◌, ◌==◌, leb, ok, Bool-cases, leb→le, ==_iff, inl, inr, arith,
}
use prime_hunter.Common.Residue.{fits-ok, mod-eq_iff}
use prime_hunter.Sieve.BitSieve.{BitSieve}
use prime_hunter.Sieve.Order.Smallest.{IsOrder, order-mod, powers_distinct}
use prime_hunter.Sieve.DiscreteLog.Steps.{IsLog}
use prime_hunter.Forms.Kbn.{first_hit, mark_loop, mark_from, mark_log}
use prime_hunter.Forms.Kbn.Mark.{Reads, cong-Reads, follows, mark_loop-Reads}

-- A first member less than an order above min_n.
follows_lem :
    (n0 t min_n order x : ℕ)
    → n0 < order
    → min_n ≤ n0 + order * t
    → n0 + order * t < min_n + order
    → min_n ≤ x
    → follows order (n0 + order * t) x ≡ (x % order == n0)
follows_lem n0 t min_n order x less above near le = elim (Bool-cases (leb (n0 + order * t) x)) [
  | inl from ↦
      let first_le : n0 + order * t ≤ x = leb→le (n0 + order * t) x from in
      let rest : ℕ = x - (n0 + order * t) in
      let same : x % order ≡ (n0 + rest) % order =
        ap (λ (k : ℕ). k % order) {x = x} {y = order * t + (n0 + rest)} (omega (arith, first_le))
        ∙ Nat.mul-add-mod_self_left order t (n0 + rest) in
      let back : ((n0 + rest) % order == n0 % order) ≡ (rest % order == 0) =
        mod-eq_iff order (n0 + rest) n0 (omega (arith, less)) (omega arith)
        ∙ ap (λ (k : ℕ). k % order == 0) {x = n0 + rest - n0} {y = rest} (omega arith) in
      ap (λ b. b && (rest % order == 0)) from ∙ sym back ∙ (λ i. sym same i == start i)
  | inr before ↦
      let short : x < n0 + order * t = ground (arith, before) in
      let gap : (n0 + order * t - x) % order ≡ n0 + order * t - x =
        Nat.mod-eq_of_lt (omega (arith, near, le, short)) in
      let apart : (n0 == x % order) ≡ false =
        (λ i. sym (whole ∙ start) i == x % order)
        ∙ mod-eq_iff order (n0 + order * t) x (omega (arith, less)) (omega (arith, short))
        ∙ ground (arith, gap, short) in
      ground (arith, before, apart)
]
  where
    start : n0 % order ≡ n0
    start = Nat.mod-eq_of_lt less

    whole : (n0 + order * t) % order ≡ n0 % order
    whole =
        ap (λ (k : ℕ). k % order) (Nat.add_comm n0 (order * t))
        ∙ Nat.mul-add-mod_self_left order t n0

-- The exponents x from min_n on that leave n0 modulo the order are those from `first` on.
first_hit_lem :
    (n0 min_n order : ℕ)
    → n0 < order
    → min_n + order < 2 ^ 64
    → (first : ℕ) × (first_hit n0 min_n order ≡ ok (some first))
      × (min_n ≤ first)
      × ((x : ℕ) → min_n ≤ x → follows order first x ≡ (x % order == n0))
unfolding first_hit
first_hit_lem n0 min_n order less narrow = elim (Bool-cases (leb min_n n0)) [
  | inl late ↦
      let le : min_n ≤ n0 = leb→le min_n n0 late in
      (
        n0,
        rw late refl,
        le,
        λ x h.
            ap (λ (k : ℕ). follows order k x) {x = n0} {y = n0 + order * 0}
              (omega (arith, Nat.mul-zero order))
            ∙ follows_lem n0 0 min_n order x less (omega (arith, le, Nat.mul-zero order))
                (omega (arith, less, Nat.mul-zero order)) h,
      )
  | inr early ↦
      let above : n0 < min_n = ground (arith, early) in
      let steps : ℕ = (min_n - n0 + order - 1) / order in
      let flip : steps * order ≡ order * steps = Nat.mul_comm steps order in
      let split : order * steps + (min_n - n0 + order - 1) % order ≡ min_n - n0 + order - 1 =
        Nat.div-add-mod (min_n - n0 + order - 1) order in
      let left : (min_n - n0 + order - 1) % order < order =
        Nat.mod-lt (min_n - n0 + order - 1) (omega (arith, less)) in
      let nonzero : (order == 0) ≡ false = ground (arith, less) in
      (
        n0 + steps * order,
        rw
            (
              early,
              nonzero,
              fits-ok 64 (steps * order) (omega (arith, flip, split, narrow)),
              fits-ok 64 (n0 + steps * order) (omega (arith, flip, split, narrow, above)),
            )
            refl,
        omega (arith, flip, split, left, above),
        λ x h.
            ap (λ (k : ℕ). follows order (n0 + k) x) flip
            ∙ follows_lem n0 steps min_n order x less (omega (arith, split, left, above))
                (omega (arith, split, above)) h,
      )
]

-- The logarithm tells which powers are the target.
log_lem :
    (base target p order n0 x : ℕ)
    → 1 < p
    → IsOrder base p order
    → n0 < order
    → base ^ n0 % p ≡ target % p
    → (x % order == n0) ≡ (base ^ x % p == target % p)
log_lem base target p order n0 x big ord less log = elim (Bool-cases (x % order == n0)) [
  | inl same ↦
      let hit : base ^ x % p ≡ target % p =
        order-mod base big order x ord
        ∙ ap (λ (k : ℕ). base ^ k % p) ((==_iff (x % order) n0).0 same)
        ∙ log in
      ground (arith, same, hit)
  | inr other ↦ elim (Bool-cases (base ^ x % p == target % p)) [
    | inr apart ↦ other ∙ sym apart
    | inl hit ↦
        let equal : base ^ (x % order) % p ≡ base ^ n0 % p =
          sym (order-mod base big order x ord)
          ∙ (==_iff (base ^ x % p) (target % p)).0 hit
          ∙ sym log in
        absurd (ground (arith, other, unique (x % order) n0 (Nat.mod-lt x ord.positive) less equal))
  ]
]
  where
    unique : (j k : ℕ) → j < order → k < order → base ^ j % p ≡ base ^ k % p → j ≡ k
    unique j k hj hk e = elim (Bool-cases (leb j k)) [
      | inl le ↦ powers_distinct base big order j k ord (leb→le j k le) hk e
      | inr gt ↦ sym (powers_distinct base big order k j ord (ground (arith, gt)) hj (sym e))
    ]

-- One `if let` of the sieve clears the exponents whose power is the target.
pub mark_log-Reads :
    (base target p order min_n max_n sieve_min_n : ℕ) (f : ℕ → Bool) (s : BitSieve) (log : Option ℕ)
    → 1 < p
    → IsOrder base p order
    → min_n ≤ max_n
    → max_n + order < 2 ^ 64
    → IsLog base target p order log
    → Reads (max_n - min_n + 1) f s
    → (s' : BitSieve) × (mark_log min_n max_n sieve_min_n order s log ≡ ok (some s'))
      × Reads
          (max_n - min_n + 1)
          (λ j. f j && not (leb sieve_min_n (min_n + j) && (base ^ (min_n + j) % p == target % p)))
          s'
unfolding mark_log mark_from IsLog
mark_log-Reads base target p order min_n max_n sieve_min_n f s none big ord le narrow log r = (
  s,
  refl,
  cong-Reads (max_n - min_n + 1) f _ s (λ j h. misses (min_n + j) (f j) (log (min_n + j))) r,
)
  where
    misses :
        (x : ℕ) (b : Bool)
        → base ^ x % p ≢ target % p
        → b ≡ (b && not (leb sieve_min_n x && (base ^ x % p == target % p)))
    misses x b apart = ground (arith, apart)
mark_log-Reads base target p order min_n max_n sieve_min_n f s (some n0) big ord le narrow
      (less, hit) r =
    let (first, run, above, members) =
      first_hit_lem n0 min_n order less (omega (arith, le, narrow)) in
    let (s', marked, r') =
      mark_loop-Reads min_n max_n sieve_min_n order le ord.positive narrow (max_n + 1) first f s
        above (omega (arith, ord.positive)) r in
    (
      s',
      rw
          (
            run,
            ap (λ (k : ℕ). mark_loop k min_n max_n sieve_min_n order first s) {x = max_n + 2}
                {y = suc (max_n + 1)} (omega arith),
            marked,
          )
          refl,
      cong-Reads (max_n - min_n + 1) _ _ s'
          (λ j h.
            ap (λ b. f j && not (leb sieve_min_n (min_n + j) && b))
              (members (min_n + j) (omega arith)
                ∙ log_lem base target p order n0 (min_n + j) big ord less hit))
          r',
    )
