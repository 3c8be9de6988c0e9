-- ===== src/Sieve/DiscreteLog/Steps.antt =====
-- The loops of `discrete_log_bsgs` on numbers in Montgomery form.
use mathlib.Core.Path.{subst}
use native.Mathlib.Nat
use prime_hunter.Common.Mod.{CongMod, cong-mul, pow-add, cong-pow}
use prime_hunter.Common.Residue.{fits-ok}
use prime_hunter.Common.{
  ℕ, zero, suc, ◌+◌, ◌-◌, ◌*◌, ◌%◌, ◌^◌, ◌<◌, ◌≤◌, ◌≡◌, ◌≢◌, refl, sym, ap, ◌∙◌, Bool, Option, none,
  some, List, [], ◌∷◌, ◌==◌, ltb, true, false, Outcome, ok, Bool-cases, Option-cases, ==_iff,
  ltb→lt, ltb→le, inl, inr, arith,
}
use prime_hunter.Sieve.Montgomery.{MontgomeryCtx, mul}
use prime_hunter.Sieve.Montgomery.Reduce.{IsCtx}
use prime_hunter.Sieve.Montgomery.Form.{IsForm, mul-IsForm, IsForm-==, cong-IsForm}
use prime_hunter.Sieve.Order.Smallest.{IsOrder, pow-mul, one-pow, order-mod, powers_distinct}
use prime_hunter.Sieve.DiscreteLog.{lookup, baby_steps, try_entry, giant_steps}

-- The specification: the logarithm below the order, or that there is none.
unfoldable pub IsLog : ℕ → ℕ → ℕ → ℕ → Option ℕ → Type 0
IsLog base target p order none = (x : ℕ) → base ^ x % p ≢ target % p
IsLog base target p order (some x) = (x < order) × (base ^ x % p ≡ target % p)

lookup_here :
    (power n key : ℕ) (table : List (ℕ × ℕ))
    → (power == key) ≡ true
    → lookup ((power, n) ∷ table) key ≡ some n
unfolding lookup
lookup_here power n key table h = rw h refl

lookup_there :
    (power n key : ℕ) (table : List (ℕ × ℕ))
    → (power == key) ≡ false
    → lookup ((power, n) ∷ table) key ≡ lookup table key
unfolding lookup
lookup_there power n key table h = rw h refl

clash : {b : Bool} → b ≡ true → b ≡ false → ⊥
clash e f = cc

no_entry : (key j : ℕ) → lookup [] key ≡ some j → ⊥
unfolding lookup
no_entry key j e = ground (arith, e)

pub mul_pow : (a b i : ℕ) → (a * b) ^ i ≡ a ^ i * b ^ i
mul_pow a b zero = rw (Nat.pow-zero, Nat.pow-zero, Nat.pow-zero) (omega arith)
mul_pow a b (suc i) =
    Nat.pow-suc (a * b) i
    ∙ ap (λ (t : ℕ). t * (a * b)) (mul_pow a b i)
    ∙ exchange (a ^ i) (b ^ i)
    ∙ sym ((λ j. Nat.pow-suc a i j * Nat.pow-suc b i j))
  where
    exchange : (x y : ℕ) → x * y * (a * b) ≡ x * a * (y * b)
    exchange x y =
        Nat.mul_assoc x y (a * b)
        ∙ ap (λ (t : ℕ). x * t) (Nat.mul_left_comm y a b)
        ∙ sym (Nat.mul_assoc x a (y * b))

none-some : (j : ℕ) (o : Option ℕ) → o ≡ none → o ≡ some j → ⊥
none-some j o e f = ground (arith, e, f)

some_same : (i j : ℕ) → some i ≡ some j → i ≡ j
some_same i j e = ground (arith, e)

module _ {ctx : MontgomeryCtx} (c : IsCtx ctx) (base order m : ℕ) (short : m ≤ order)
    (ord : IsOrder base ctx.n order) where
  pub same-IsForm : {a x y : ℕ} → CongMod ctx.n x y → IsForm ctx a x → IsForm ctx a y
  same-IsForm e f = record { below = f.below; scaled = f.scaled ∙ cong-mul ctx.n _ _ _ _ e refl }

  pub same_value : {a x y : ℕ} → IsForm ctx a x → IsForm ctx a y → CongMod ctx.n x y
  same_value {a} {x} {y} f g =
      (==_iff (x % ctx.n) (y % ctx.n)).0 (sym (IsForm-== c f g) ∙ (==_iff a a).1 refl)

  -- What the table holds after the powers below n.
  pub record IsTable (n : ℕ) (table : List (ℕ × ℕ)) : Type 0 where
    pub sound : (key j : ℕ) → lookup table key ≡ some j → (j < n) × IsForm ctx key (base ^ j)
    pub complete :
        (key j : ℕ)
        → j < n
        → IsForm ctx key (base ^ j)
        → (j' : ℕ) × (lookup table key ≡ some j') × (j ≤ j')

  extend :
      (n power : ℕ) (table : List (ℕ × ℕ))
      → IsTable n table
      → IsForm ctx power (base ^ n)
      → IsTable (n + 1) ((power, n) ∷ table)
  extend n power table t f = record { sound = sound_; complete = complete_ }
    where
      sound_ :
          (key j : ℕ)
          → lookup ((power, n) ∷ table) key ≡ some j
          → (j < n + 1) × IsForm ctx key (base ^ j)
      sound_ key j found = elim (Bool-cases (power == key)) [
        | inl here ↦
            let e : n ≡ j = some_same n j (sym (lookup_here power n key table here) ∙ found) in
            let same : power ≡ key = (==_iff power key).0 here in
            (
              omega (arith, e),
              subst (λ k. IsForm ctx k (base ^ j)) same
                  (subst (λ k. IsForm ctx power (base ^ k)) e f),
            )
        | inr there ↦
            let (less, g) = t.sound key j (sym (lookup_there power n key table there) ∙ found) in
            (omega (arith, less), g)
      ]

      complete_ :
          (key j : ℕ)
          → j < n + 1
          → IsForm ctx key (base ^ j)
          → (j' : ℕ) × (lookup ((power, n) ∷ table) key ≡ some j') × (j ≤ j')
      complete_ key j less g = elim (Bool-cases (power == key)) [
        | inl here ↦ (n, lookup_here power n key table here, omega (arith, less))
        | inr there ↦
            let (j', run, le) = t.complete key j (below j less g there) g in
            (j', lookup_there power n key table there ∙ run, le)
      ]
        where
          below : (j : ℕ) → j < n + 1 → IsForm ctx key (base ^ j) → (power == key) ≡ false → j < n
          below j less g there = elim (Bool-cases (j == n)) [
            | inr other ↦ ground (arith, other, less)
            | inl last ↦
                let h : IsForm ctx key (base ^ n) =
                  subst (λ k. IsForm ctx key (base ^ k)) ((==_iff j n).0 last) g in
                absurd (
                  clash (IsForm-== c f h ∙ (==_iff (base ^ n % ctx.n) (base ^ n % ctx.n)).1 refl)
                    there)
          ]

  baby_steps-IsTable :
      (base_mont : ℕ)
      → IsForm ctx base_mont base
      → (count n power : ℕ) (table : List (ℕ × ℕ)) → IsTable n table
      → IsForm ctx power (base ^ n)
      → (table' : List (ℕ × ℕ)) × (baby_steps (λ x. mul ctx x base_mont) count n power table
          ≡ ok table')
        × IsTable (n + count) table'
  unfolding baby_steps
  baby_steps-IsTable base_mont fb zero n power table t f =
      (table, refl, subst (λ k. IsTable k table) {x = n} {y = n + 0} (omega arith) t)
  baby_steps-IsTable base_mont fb (suc count) n power table t f =
      let (power', step, f') = mul-IsForm c (base ^ n) base f fb in
      let next = extend n power table t f in
      let up : base ^ n * base ≡ base ^ (n + 1) =
        sym (Nat.pow-suc base n) ∙ ap (λ (k : ℕ). base ^ k) {x = suc n} {y = n + 1} (omega arith) in
      let (table', run, t') =
        baby_steps-IsTable base_mont fb count (n + 1) power' ((power, n) ∷ table) next
          (cong-IsForm c up f') in
      (
        table',
        rw step run,
        subst (λ k. IsTable k table') {x = n + 1 + count} {y = n + suc count} (omega arith) t',
      )

  -- The whole table.
  pub table_lem :
      (base_mont start : ℕ)
      → IsForm ctx base_mont base
      → IsForm ctx start (base ^ 0)
      → (table : List (ℕ × ℕ)) × (baby_steps (λ x. mul ctx x base_mont) m 0 start [] ≡ ok table)
        × IsTable m table
  table_lem base_mont start fb fs =
      let (table, run, t) = baby_steps-IsTable base_mont fb m 0 start [] empty fs in
      (table, run, subst (λ k. IsTable k table) {x = 0 + m} {y = m} (omega arith) t)
    where
      empty : IsTable 0 []
      empty = record {
        sound = λ key j found. absurd (no_entry key j found);
        complete = λ key j less g. absurd (omega (arith, less));
      }

  -- An entry of the table is the only one.
  only_entry :
      (key i j : ℕ) → i ≤ j → j < m → IsForm ctx key (base ^ i) → IsForm ctx key (base ^ j) → i ≡ j
  only_entry key i j le less f g =
      powers_distinct base c.n_big order i j ord le (omega (arith, less, short)) (same_value f g)

  module _ (target g : ℕ) (inverse : CongMod ctx.n (base ^ m * g) 1) where
    unit_rounds : (i : ℕ) → CongMod ctx.n (base ^ (i * m) * g ^ i) 1
    unit_rounds i =
        ap (λ (t : ℕ). t % ctx.n)
          (ap (λ (t : ℕ). t * g ^ i)
              (ap (λ (t : ℕ). base ^ t) (Nat.mul_comm i m) ∙ pow-mul base m i)
            ∙ sym (mul_pow (base ^ m) g i))
        ∙ cong-pow ctx.n (base ^ m * g) 1 i inverse
        ∙ ap (λ (t : ℕ). t % ctx.n) (one-pow i)

    -- A power at i * m + j is the target exactly when the power at j is what round i looks up.
    found_value :
        (i j : ℕ)
        → CongMod ctx.n (base ^ j) (target * g ^ i)
        → CongMod ctx.n (base ^ (i * m + j)) target
    found_value i j e =
        ap (λ (t : ℕ). t % ctx.n) (pow-add base (i * m) j)
        ∙ cong-mul ctx.n (base ^ (i * m)) (base ^ (i * m)) (base ^ j) (target * g ^ i) refl e
        ∙ ap (λ (t : ℕ). t % ctx.n) (Nat.mul_left_comm (base ^ (i * m)) target (g ^ i))
        ∙ cong-mul ctx.n target target (base ^ (i * m) * g ^ i) 1 refl (unit_rounds i)
        ∙ ap (λ (t : ℕ). t % ctx.n) (Nat.mul-one target)

    sought_value :
        (i j : ℕ)
        → CongMod ctx.n (base ^ (i * m + j)) target
        → CongMod ctx.n (target * g ^ i) (base ^ j)
    sought_value i j e =
        cong-mul ctx.n target (base ^ (i * m + j)) (g ^ i) (g ^ i) (sym e) refl
        ∙ ap (λ (t : ℕ). t % ctx.n)
            (ap (λ (t : ℕ). t * g ^ i)
                (pow-add base (i * m) j ∙ Nat.mul_comm (base ^ (i * m)) (base ^ j))
              ∙ Nat.mul_assoc (base ^ j) (base ^ (i * m)) (g ^ i))
        ∙ cong-mul ctx.n (base ^ j) (base ^ j) (base ^ (i * m) * g ^ i) 1 refl (unit_rounds i)
        ∙ ap (λ (t : ℕ). t % ctx.n) (Nat.mul-one (base ^ j))

    -- No logarithm lies below the rounds that are done.
    abbrev NoneBelow : ℕ → Type 0
    NoneBelow b = (x : ℕ) → x < b → x < order → base ^ x % ctx.n ≢ target % ctx.n

    abbrev Answers : Outcome (Option ℕ) → Type 0
    Answers call = (r : Option ℕ) × (call ≡ ok r) × IsLog base target ctx.n order r

    module _ (giant_step : ℕ) (fg : IsForm ctx giant_step g) (table : List (ℕ × ℕ))
        (t : IsTable m table) (narrow : m * m + m < 2 ^ 64) (enough : order ≤ m * m + m) where
      done : NoneBelow (m * m + m) → (x : ℕ) → base ^ x % ctx.n ≢ target % ctx.n
      done none_below x e =
          none_below (x % order) (Nat.lt_of_lt_of_le (Nat.mod-lt x ord.positive) enough)
            (Nat.mod-lt x ord.positive) (sym (order-mod base c.n_big order x ord) ∙ e)

      -- A round that finds nothing below the order.
      next_none :
          (i gamma : ℕ)
          → 0 < m
          → IsForm ctx gamma (target * g ^ i)
          → ((j : ℕ) → j < m → i * m + j < order → IsForm ctx gamma (base ^ j) → ⊥)
          → NoneBelow (i * m)
          → NoneBelow (suc i * m)
      next_none i gamma pos f miss none_below x less in_order e =
          elim (Bool-cases (ltb x (i * m))) [
            | inl before ↦ none_below x (ltb→lt x (i * m) before) in_order e
            | inr here ↦
                let le : i * m ≤ x = ltb→le x (i * m) here in
                let split : i * m + (x - i * m) ≡ x = omega (arith, le) in
                miss (x - i * m) (omega (arith, less, le, Nat.suc-mul i m))
                  (omega (arith, split, in_order))
                  (same-IsForm
                    (sought_value i (x - i * m) (ap (λ (k : ℕ). base ^ k % ctx.n) split ∙ e)) f)
          ]

      no_form :
          (gamma j : ℕ)
          → lookup table gamma ≡ none
          → ((j' : ℕ) × (lookup table gamma ≡ some j') × (j ≤ j'))
          → ⊥
      no_form gamma j nothing (j', run, le) = none-some j' (lookup table gamma) nothing run

      beyond :
          (i gamma k j : ℕ)
          → lookup table gamma ≡ some j
          → j < m
          → IsForm ctx gamma (base ^ j)
          → i * m + k < order
          → ltb (i * m + j) order ≡ false
          → IsForm ctx gamma (base ^ k)
          → ((j' : ℕ) × (lookup table gamma ≡ some j') × (k ≤ j'))
          → ⊥
      beyond i gamma k j hit less h in_order outside fk (j', run, le) =
          let same : j ≡ j' = some_same j j' (sym hit ∙ run) in
          omega (
            arith,
            in_order,
            ltb→le (i * m + j) order outside,
            only_entry gamma k j (omega (arith, le, same)) less fk h,
          )

      pub giant_steps-IsLog :
          (count i gamma : ℕ)
          → 0 < m
          → i + count ≡ m + 1
          → IsForm ctx gamma (target * g ^ i)
          → NoneBelow (i * m)
          → Answers (giant_steps (λ x. mul ctx x giant_step) table m order count i gamma)
      unfolding giant_steps try_entry IsLog
      giant_steps-IsLog zero i gamma pos sum f none_below = (
        none,
        refl,
        done λ x less. none_below x (
            omega (
              arith,
              less,
              ap (λ (k : ℕ). k * m) {x = i} {y = suc m} (omega (arith, sum)),
              Nat.suc-mul m m,
            )),
      )
      giant_steps-IsLog (suc count) i gamma pos sum f none_below =
          let (gamma', step, f') = mul-IsForm c (target * g ^ i) g f fg in
          let up : target * g ^ i * g ≡ target * g ^ (i + 1) =
            Nat.mul_assoc target (g ^ i) g
            ∙ ap (λ (k : ℕ). target * k)
                (sym (Nat.pow-suc g i)
                  ∙ ap (λ (k : ℕ). g ^ k) {x = suc i} {y = i + 1} (omega arith)) in
          let go_on = λ (further : NoneBelow (suc i * m)).
            giant_steps-IsLog count (i + 1) gamma' pos (omega (arith, sum)) (cong-IsForm c up f') (
              subst NoneBelow {x = suc i * m} {y = (i + 1) * m}
                (ap (λ (k : ℕ). k * m) (omega arith)) further) in
          elim (Option-cases (lookup table gamma)) [
            | inl nothing ↦
                let miss =
                  λ (j : ℕ) (less : j < m) (in_order : i * m + j < order)
                      (h : IsForm ctx gamma (base ^ j)).
                    no_form gamma j nothing (t.complete gamma j less h) in
                let (r, run, log) = go_on (next_none i gamma pos f miss none_below) in
                (r, rw (nothing, step) run, log)
            | inr (j, hit) ↦
                let (less, h) = t.sound gamma j hit in
                let bound : i * m ≤ m * m = Nat.mul-le-mul_right m (omega (arith, sum)) in
                elim (Bool-cases (ltb (i * m + j) order)) [
                  | inl inside ↦ (
                    some (i * m + j),
                    rw
                        (
                          hit,
                          fits-ok 64 (i * m) (omega (arith, bound, narrow)),
                          fits-ok 64 (i * m + j) (omega (arith, bound, narrow, less)),
                          inside,
                        )
                        refl,
                    (ltb→lt (i * m + j) order inside, found_value i j (same_value h f)),
                  )
                  | inr outside ↦
                      let miss =
                        λ (k : ℕ) (k_less : k < m) (in_order : i * m + k < order)
                            (fk : IsForm ctx gamma (base ^ k)).
                          beyond i gamma k j hit less h in_order outside fk
                            (t.complete gamma k k_less fk) in
                      let (r, run, log) = go_on (next_none i gamma pos f miss none_below) in
                      (
                        r,
                        rw
                            (
                              hit,
                              fits-ok 64 (i * m) (omega (arith, bound, narrow)),
                              fits-ok 64 (i * m + j) (omega (arith, bound, narrow, less)),
                              outside,
                              step,
                            )
                            run,
                        log,
                      )
                ]
          ]
