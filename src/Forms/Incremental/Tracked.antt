-- ===== src/Forms/Incremental/Tracked.antt =====
-- The entries of a value v: each number of the list that does not divide v, with its remainder.
use native.Mathlib.Nat
use prime_hunter.Common.{
  ℕ, ◌+◌, ◌-◌, ◌*◌, ◌%◌, ◌^◌, ◌<◌, Bool, true, false, not, ◌&&◌, ◌||◌, List, [], ◌∷◌, any, All,
  ◌==◌, if◌then◌else◌, ◌≡◌, refl, sym, ap, ◌∙◌, Outcome, ok, panic, ◌>>=◌, fits, sub_checked,
  Bool-cases, ==_iff, inl, inr, arith,
}
use prime_hunter.Common.Mod.{cong-mul, mul-mod_left}
use prime_hunter.Common.Residue.{fits-ok, product_narrow, mod-pred, mod-one_iff}
use prime_hunter.Forms.Incremental.{
  update_entry, update_all, retain_nonzero, retain_mut, check_loop,
}

abbrev pub IsNarrow : ℕ → Type 0
IsNarrow p = (1 < p) × (p < 2 ^ 32)

unfoldable pub tracked : ℕ → List ℕ → List (ℕ × ℕ)
tracked v [] = []
tracked v (p ∷ ps) = let rest = tracked v ps in if v % p == 0 then rest else (p, v % p) ∷ rest

product_multiple : (v n p : ℕ) → v % p ≡ 0 → v * n % p ≡ 0
product_multiple v n p h =
    sym (mul-mod_left p v n)
    ∙ ap (λ (t : ℕ). t * n % p) h
    ∙ ap (λ (t : ℕ). t % p) (Nat.zero-mul n)
    ∙ Nat.zero-mod p

-- One product of remainders, reduced.
product_lem :
    (n p v : ℕ)
    → IsNarrow p
    → ((if p == 0 then panic else fits 64 (v % p * (n % p))) >>= λ x. ok (x % p)) ≡ ok (v * n % p)
product_lem n p v (big, small) =
    rw
      (
        nonzero,
        fits-ok 64 (v % p * (n % p)) (
            product_narrow p (v % p) (n % p) small (Nat.mod-lt v (omega (arith, big)))
              (Nat.mod-lt n (omega (arith, big)))),
      )
      (ap ok (cong-mul p (v % p) v (n % p) n (Nat.mod-mod v p) (Nat.mod-mod n p)))
  where
    nonzero : (p == 0) ≡ false
    nonzero = ground (arith, big)

pub then_lem :
    {B : Type 0} (n p v : ℕ) (f : ℕ → Outcome B)
    → IsNarrow p
    → ((if p == 0 then panic else fits 64 (v % p * (n % p))) >>= λ x. f (x % p)) ≡ f (v * n % p)
then_lem n p v f h =
    rebind (if p == 0 then panic else fits 64 (v % p * (n % p))) (λ x. x % p) f
    ∙ ap (λ m. m >>= f) (product_lem n p v h)
  where
    rebind :
        {B : Type 0} (m : Outcome ℕ) (g : ℕ → ℕ) (f : ℕ → Outcome B)
        → (m >>= λ x. f (g x)) ≡ ((m >>= λ x. ok (g x)) >>= f)
    rebind (ok x) g f = refl
    rebind panic g f = refl

update_entry_lem : (n p v : ℕ) → IsNarrow p → update_entry n (p, v % p) ≡ ok (p, v * n % p)
unfolding update_entry
update_entry_lem n p v h = then_lem n p v (λ x. ok (p, x)) h

pub retain_mut-tracked :
    (n v : ℕ) (ps : List ℕ)
    → All IsNarrow ps
    → retain_mut n (tracked v ps) ≡ ok (tracked (v * n) ps)
unfolding retain_mut tracked
retain_mut-tracked n v [] narrow = refl
retain_mut-tracked n v (p ∷ ps) (here, rest) = elim (Bool-cases (v % p == 0)) [
  | inl gone ↦
      rw (gone, product_multiple v n p ((==_iff (v % p) 0).0 gone)) (retain_mut-tracked n v ps rest)
  | inr kept ↦
      rw (kept, update_entry_lem n p v here, retain_mut-tracked n v ps rest)
        (branch (v * n % p == 0) (p, v * n % p) (tracked (v * n) ps))
]
  where
    branch :
        (b : Bool) (e : ℕ × ℕ) (es : List (ℕ × ℕ))
        → ok (if not b then e ∷ es else es) ≡ ok (if b then es else e ∷ es)
    branch b e es = ground arith

pub update_all-tracked :
    (n v : ℕ) (ps : List ℕ)
    → All IsNarrow ps
    → (es : List (ℕ × ℕ)) × (update_all n (tracked v ps) ≡ ok es)
      × (retain_nonzero es ≡ tracked (v * n) ps)
unfolding update_all tracked retain_nonzero
update_all-tracked n v [] narrow = ([], refl, refl)
update_all-tracked n v (p ∷ ps) (here, rest) =
    let (es, run, left) = update_all-tracked n v ps rest in
    elim (Bool-cases (v % p == 0)) [
      | inl gone ↦ (es, rw gone run, rw (product_multiple v n p ((==_iff (v % p) 0).0 gone)) left)
      | inr kept ↦ (
        (p, v * n % p) ∷ es,
        rw (kept, update_entry_lem n p v here, run) refl,
        branch (v * n % p == 0) (p, v * n % p) es (tracked (v * n) ps) left,
      )
    ]
  where
    branch :
        (b : Bool) (e : ℕ × ℕ) (es xs : List (ℕ × ℕ))
        → retain_nonzero es ≡ xs
        → (if not b then e ∷ retain_nonzero es else retain_nonzero es) ≡ (if b then xs else e ∷ xs)
    branch b e es xs left = ground (arith, left)

-- A divisor of v above 1 divides neither neighbour.
neither :
    (v p : ℕ)
    → 0 < v
    → 1 < p
    → v % p ≡ 0
    → (((v + 1) % p == 0) ≡ false) × (((v - 1) % p == 0) ≡ false)
neither v p pos big h = (
  sym (mod-pred p v (omega (arith, big))) ∙ ground (arith, h, big),
  sym (mod-one_iff p v big pos) ∙ ground (arith, h),
)

-- The two flags say which neighbour of v a number of the list divides.
pub check_loop-tracked :
    (v : ℕ) (ps : List ℕ) (plus minus : Bool)
    → 0 < v
    → All IsNarrow ps
    → (plus && minus) ≡ false
    → check_loop plus minus (tracked v ps)
      ≡ ok (plus || any (λ p. (v + 1) % p == 0) ps, minus || any (λ p. (v - 1) % p == 0) ps)
unfolding check_loop tracked
check_loop-tracked v [] plus minus pos narrow unset = ground arith
check_loop-tracked v (p ∷ ps) plus minus pos ((big, small), rest) unset =
    elim (Bool-cases (v % p == 0)) [
      | inl gone ↦
          let (no_plus, no_minus) = neither v p pos big ((==_iff (v % p) 0).0 gone) in
          rw (gone, no_plus, no_minus) (check_loop-tracked v ps plus minus pos rest unset)
      | inr kept ↦
          rw (kept, checked, sym (mod-pred p v (omega (arith, big))), sym (mod-one_iff p v big pos))
            (round (v % p == p - 1) (v % p == 1) plus minus (λ x y. check_loop x y (tracked v ps))
              (any (λ k. (v + 1) % k == 0) ps) (any (λ k. (v - 1) % k == 0) ps) unset
              (λ x y h. check_loop-tracked v ps x y pos rest h))
    ]
  where
    checked : sub_checked p 1 ≡ ok (p - 1)
    checked = ground (arith, big)

    round :
        (hit_plus hit_minus plus minus : Bool) (go : Bool → Bool → Outcome (Bool × Bool))
        (a b : Bool)
        → (plus && minus) ≡ false
        → ((x y : Bool) → (x && y) ≡ false → go x y ≡ ok (x || a, y || b))
        → ((if not plus then ok hit_plus else ok false) >>= λ hit.
            if (if hit then true else plus) && (if not minus && hit_minus then true else minus)
            then ok ((if hit then true else plus), (if not minus && hit_minus then true else minus))
            else go (if hit then true else plus) (if not minus && hit_minus then true else minus))
          ≡ ok (plus || (hit_plus || a), minus || (hit_minus || b))
    round hit_plus hit_minus true true go a b unset next = ground (arith, unset)
    round hit_plus true true false go a b unset next = refl
    round hit_plus false true false go a b unset next = next true false refl
    round true hit_minus false true go a b unset next = refl
    round false hit_minus false true go a b unset next = next false true refl
    round true true false false go a b unset next = refl
    round true false false false go a b unset next = next true false refl
    round false true false false go a b unset next = next false true refl
    round false false false false go a b unset next = next false false refl
