-- ===== src/Forms/Sweep.antt =====
-- The inner loop that the sieves share: one pass over the survivors, with what it carries along.
use prime_hunter.Common.{
  ℕ, ◌+◌, ◌≤◌, Bool, false, not, ◌&&◌, List, [], ◌∷◌, any, All, if◌then◌else◌, ◌≡◌, refl, ap, ◌∙◌,
  Outcome, ok, ◌>>=◌, arith,
}

-- The reference: `out` at each number from `n` on.
unfoldable pub number_map : {X : Type 0} → (ℕ → X → X) → ℕ → List X → List X
number_map out n [] = []
number_map out n (x ∷ xs) = out n x ∷ number_map out (n + 1) xs

module _ {S X : Type 0} where
  -- `for n in min_n..=max_n`, whose index n - min_n walks the vector.
  unfoldable pub sweep : (ℕ → S → X → Outcome (X × S)) → ℕ → S → List X → Outcome (List X)
  sweep step n s [] = ok []
  sweep step n s (x ∷ xs) = do r ← step n s x; rest ← sweep step (n + 1) r.1 xs; ok (r.0 ∷ rest)

  -- Where each step keeps `Inv` and returns `out`, the pass is the reference.
  pub sweep-number_map :
      (step : ℕ → S → X → Outcome (X × S)) (out : ℕ → X → X) (Inv : ℕ → S → Type 0)
      → ((n : ℕ) (s : S) (x : X)
          → Inv n s
          → (s' : S) × (step n s x ≡ ok (out n x, s')) × Inv (n + 1) s')
      → (n : ℕ) (s : S) (xs : List X) → Inv n s
      → sweep step n s xs ≡ ok (number_map out n xs)
  unfolding sweep number_map
  sweep-number_map step out Inv keep n s [] inv = refl
  sweep-number_map step out Inv keep n s (x ∷ xs) inv =
      let (s', run, inv') = keep n s x inv in
      let rest = sweep-number_map step out Inv keep (n + 1) s' xs inv' in rw (run, rest) refl

-- One pass for each prime.
unfoldable pub for_each :
    {X : Type 0} → (ℕ → List X → Outcome (List X)) → List ℕ → List X → Outcome (List X)
for_each mark [] xs = ok xs
for_each mark (p ∷ ps) xs = mark p xs >>= for_each mark ps

-- `if survives[idx] && hit { survives[idx] = false }` for n from `sieve_min_n` on.
abbrev pub strike : Bool → Bool → Bool
strike hit survives = if survives && hit then false else survives

pub number_map_ext :
    {X : Type 0} (f g : ℕ → X → X)
    → ((n : ℕ) (x : X) → f n x ≡ g n x)
    → (n : ℕ) (xs : List X) → number_map f n xs ≡ number_map g n xs
unfolding number_map
number_map_ext f g same n [] = refl
number_map_ext f g same n (x ∷ xs) = rw (same n x, number_map_ext f g same (n + 1) xs) refl

pub number_map-number_map :
    {X : Type 0} (f g : ℕ → X → X) (n : ℕ) (xs : List X)
    → number_map g n (number_map f n xs) ≡ number_map (λ k x. g k (f k x)) n xs
unfolding number_map
number_map-number_map f g n [] = refl
number_map-number_map f g n (x ∷ xs) = rw (number_map-number_map f g (n + 1) xs) refl

-- Two vectors side by side, with a test for each: `a p n` and `b p n` say that `p` strikes `n` out
-- of the first and of the second, where `from n` holds.
module _ (from : ℕ → Bool) (a b : ℕ → ℕ → Bool) where
  unfoldable pub strike_out : List ℕ → ℕ → Bool × Bool → Bool × Bool
  strike_out ps n (x, y) =
      (x && not (from n && any (λ p. a p n) ps), y && not (from n && any (λ p. b p n) ps))

  strike_out-cons :
      (p : ℕ) (ps : List ℕ) (n : ℕ) (x : Bool × Bool)
      → strike_out ps n (strike_out (p ∷ []) n x) ≡ strike_out (p ∷ ps) n x
  unfolding strike_out
  strike_out-cons p ps n (x, y) = ground arith

  spared_one :
      (p n : ℕ) (x : Bool × Bool) → (a p n ≡ false) × (b p n ≡ false) → x ≡ strike_out (p ∷ []) n x
  unfolding strike_out
  spared_one p n (x, y) (left, right) = ground (arith, left, right)

  strike_out-nil : (n : ℕ) (x : Bool × Bool) → x ≡ strike_out [] n x
  unfolding strike_out
  strike_out-nil n (x, y) = ground arith

  number_map_id : (n : ℕ) (xs : List (Bool × Bool)) → xs ≡ number_map (λ k x. x) n xs
  unfolding number_map
  number_map_id n [] = refl
  number_map_id n (x ∷ xs) = ap (λ t. x ∷ t) (number_map_id (n + 1) xs)

  -- Where each prime's pass strikes out what it hits, all passes together do.
  pub for_each-strike_out :
      (mark : ℕ → List (Bool × Bool) → Outcome (List (Bool × Bool))) (Good : ℕ → Type 0) (n : ℕ)
      → ((p : ℕ) (xs : List (Bool × Bool))
          → Good p
          → mark p xs ≡ ok (number_map (strike_out (p ∷ [])) n xs))
      → (ps : List ℕ) (xs : List (Bool × Bool)) → All Good ps
      → for_each mark ps xs ≡ ok (number_map (strike_out ps) n xs)
  unfolding for_each
  for_each-strike_out mark Good n run [] xs good =
      ap ok (number_map_id n xs ∙ number_map_ext (λ k x. x) (strike_out []) strike_out-nil n xs)
  for_each-strike_out mark Good n run (p ∷ ps) xs (good, rest) = rw (run p xs good) (
      for_each-strike_out mark Good n run ps (number_map (strike_out (p ∷ [])) n xs) rest
      ∙ ap ok (
          number_map-number_map (strike_out (p ∷ [])) (strike_out ps) n xs
          ∙ number_map_ext _ (strike_out (p ∷ ps)) (strike_out-cons p ps) n xs))

  -- A prime that hits nothing may be left out.
  pub spared :
      (p low : ℕ)
      → ((n : ℕ) → low ≤ n → (a p n ≡ false) × (b p n ≡ false))
      → (n : ℕ) (xs : List (Bool × Bool)) → low ≤ n
      → xs ≡ number_map (strike_out (p ∷ [])) n xs
  unfolding number_map
  spared p low none_hit n [] h = refl
  spared p low none_hit n (x ∷ xs) h = (λ i.
      spared_one p n x (none_hit n h) i ∷ spared p low none_hit (n + 1) xs (omega (arith, h)) i)
