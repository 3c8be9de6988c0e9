-- ===== src/Sieve/BitSieve/Iter.antt =====
-- The iterator over set bits: `trailing_zeros` and `word & (word - 1)` visit the digits in order.
use Prim.Native.Nat.{bit_and}
use mathlib.Core.Path.{ap₂}
use mathlib.Core.List.{append-nil}
use native.Mathlib.Nat
use prime_hunter.Common.Bits.{digit, digit-suc, digit-zero, bit_and_step, bit_and-le}
use prime_hunter.Common.{
  ℕ, zero, suc, ◌+◌, ◌-◌, ◌*◌, ◌/◌, ◌%◌, ◌^◌, ◌<◌, ◌≤◌, ◌≡◌, refl, sym, ap, ◌∙◌, inl, inr, false,
  List, [], ◌∷◌, ◌++◌, some, none, ◌==◌, if◌then◌else◌, Bool-cases, ==_iff, length, length-append,
  All, arith,
}
use prime_hunter.Sieve.BitSieve.{
  BitSieve, num_words, popcount, trailing_zeros, next, drain, drain_words, iter_set_bits, sum_ones,
  count_ones, new_all_set,
}
use prime_hunter.Sieve.BitSieve.Words.{word_or, bit, IsValid, new_all_set-bit, new_all_set-IsValid}

-- The reference: the indices from `i` on, `n` of them, at which `f` is 1, in ascending order.
pub scan : (ℕ → ℕ) → ℕ → ℕ → List ℕ
scan f zero i = []
scan f (suc n) i = let rest = scan f n (i + 1) in if f i == 1 then i ∷ rest else rest

-- The set digits of one word, lowest first.
positions : ℕ → ℕ → ℕ → List ℕ
positions zero base w = []
positions (suc k) base w =
    let rest = positions k (base + 1) (w / 2) in if w % 2 == 1 then base ∷ rest else rest

positions_double : (k base x : ℕ) → positions (suc k) base (x * 2) ≡ positions k (base + 1) x
unfolding positions
positions_double k base x = rw (even, half)
  where
    even : (x * 2 % 2 == 1) ≡ false
    even = ground arith

    half : x * 2 / 2 ≡ x
    half = omega arith

bit_and_self_fuel : (n a : ℕ) → a < n → bit_and a a ≡ a
bit_and_self_fuel zero a h = absurd (omega arith)
bit_and_self_fuel (suc n) zero h = refl
bit_and_self_fuel (suc n) (suc a) h =
    omega (arith, bit_and_step (suc a) (suc a), bit_and_self_fuel n (suc a / 2) (omega arith))

bit_and_self : (a : ℕ) → bit_and a a ≡ a
bit_and_self a = bit_and_self_fuel (suc a) a (omega arith)

-- Clearing the lowest set digit, of an odd and of an even word.
lowest_odd : (w : ℕ) → w % 2 ≡ 1 → bit_and w (w - 1) ≡ w / 2 * 2
lowest_odd w h = bit_and_step w (w - 1) ∙ rw same (omega (arith, bit_and_self (w / 2)))
  where
    same : (w - 1) / 2 ≡ w / 2
    same = omega arith

lowest_even : (w : ℕ) → w % 2 ≡ 0 → 0 < w → bit_and w (w - 1) ≡ bit_and (w / 2) (w / 2 - 1) * 2
lowest_even w h p = bit_and_step w (w - 1) ∙ rw less (omega arith)
  where
    less : (w - 1) / 2 ≡ w / 2 - 1
    less = omega arith

-- One call of `next` takes the first set digit.
positions-next :
    (k base w : ℕ)
    → w < 2 ^ k
    → 0 < w
    → positions k base w ≡ (base + trailing_zeros k w) ∷ positions k base (bit_and w (w - 1))
unfolding positions trailing_zeros
positions-next zero base w h p = absurd (omega arith)
positions-next (suc k) base w h p = elim (Bool-cases (w % 2 == 1)) [
  | inl odd ↦
      let e : w % 2 ≡ 1 = (==_iff (w % 2) 1).0 odd in
      rw (lowest_odd w e, positions_double k base (w / 2)) (rw (odd, Nat.add-zero))
  | inr even ↦
      let e : w % 2 ≡ 0 = ground (arith, even) in
      rw (lowest_even w e p, positions_double k base (bit_and (w / 2) (w / 2 - 1)))
        (rw even (
          positions-next k (base + 1) (w / 2) (omega (arith, Nat.pow-suc 2 k)) (omega arith)
          ∙ ap (λ (t : ℕ). t ∷ positions k (base + 1) (bit_and (w / 2) (w / 2 - 1))) (omega arith)))
]

length-positions : (k base w : ℕ) → length (positions k base w) ≡ popcount k w
unfolding positions popcount
length-positions zero base w = refl
length-positions (suc k) base w = ground (arith, length-positions k (base + 1) (w / 2))

popcount-le : (k w : ℕ) → popcount k w ≤ k
unfolding popcount
popcount-le zero w = omega arith
popcount-le (suc k) w = omega (arith, popcount-le k (w / 2))

positions-zero : (k base : ℕ) → positions k base 0 ≡ []
unfolding positions
positions-zero zero base = refl
positions-zero (suc k) base = positions-zero k (base + 1)

next-some :
    (base w : ℕ)
    → (w == 0) ≡ false
    → next base w ≡ some (base + trailing_zeros 64 w, bit_and w (w - 1))
unfolding next
next-some base w h = rw h

next-none : (base : ℕ) → next base 0 ≡ none
unfolding next
next-none base = refl

empty : (xs : List ℕ) → length xs ≤ 0 → [] ≡ xs
empty [] h = refl
empty (x ∷ xs) h = absurd (omega arith)

drain-positions :
    (fuel base w : ℕ)
    → w < 2 ^ 64
    → length (positions 64 base w) ≤ fuel
    → drain fuel base w ≡ positions 64 base w
unfolding drain
drain-positions zero base w h few = empty (positions 64 base w) few
drain-positions (suc fuel) base w h few = elim (Bool-cases (w == 0)) [
  | inl done ↦
      let e : w ≡ 0 = (==_iff w 0).0 done in
      rw e (rw (next-none base, drain) (sym (positions-zero 64 base)))
  | inr more ↦
      let first = positions-next 64 base w h (ground arith) in
      rw (next-some base w more, drain)
        (rw first (
          ap (λ (t : List ℕ). (base + trailing_zeros 64 w) ∷ t)
            (drain-positions fuel base (bit_and w (w - 1))
              (Nat.lt_of_le_of_lt (bit_and-le w (w - 1)) h) (omega (arith, ap length first)))))
]

positions-scan :
    (f : ℕ → ℕ) (k base w : ℕ)
    → ((j : ℕ) → j < k → f (base + j) ≡ digit w j)
    → positions k base w ≡ scan f k base
unfolding positions scan
positions-scan f zero base w h = refl
positions-scan f (suc k) base w h = rw (positions-scan f k (base + 1) (w / 2) shift, lowest)
  where
    lowest : f base ≡ w % 2
    lowest = ap f (sym (Nat.add-zero base)) ∙ h 0 (omega arith) ∙ digit-zero w

    shift : (j : ℕ) → j < k → f (base + 1 + j) ≡ digit (w / 2) j
    shift j p = ap f (omega arith) ∙ h (suc j) (omega arith) ∙ digit-suc w j

scan-append : (f : ℕ → ℕ) (m n i : ℕ) → scan f m i ++ scan f n (i + m) ≡ scan f (m + n) i
unfolding scan
scan-append f zero n i = rw (Nat.add-zero, Nat.zero-add)
scan-append f (suc m) n i =
    let rest : scan f m (i + 1) ++ scan f n (i + suc m) ≡ scan f (m + n) (i + 1) =
      ap (λ (t : ℕ). scan f m (i + 1) ++ scan f n t) (omega arith) ∙ scan-append f m n (i + 1) in
    rw Nat.suc-add (elim (Bool-cases (f i == 1)) [
      | inl here ↦ rw here (ap (λ (t : List ℕ). i ∷ t) rest)
      | inr skip ↦ rw skip rest
    ])

-- Nothing is found where `f` is 0.
scan-zero : (f : ℕ → ℕ) (n i : ℕ) → ((j : ℕ) → i ≤ j → f j ≡ 0) → scan f n i ≡ []
unfolding scan
scan-zero f zero i h = refl
scan-zero f (suc n) i h = rw (h i (omega arith), scan-zero f n (i + 1) (λ j p. h j (omega arith)))

-- A word has at most as many set bits as digits, so the fuel of 64 is enough.
drain-word : (base w : ℕ) → w < 2 ^ 64 → drain 64 base w ≡ positions 64 base w
drain-word base w h =
    drain-positions 64 base w h (omega (arith, length-positions 64 base w, popcount-le 64 w))

length-drain_words :
    (wi : ℕ) (ws : List ℕ) → All (λ w. w < 2 ^ 64) ws → length (drain_words wi ws) ≡ sum_ones ws
unfolding drain_words sum_ones
length-drain_words wi [] h = refl
length-drain_words wi (w ∷ ws) h =
    length-append (drain 64 (wi * 64) w) (drain_words (suc wi) ws)
    ∙ ap₂ ◌+◌ (ap length (drain-word (wi * 64) w h.0) ∙ length-positions 64 (wi * 64) w)
        (length-drain_words (suc wi) ws h.1)

-- The words from `wi` on, for the bits of the whole list.
drain_words-scan :
    (f : ℕ → ℕ) (wi : ℕ) (ws : List ℕ)
    → All (λ w. w < 2 ^ 64) ws
    → ((i : ℕ) → f (wi * 64 + i) ≡ digit (word_or ws (i / 64)) (i % 64))
    → drain_words wi ws ≡ scan f (length ws * 64) (wi * 64)
unfolding drain_words
drain_words-scan f wi [] narrow h = unfold scan in refl
drain_words-scan f wi (w ∷ ws) narrow h =
    ap₂ ◌++◌ (drain-word (wi * 64) w narrow.0 ∙ positions-scan f 64 (wi * 64) w here) (
      drain_words-scan f (suc wi) ws narrow.1 later
      ∙ ap (λ (t : ℕ). scan f (length ws * 64) t) (omega arith))
    ∙ scan-append f 64 (length ws * 64) (wi * 64)
    ∙ ap (λ (t : ℕ). scan f t (wi * 64)) (omega arith)
  where
    here : (j : ℕ) → j < 64 → f (wi * 64 + j) ≡ digit w j
    here j p =
        let q : j / 64 ≡ 0 = omega arith in let r : j % 64 ≡ j = omega arith in h j ∙ rw (q, r)

    later : (i : ℕ) → f (suc wi * 64 + i) ≡ digit (word_or ws (i / 64)) (i % 64)
    later i =
        let q : (i + 64) / 64 ≡ suc (i / 64) = omega arith in
        let r : (i + 64) % 64 ≡ i % 64 = omega arith in ap f (omega arith) ∙ h (i + 64) ∙ rw (q, r)

length-scan_full :
    (f : ℕ → ℕ) (n i : ℕ) → ((j : ℕ) → i ≤ j → j < i + n → f j ≡ 1) → length (scan f n i) ≡ n
unfolding scan
length-scan_full f zero i h = refl
length-scan_full f (suc n) i h =
    rw (h i (omega arith) (omega arith))
      (ap suc (length-scan_full f n (i + 1) (λ j p q. h j (omega arith) (omega arith))))

-- The iterator of a valid sieve yields the surviving indices, each once and in ascending order.
pub iter_set_bits-scan : {s : BitSieve} → IsValid s → iter_set_bits s ≡ scan (bit s) s.len 0
unfolding iter_set_bits
iter_set_bits-scan {s} v =
    drain_words-scan (bit s) 0 s.words v.narrow (λ i. ap (bit s) (Nat.zero-add i))
    ∙ ap (λ (t : ℕ). scan (bit s) t 0) split
    ∙ sym (scan-append (bit s) s.len spare 0)
    ∙ rw (Nat.zero-add, past, append-nil)
  where
    spare : ℕ
    spare = num_words s.len * 64 - s.len

    split : length s.words * 64 ≡ s.len + spare
    split = omega (arith, v.sized)

    past : scan (bit s) spare s.len ≡ []
    past = scan-zero (bit s) spare s.len v.clean

-- On a valid sieve `count_ones` is the number of indices that the iterator yields.
pub count_ones-length : {s : BitSieve} → IsValid s → count_ones s ≡ length (iter_set_bits s)
unfolding count_ones iter_set_bits
count_ones-length {s} v = sym (length-drain_words 0 s.words v.narrow)

-- A new sieve with all bits set counts as many ones as its length.
count_ones-new_all_set : (len : ℕ) → count_ones (new_all_set len) ≡ len
unfolding new_all_set
count_ones-new_all_set len =
    count_ones-length (new_all_set-IsValid len)
    ∙ ap length (iter_set_bits-scan (new_all_set-IsValid len))
    ∙ length-scan_full (bit (new_all_set len)) len 0 (λ j p q. new_all_set-bit len j ∙ ground arith)
