-- ===== src/Sieve/BitSieve/Words.antt =====
-- The words of a sieve: what a write changes, and the bits of the two constructors.
use native.Mathlib.Nat
use prime_hunter.Common.Lists
use prime_hunter.Common.Bits.{digit, digit_complement, zero-digit}
use prime_hunter.Common.Mod.{pow-add}
use prime_hunter.Common.{
  ℕ, zero, suc, ◌+◌, ◌-◌, ◌*◌, ◌/◌, ◌%◌, ◌^◌, ◌<◌, ◌≤◌, ◌≡◌, refl, sym, ap, ◌∙◌, inl, inr, ◌&&◌,
  some, List, [], ◌∷◌, length, get_elem?, replicate, All, ◌==◌, ltb, if◌then◌else◌, Bool-cases,
  arith,
}
use prime_hunter.Sieve.BitSieve.{BitSieve, ones, num_words, shift_last, new_all_set, new_all_clear}

-- Word `i`, and 0 past the end.
abbrev pub word_or : List ℕ → ℕ → ℕ
word_or [] i = 0
word_or (w ∷ ws) zero = w
word_or (w ∷ ws) (suc i) = word_or ws i

-- The abstract view: bit `i` of the whole array, 0 or 1.
abbrev pub bit : BitSieve → ℕ → ℕ
bit s i = digit (word_or s.words (i / 64)) (i % 64)

-- The invariant: as many words as `len` needs, each of 64 bits, and no bit set past `len`.
pub record IsValid (s : BitSieve) : Type 0 where
  pub sized : length s.words ≡ num_words s.len
  pub narrow : All (λ w. w < 2 ^ 64) s.words
  pub clean : (i : ℕ) → s.len ≤ i → bit s i ≡ 0

pub get_elem?-word_or : (ws : List ℕ) (i : ℕ) → i < length ws → get_elem? ws i ≡ some (word_or ws i)
get_elem?-word_or [] i h = absurd (omega arith)
get_elem?-word_or (w ∷ ws) zero h = refl
get_elem?-word_or (w ∷ ws) (suc i) h = get_elem?-word_or ws i (omega arith)

pub word_or-set :
    (ws : List ℕ) (i j v : ℕ)
    → i < length ws
    → word_or (Lists.set ws i v) j ≡ (if i == j then v else word_or ws j)
word_or-set [] i j v h = absurd (omega arith)
word_or-set (w ∷ ws) zero zero v h = refl
word_or-set (w ∷ ws) zero (suc j) v h = ground arith
word_or-set (w ∷ ws) (suc i) zero v h = ground arith
word_or-set (w ∷ ws) (suc i) (suc j) v h = ground (arith, word_or-set ws i j v)

pub length-set : (ws : List ℕ) (i v : ℕ) → length (Lists.set ws i v) ≡ length ws
length-set [] i v = refl
length-set (w ∷ ws) zero v = refl
length-set (w ∷ ws) (suc i) v = ap suc (length-set ws i v)

pub narrow-word_or : (ws : List ℕ) (i : ℕ) → All (λ w. w < 2 ^ 64) ws → word_or ws i < 2 ^ 64
narrow-word_or [] i h = omega arith
narrow-word_or (w ∷ ws) zero h = h.0
narrow-word_or (w ∷ ws) (suc i) h = narrow-word_or ws i h.1

pub narrow-set :
    (ws : List ℕ) (i v : ℕ)
    → All (λ w. w < 2 ^ 64) ws
    → v < 2 ^ 64
    → All (λ w. w < 2 ^ 64) (Lists.set ws i v)
narrow-set [] i v h p = tt
narrow-set (w ∷ ws) zero v h p = (p, h.1)
narrow-set (w ∷ ws) (suc i) v h p = (h.0, narrow-set ws i v h.1 p)

length-replicate : (n w : ℕ) → length (replicate n w) ≡ n
length-replicate zero w = refl
length-replicate (suc n) w = ap suc (length-replicate n w)

narrow-replicate : (n w : ℕ) → w < 2 ^ 64 → All (λ v. v < 2 ^ 64) (replicate n w)
narrow-replicate zero w h = tt
narrow-replicate (suc n) w h = (h, narrow-replicate n w h)

word_or-replicate : (n w i : ℕ) → word_or (replicate n w) i ≡ (if ltb i n then w else 0)
word_or-replicate zero w i = ground arith
word_or-replicate (suc n) w zero = ground arith
word_or-replicate (suc n) w (suc i) = ground (arith, word_or-replicate n w i)

length-shift_last : (e : ℕ) (ws : List ℕ) → length (shift_last e ws) ≡ length ws
unfolding shift_last
length-shift_last e [] = refl
length-shift_last e (w ∷ []) = refl
length-shift_last e (w ∷ v ∷ ws) = ap suc (length-shift_last e (v ∷ ws))

narrow-shift_last :
    (e : ℕ) (ws : List ℕ) → All (λ w. w < 2 ^ 64) ws → All (λ w. w < 2 ^ 64) (shift_last e ws)
unfolding shift_last
narrow-shift_last e [] h = tt
narrow-shift_last e (w ∷ []) h = (omega (arith, h, Nat.div-le_self w (2 ^ e)), tt)
narrow-shift_last e (w ∷ v ∷ ws) h = (h.0, narrow-shift_last e (v ∷ ws) h.1)

word_or-shift_last :
    (e : ℕ) (ws : List ℕ) (i : ℕ)
    → word_or (shift_last e ws) i
      ≡ (if suc i == length ws then word_or ws i / 2 ^ e else word_or ws i)
unfolding shift_last
word_or-shift_last e [] i = ground arith
word_or-shift_last e (w ∷ []) zero = ground arith
word_or-shift_last e (w ∷ []) (suc i) = ground arith
word_or-shift_last e (w ∷ v ∷ ws) zero = ground arith
word_or-shift_last e (w ∷ v ∷ ws) (suc i) = ground (arith, word_or-shift_last e (v ∷ ws) i)

digit-ones : (k : ℕ) → k < 64 → digit ones k ≡ 1
digit-ones k h = omega (arith, digit_complement 64 0 k (omega arith) h, zero-digit k)

digit-shifted : (w e k : ℕ) → digit (w / 2 ^ e) k ≡ digit w (e + k)
digit-shifted w e k =
    ap (λ (t : ℕ). t % 2)
      (Nat.div-div-eq-div-mul w (2 ^ e) (2 ^ k) ∙ ap (λ (t : ℕ). w / t) (sym (pow-add 2 e k)))

digit-ones_past : (k : ℕ) → 64 ≤ k → digit ones k ≡ 0
digit-ones_past k h =
    ap (λ (t : ℕ). t % 2)
      (Nat.div-eq_of_lt (Nat.le_trans (omega arith) (Nat.pow-le-pow_right {n = 2} (omega arith) h)))

pub new_all_clear-bit : (len i : ℕ) → bit (new_all_clear len) i ≡ 0
unfolding new_all_clear
new_all_clear-bit len i =
    ground (arith, word_or-replicate (num_words len) 0 (i / 64), zero-digit (i % 64))

pub new_all_clear-IsValid : (len : ℕ) → IsValid (new_all_clear len)
unfolding new_all_clear
new_all_clear-IsValid len = record {
  sized = length-replicate (num_words len) 0;
  narrow = narrow-replicate (num_words len) 0 (omega arith);
  clean = λ i h. new_all_clear-bit len i;
}

-- The words of `new_all_set`, for any count of words and of spare bits.
all_set_word :
    (extra n a : ℕ)
    → word_or
        (if ltb 0 extra && ltb 0 n then shift_last extra (replicate n ones) else replicate n ones)
        a
      ≡ (if suc a == n then ones / 2 ^ extra else if ltb a n then ones else 0)
all_set_word zero n a = ground (arith, word_or-replicate n ones a, Nat.div-one ones)
all_set_word (suc extra) zero a = ground arith
all_set_word (suc extra) (suc n) a = ground (
  arith,
  word_or-shift_last (suc extra) (replicate (suc n) ones) a,
  word_or-replicate (suc n) ones a,
  length-replicate n ones,
)

digit-last :
    (extra k : ℕ) → k < 64 → digit (ones / 2 ^ extra) k ≡ (if ltb (extra + k) 64 then 1 else 0)
digit-last extra k h =
    digit-shifted ones extra k ∙ ground (arith, digit-ones (extra + k), digit-ones_past (extra + k))

-- Exactly the bits below `len` are set.
pub new_all_set-bit : (len i : ℕ) → bit (new_all_set len) i ≡ (if ltb i len then 1 else 0)
unfolding new_all_set
new_all_set-bit len i =
    ap (λ (w : ℕ). digit w (i % 64))
      (all_set_word (num_words len * 64 - len) (num_words len) (i / 64))
    ∙ place
  where
    place :
        digit
          (if suc (i / 64) == num_words len
            then ones / 2 ^ (num_words len * 64 - len)
            else if ltb (i / 64) (num_words len)
            then ones
            else 0)
          (i % 64)
        ≡ (if ltb i len then 1 else 0)
    place = ground (
      arith,
      digit-last (num_words len * 64 - len) (i % 64),
      digit-ones (i % 64),
      zero-digit (i % 64),
    )

All-set_words :
    (extra n : ℕ)
    → let ws =
        (if ltb 0 extra && ltb 0 n
          then shift_last extra (replicate n ones)
          else replicate n ones) in
      (length ws ≡ n) × All (λ w. w < 2 ^ 64) ws
All-set_words extra n = elim (Bool-cases (ltb 0 extra && ltb 0 n)) [
  | inl shifted ↦ rw shifted (
    length-shift_last extra (replicate n ones) ∙ length-replicate n ones,
    narrow-shift_last extra (replicate n ones) (narrow-replicate n ones (omega arith)),
  )
  | inr plain ↦ rw plain (length-replicate n ones, narrow-replicate n ones (omega arith))
]

pub new_all_set-IsValid : (len : ℕ) → IsValid (new_all_set len)
unfolding new_all_set
new_all_set-IsValid len =
    let (sized, narrow) = All-set_words (num_words len * 64 - len) (num_words len) in
    record { sized = sized; narrow = narrow; clean = λ i h. new_all_set-bit len i ∙ ground arith }
