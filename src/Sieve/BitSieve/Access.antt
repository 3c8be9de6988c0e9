-- ===== src/Sieve/BitSieve/Access.antt =====
-- Reading and writing one bit of a valid sieve.
use Prim.Native.Nat.{bit_and, bit_or}
use native.Mathlib.Nat
use prime_hunter.Common.Lists
use prime_hunter.Common.Bits.{
  digit, digit-bit_and, digit-bit_or, digit-pow_self, digit-pow_ne, digit_complement, bit_and-pow,
  bit_and-le, bit_or-lt,
}
use prime_hunter.Common.{
  ℕ, ◌+◌, ◌-◌, ◌/◌, ◌%◌, ◌^◌, ◌<◌, ◌≤◌, ◌≡◌, refl, ap, ◌∙◌, inl, inr, Bool, true, false, not,
  Outcome, ok, panic, ◌==◌, ltb, if◌then◌else◌, Bool-cases, ltb→lt, ◌⊎◌, ==_iff, lt→ltb, arith,
}
use prime_hunter.Sieve.BitSieve.{BitSieve, ones, num_words, word_at, get, set, clear}
use prime_hunter.Sieve.BitSieve.Words.{
  word_or, bit, IsValid, get_elem?-word_or, word_or-set, length-set, narrow-word_or, narrow-set,
}

pow_pos : (k : ℕ) → 0 < 2 ^ k
pow_pos k = Nat.one-le-pow k 2 (omega arith)

index_bound : (len i : ℕ) → i < len → i / 64 < num_words len
index_bound len i h = omega arith

pow_narrow : (k : ℕ) → k < 64 → 2 ^ k < 2 ^ 64
pow_narrow k h = omega (arith, Nat.pow-suc 2 k, Nat.pow-le-pow_right {n = 2} (omega arith) h)

-- A word masked by one bit is not 0 exactly when that digit is 1.
masked : (w k : ℕ) → not (bit_and w (2 ^ k) == 0) ≡ (digit w k == 1)
masked w k = rw (bit_and-pow w k) (ground (arith, pow_pos k, two_values))
  where
    two_values : (digit w k ≡ 0) ⊎ (digit w k ≡ 1)
    two_values = omega arith

pow_digit : (i j : ℕ) → i / 64 ≡ j / 64 → digit (2 ^ (i % 64)) (j % 64) ≡ (if i == j then 1 else 0)
pow_digit i j h = elim (Bool-cases (i == j)) [
  | inl same ↦ rw (same, (==_iff i j).0 same) (digit-pow_self (j % 64))
  | inr other ↦ rw other (digit-pow_ne (i % 64) (j % 64) λ e. absurd (ground (arith, other, e, h)))
]

set_digit :
    (i j w : ℕ)
    → i / 64 ≡ j / 64
    → digit (bit_or w (2 ^ (i % 64))) (j % 64) ≡ (if i == j then 1 else digit w (j % 64))
set_digit i j w h =
    digit-bit_or w (2 ^ (i % 64)) (j % 64) ∙ rw (pow_digit i j h) (ground (arith, one_digit))
  where
    one_digit : digit w (j % 64) ≤ 1
    one_digit = omega arith

clear_digit :
    (i j w : ℕ)
    → i / 64 ≡ j / 64
    → digit (bit_and w (ones - 2 ^ (i % 64))) (j % 64) ≡ (if i == j then 0 else digit w (j % 64))
clear_digit i j w h =
    digit-bit_and w (ones - 2 ^ (i % 64)) (j % 64) ∙ ground (arith, one_digit, rest)
  where
    one_digit : digit w (j % 64) ≤ 1
    one_digit = omega arith

    rest : digit (ones - 2 ^ (i % 64)) (j % 64) + (if i == j then 1 else 0) ≡ 1
    rest = rw (← pow_digit i j h) (
        digit_complement 64 (2 ^ (i % 64)) (j % 64) (pow_narrow (i % 64) (omega arith))
          (omega arith))

module _ {s : BitSieve} (v : IsValid s) where
  word_at_lem : (i : ℕ) → i < s.len → word_at s.words (i / 64) ≡ ok (word_or s.words (i / 64))
  word_at_lem i h =
      rw (get_elem?-word_or s.words (i / 64) (rw v.sized (index_bound s.len i h)), word_at)

  -- On a valid sieve `get` of an index in bounds reads its bit; of any other it panics.
  pub get-bit : (i : ℕ) → get s i ≡ (if ltb i s.len then ok (bit s i == 1) else panic)
  unfolding get
  get-bit i = elim (Bool-cases (ltb i s.len)) [
    | inl inside ↦
        rw (inside, word_at_lem i (ltb→lt i s.len inside))
          (ap ok (masked (word_or s.words (i / 64)) (i % 64)))
    | inr outside ↦ rw outside
  ]

-- What one word is replaced by, with the digits that it then has.
write : BitSieve → ℕ → ℕ → BitSieve
write s i w = record s { words = Lists.set s.words (i / 64) w }

-- What a write of one bit promises: a valid sieve of the same length in which bit `i` is `b`
-- and the others stay.
abbrev pub WritesBit : BitSieve → Outcome BitSieve → ℕ → Bool → Type 0
WritesBit s call i b =
    (s' : BitSieve) × (call ≡ ok s')
    × IsValid s'
    × (s'.len ≡ s.len)
    × ((j : ℕ) → get s' j ≡ (if i == j then ok b else get s j))

apart : (i j b d : ℕ) → (i / 64 == j / 64) ≡ false → b ≡ (if i == j then d else b)
apart i j b d h = ground arith

module _ {s : BitSieve} (v : IsValid s) where
  write-bit :
      (i j w : ℕ)
      → i < s.len
      → bit (write s i w) j ≡ (if i / 64 == j / 64 then digit w (j % 64) else bit s j)
  unfolding write
  write-bit i j w h =
      ap (λ (t : ℕ). digit t (j % 64))
        (word_or-set s.words (i / 64) (j / 64) w (rw v.sized (index_bound s.len i h)))
      ∙ ground arith

  write_lem :
      (i w : ℕ) (b : Bool)
      → i < s.len
      → w < 2 ^ 64
      → ((j : ℕ) → bit (write s i w) j ≡ (if i == j then (if b then 1 else 0) else bit s j))
      → WritesBit s (ok (write s i w)) i b
  unfolding write
  write_lem i w b h narrow bits = (write s i w, refl, valid, refl, reads)
    where
      valid : IsValid (write s i w)
      valid = record {
        sized = length-set s.words (i / 64) w ∙ v.sized;
        narrow = narrow-set s.words (i / 64) w v.narrow narrow;
        clean = λ j past. bits j ∙ ground (arith, v.clean j past);
      }

      reads : (j : ℕ) → get (write s i w) j ≡ (if i == j then ok b else get s j)
      reads j = get-bit valid j ∙ ground (arith, bits j, get-bit v j)

  -- On a valid sieve `set` of an index in bounds returns a valid sieve of the same length, in
  -- which `get` reads true there and what it read before anywhere else.
  set-WritesBit : (i : ℕ) → i < s.len → WritesBit s (set s i) i true
  unfolding set write
  set-WritesBit i h =
      rw (lt→ltb i s.len h, word_at_lem v i h)
        (write_lem i (bit_or w (2 ^ (i % 64))) true h
          (bit_or-lt 64 w (2 ^ (i % 64)) (narrow-word_or s.words (i / 64) v.narrow)
            (pow_narrow (i % 64) (omega arith)))
          (λ j. write-bit i j (bit_or w (2 ^ (i % 64))) h ∙ place j))
    where
      w : ℕ
      w = word_or s.words (i / 64)

      place :
          (j : ℕ)
          → (if i / 64 == j / 64 then digit (bit_or w (2 ^ (i % 64))) (j % 64) else bit s j)
            ≡ (if i == j then 1 else bit s j)
      place j = elim (Bool-cases (i / 64 == j / 64)) [
        | inl same ↦
            let e : i / 64 ≡ j / 64 = (==_iff (i / 64) (j / 64)).0 same in
            rw same (
              set_digit i j w e
              ∙ ap (λ (t : ℕ). if i == j then 1 else digit (word_or s.words t) (j % 64)) e)
        | inr other ↦ rw other (apart i j _ 1 other)
      ]

  -- On a valid sieve `clear` of an index in bounds returns a valid sieve of the same length, in
  -- which `get` reads false there and what it read before anywhere else.
  pub clear-WritesBit : (i : ℕ) → i < s.len → WritesBit s (clear s i) i false
  unfolding clear write
  clear-WritesBit i h =
      rw (lt→ltb i s.len h, word_at_lem v i h)
        (write_lem i (bit_and w (ones - 2 ^ (i % 64))) false h
          (Nat.lt_of_le_of_lt (bit_and-le w (ones - 2 ^ (i % 64)))
            (narrow-word_or s.words (i / 64) v.narrow))
          (λ j. write-bit i j (bit_and w (ones - 2 ^ (i % 64))) h ∙ place j))
    where
      w : ℕ
      w = word_or s.words (i / 64)

      place :
          (j : ℕ)
          → (if i / 64 == j / 64 then digit (bit_and w (ones - 2 ^ (i % 64))) (j % 64) else bit s j)
            ≡ (if i == j then 0 else bit s j)
      place j = elim (Bool-cases (i / 64 == j / 64)) [
        | inl same ↦
            let e : i / 64 ≡ j / 64 = (==_iff (i / 64) (j / 64)).0 same in
            rw same (
              clear_digit i j w e
              ∙ ap (λ (t : ℕ). if i == j then 0 else digit (word_or s.words t) (j % 64)) e)
        | inr other ↦ rw other (apart i j _ 0 other)
      ]
