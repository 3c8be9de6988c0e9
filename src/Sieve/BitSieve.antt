-- ===== src/Sieve/BitSieve.antt =====
-- src/sieve.rs, `BitSieve`: a packed array of bits in 64-bit words. Bit `i` stands in word
-- `i / 64` at position `i % 64`; a set bit is a candidate that survives.
pub mod Words
pub mod Access
pub mod Iter
use Prim.Native.Nat.{bit_and, bit_or}
use prime_hunter.Common.Lists
use prime_hunter.Common.{
  ℕ, zero, suc, ◌+◌, ◌-◌, ◌*◌, ◌/◌, ◌%◌, ◌^◌, Bool, true, false, not, ◌&&◌, Option, none, some,
  List, [], ◌∷◌, ◌++◌, Outcome, ok, panic, ◌>>=◌, ◌>>◌, assert, ◌==◌, ltb, if◌then◌else◌,
}

pub record BitSieve : Type 0 where
  pub words : List ℕ
  pub len : ℕ

-- u64::MAX.
abbrev pub ones : ℕ
ones = 2 ^ 64 - 1

abbrev pub num_words : ℕ → ℕ
num_words len = (len + 63) / 64

-- `words[i]`: an index out of bounds panics.
abbrev pub word_at : List ℕ → ℕ → Outcome ℕ
word_at words i = elim (Lists.get_elem? words i) [ none ↦ panic | some w ↦ ok w ]

-- `words[num_words - 1] >>= extra`.
pub shift_last : ℕ → List ℕ → List ℕ
shift_last extra [] = []
shift_last extra (w ∷ []) = w / 2 ^ extra ∷ []
shift_last extra (w ∷ v ∷ ws) = w ∷ shift_last extra (v ∷ ws)

unfoldable pub new_all_set : ℕ → BitSieve
new_all_set len =
    let n = num_words len in
    let words = Lists.replicate n ones in
    let extra = n * 64 - len in
    record { words = if ltb 0 extra && ltb 0 n then shift_last extra words else words; len = len }

unfoldable pub new_all_clear : ℕ → BitSieve
new_all_clear len = record { words = Lists.replicate (num_words len) 0; len = len }

unfoldable pub is_empty : BitSieve → Bool
is_empty s = s.len == 0

unfoldable pub get : BitSieve → ℕ → Outcome Bool
get s index = do
  assert (ltb index s.len)
  word ← word_at s.words (index / 64)
  ok (not (bit_and word (2 ^ (index % 64)) == 0))

unfoldable pub set : BitSieve → ℕ → Outcome BitSieve
set s index = do
  assert (ltb index s.len)
  word ← word_at s.words (index / 64)
  ok (record s { words = Lists.set s.words (index / 64) (bit_or word (2 ^ (index % 64))) })

unfoldable pub clear : BitSieve → ℕ → Outcome BitSieve
clear s index = do
  assert (ltb index s.len)
  word ← word_at s.words (index / 64)
  ok (record s { words = Lists.set s.words (index / 64) (bit_and word (ones - 2 ^ (index % 64))) })

-- `u64::count_ones` and `u64::trailing_zeros`, on the digits, lowest first.
pub popcount : ℕ → ℕ → ℕ
popcount zero w = 0
popcount (suc bits) w = w % 2 + popcount bits (w / 2)

pub trailing_zeros : ℕ → ℕ → ℕ
trailing_zeros zero w = 0
trailing_zeros (suc bits) w =
    let rest = trailing_zeros bits (w / 2) in if w % 2 == 1 then 0 else suc rest

pub sum_ones : List ℕ → ℕ
sum_ones [] = 0
sum_ones (w ∷ ws) = popcount 64 w + sum_ones ws

unfoldable pub count_ones : BitSieve → ℕ
count_ones s = sum_ones s.words

-- `BitIter::next`: the index of the lowest set bit, and the word without it.
unfoldable pub next : ℕ → ℕ → Option (ℕ × ℕ)
next base word =
    if word == 0 then none else some (base + trailing_zeros 64 word, bit_and word (word - 1))

-- What the iterator yields: a word has at most 64 set bits.
pub drain : ℕ → ℕ → ℕ → List ℕ
drain zero base word = []
drain (suc fuel) base word = elim (next base word) [
  | none ↦ []
  | some (i, word') ↦ i ∷ drain fuel base word'
]

-- `words.iter().enumerate().flat_map`, from word `wi` on.
pub drain_words : ℕ → List ℕ → List ℕ
drain_words wi [] = []
drain_words wi (w ∷ ws) = drain 64 (wi * 64) w ++ drain_words (suc wi) ws

unfoldable pub iter_set_bits : BitSieve → List ℕ
iter_set_bits s = drain_words 0 s.words
