-- ===== src/Jobs/Blocks.antt =====
-- The work blocks of a job tile its range.
use prime_hunter.Common.{
  ℕ, zero, suc, ◌+◌, ◌≤◌, ◌<◌, ◌^◌, List, [], ◌∷◌, ltb, ltb→lt, ltb→le, lt→ltb, ok, refl, some, ◌≡◌,
  Bool-cases, arith, inl, inr,
}
use prime_hunter.Jobs.{WorkBlock, min, block_loop}

-- The blocks follow one another from `start` to `end` without a gap or an overlap; none is empty,
-- and none is longer than `size`.
pub data Tiles (size : ℕ) : ℕ → List WorkBlock → ℕ → Type 0 where
  done : {start end : ℕ} → start ≡ end → Tiles size start [] end
  block :
      {start mid end : ℕ} {blocks : List WorkBlock}
      → start < mid
      → mid ≤ start + size
      → Tiles size mid blocks end
      → Tiles size start (record { block_start = start; block_end = mid } ∷ blocks) end

step_lem :
    (fuel start range_end size : ℕ) (blocks : List WorkBlock)
    → start < range_end
    → start + size < 2 ^ 63
    → block_loop fuel (min (start + size) range_end) range_end size ≡ ok (some blocks)
    → block_loop (suc fuel) start range_end size
      ≡ ok
          (some (record { block_start = start; block_end = min (start + size) range_end } ∷ blocks))
unfolding block_loop
step_lem fuel start range_end size blocks h fit e = rw (lt→ltb _ _ h, lt→ltb _ _ fit, e) refl

min-bounds :
    (start size range_end : ℕ)
    → 0 < size
    → start < range_end
    → (start < min (start + size) range_end)
      × (min (start + size) range_end ≤ start + size)
      × (min (start + size) range_end ≤ range_end)
min-bounds start size range_end hs h = ground arith

sum_fits :
    (start range_end size : ℕ)
    → start < range_end
    → range_end + size ≤ 2 ^ 63
    → start + size < 2 ^ 63
sum_fits start range_end size h fit = omega arith

finished :
    (fuel start range_end size : ℕ)
    → range_end ≤ start
    → block_loop fuel start range_end size ≡ ok (some [])
unfolding block_loop
finished zero start range_end size h = ground arith
finished (suc fuel) start range_end size h = ground arith

-- With a positive block size, a start not above the end, and the sum of the end and the size up to
-- 2 ^ 63, no sum overflows i64, the loop ends after at most one round for each number of the range,
-- and the blocks tile it: none is empty or longer than the size.
pub block_loop-Tiles :
    (fuel start range_end size : ℕ)
    → 0 < size
    → start ≤ range_end
    → range_end ≤ start + fuel
    → range_end + size ≤ 2 ^ 63
    → (blocks : List WorkBlock) × (block_loop fuel start range_end size ≡ ok (some blocks))
      × Tiles size start blocks range_end
block_loop-Tiles zero start range_end size hs h bound fit =
    ([], finished 0 start range_end size (omega arith), done (omega arith))
block_loop-Tiles (suc fuel) start range_end size hs h bound fit =
    elim (Bool-cases (ltb start range_end)) [
      | inl more ↦
          let lt : start < range_end = ltb→lt start range_end more in
          let (longer, short, inside) = min-bounds start size range_end hs lt in
          let (blocks, e, tiles) =
            block_loop-Tiles fuel (min (start + size) range_end) range_end size hs inside
              (omega (arith, longer, bound)) fit in
          (
            _,
            step_lem fuel start range_end size blocks lt (sum_fits start range_end size lt fit) e,
            block longer short tiles,
          )
      | inr over ↦
          let le : range_end ≤ start = ltb→le start range_end over in
          ([], finished (suc fuel) start range_end size le, done (omega (arith, le)))
    ]
