-- ===== src/Tests/Files.antt =====
-- src/checkpoint.rs over a JSON library that keeps what it prints, with a constant hash.
use native.Mathlib.Decide.{ℕ_discrete}
use prime_hunter.Common.{
  ℕ, ◌<◌, Bool, true, false, Option, none, some, List, [], ◌∷◌, ◌==◌, if◌then◌else◌, length, ap,
  ◌≤◌, ◌≡◌, ◌≢◌, ◌⊎◌, refl, ◌∙◌, arith,
}
use prime_hunter.Checkpoint.{FilePath, generation_path}
use prime_hunter.Checkpoint.Format.{Checkpoint, factorial, Codec, RoundTrips}
use prime_hunter.Checkpoint.Load.{FileSystem, decode, load}
use prime_hunter.Checkpoint.Save.{Faults, save, update}
use prime_hunter.Checkpoint.Save.Recovery.{IsFresh, path-generation, update_self, update_ne}
use prime_hunter.Checkpoint.Save.Crash.{load-save, load-legacy_lost}
use prime_hunter.Checkpoint.Save.Outcome.{Succeeds, Fails, save_lem}
use prime_hunter.Checkpoint.Clear.{clear, load-clear}

-- A text is a list of numbers; only factorial checkpoints without a block are written, as
-- `[1, last_n]`, and an envelope is `0` before its data. A text that starts with 2 is a legacy one.
abbrev to_value : Checkpoint → Option (List ℕ)
to_value (factorial n none none) = some (n ∷ [])
to_value _ = none

abbrev from_value : List ℕ → Option Checkpoint
from_value (n ∷ []) = some (factorial n none none)
from_value _ = none

abbrev print_envelope : List ℕ → List ℕ → Option (List ℕ)
print_envelope [] v = some (0 ∷ v)
print_envelope (x ∷ sum) v = none

abbrev parse_envelope : List ℕ → Option (List ℕ × List ℕ)
parse_envelope [] = none
parse_envelope (k ∷ v) = if k == 0 then some ([], v) else none

abbrev parse_legacy : List ℕ → Option Checkpoint
parse_legacy (k ∷ n ∷ []) = if k == 2 then some (factorial n none none) else none
parse_legacy _ = none

abbrev json : Codec
json = record {
  Text = List ℕ;
  Value = List ℕ;
  text_discrete = hlevel ℕ_discrete;
  to_value = to_value;
  from_value = from_value;
  pretty = λ v. some v;
  sha256_hex = λ t. [];
  print_envelope = print_envelope;
  parse_envelope = parse_envelope;
  parse_legacy = parse_legacy;
}

checkpoint_back : (cp : Checkpoint) (v : List ℕ) → to_value cp ≡ some v → from_value v ≡ some cp
checkpoint_back cp v h = ground arith

envelope_back :
    (sum v t : List ℕ) → print_envelope sum v ≡ some t → parse_envelope t ≡ some (sum, v)
envelope_back sum v t h = ground arith

json-RoundTrips : RoundTrips json
json-RoundTrips = record { checkpoint_back = checkpoint_back; envelope_back = envelope_back }

abbrev path : FilePath
path = b'c' ∷ []

abbrev tmp : FilePath
tmp = b'c' ∷ b'.' ∷ b't' ∷ b'm' ∷ b'p' ∷ []

short : (gen : ℕ) → length (generation_path path gen) ≤ 3
unfolding generation_path
short gen = ground arith

tmp-IsFresh : IsFresh path tmp
tmp-IsFresh gen h e = omega (arith, short gen, ap length e)

abbrev all_read : FilePath → Bool
all_read p = true

-- Every call succeeds, or the temporary file is written in part.
abbrev none_fail : Faults json
none_fail = record { rotates = λ gen. true; write_failure = none; publishes = true }

abbrev disk_full : Faults json
disk_full = record { rotates = λ gen. true; write_failure = some (some (0 ∷ [])); publishes = true }

-- The current checkpoint, alone.
abbrev saved : FileSystem json
saved = update json (λ p. none) path (some (0 ∷ 41 ∷ []))

-- A legacy checkpoint, alone.
abbrev old : FileSystem json
old = update json (λ p. none) path (some (2 ∷ 40 ∷ []))

save_lem_example :
    (((save json disk_full path tmp (factorial 42 none none) saved).1 ≡ true)
        × Succeeds json disk_full path tmp
            (factorial 42 none none)
            saved
            (save json disk_full path tmp (factorial 42 none none) saved).0
      ⊎ ((save json disk_full path tmp (factorial 42 none none) saved).1 ≡ false)
        × Fails json disk_full path tmp
            (factorial 42 none none)
            saved
            (save json disk_full path tmp (factorial 42 none none) saved).0)
    × ((other : FilePath)
        → IsFresh path other
        → other ≢ tmp
        → (save json disk_full path tmp (factorial 42 none none) saved).0 other ≡ saved other)
save_lem_example =
    save_lem json json-RoundTrips disk_full path tmp (factorial 42 none none) saved tmp-IsFresh

saves : (save json none_fail path tmp (factorial 42 none none) saved).1 ≡ true
unfolding save prime_hunter.Checkpoint.Save.encode prime_hunter.Checkpoint.Save.publish
saves = refl

load-save_example :
    load json all_read (save json none_fail path tmp (factorial 42 none none) saved).0 path
    ≡ some (factorial 42 none none)
load-save_example =
    load-save json json-RoundTrips all_read none_fail path tmp (factorial 42 none none) saved refl
      tmp-IsFresh saves

legacy_contents : old (generation_path path 0) ≡ some (2 ∷ 40 ∷ [])
legacy_contents =
    ap old (path-generation path) ∙ update_self json (λ p. none) path (some (2 ∷ 40 ∷ []))

no_envelope : decode json (2 ∷ 40 ∷ []) ≡ none
unfolding decode
no_envelope = refl

longer : (gen : ℕ) → 0 < gen → length (generation_path path gen) ≡ 3
unfolding generation_path
longer gen h = ground arith

nothing_older : (gen : ℕ) → 0 < gen → old (generation_path path gen) ≡ none
nothing_older gen h =
    update_ne json (λ p. none) path (generation_path path gen) (some (2 ∷ 40 ∷ []))
      (λ e. omega (arith, longer gen h, ap length e))

fails : (save json disk_full path tmp (factorial 42 none none) old).1 ≡ false
unfolding save prime_hunter.Checkpoint.Save.encode prime_hunter.Checkpoint.Save.publish
fails = refl

load-legacy_lost_example :
    (load json all_read old path ≡ json.parse_legacy (2 ∷ 40 ∷ []))
    × (load json all_read (save json disk_full path tmp (factorial 42 none none) old).0 path ≡ none)
load-legacy_lost_example =
    load-legacy_lost json all_read disk_full path tmp (factorial 42 none none) old (2 ∷ 40 ∷ [])
      (λ gen h. refl) tmp-IsFresh legacy_contents no_envelope (nothing_older 1 (omega arith))
      (nothing_older 2 (omega arith)) refl fails

load-clear_example : load json all_read (clear json (λ n. true) path tmp saved) path ≡ none
load-clear_example = load-clear json all_read (λ n. true) path tmp saved (λ gen h. refl)
