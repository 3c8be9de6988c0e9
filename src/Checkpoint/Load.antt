-- ===== src/Checkpoint/Load.antt =====
-- src/checkpoint.rs, `load_single` and `load`.
use mathlib.Core.Logic.{ite}
use prime_hunter.Common.{ℕ, zero, suc, ◌+◌, Option, none, some, Bool, if◌then◌else◌}
use prime_hunter.Common.Options.{◌>>=◌}
use prime_hunter.Checkpoint.{FilePath, generation_path}
use prime_hunter.Checkpoint.Format.{Checkpoint, Codec}

module _ (c : Codec) where
  open c use {
    Text, Value, text_discrete, from_value, pretty, sha256_hex, parse_envelope, parse_legacy,
  }

  -- The files that exist, with their contents.
  abbrev pub FileSystem : Type 0
  FileSystem = FilePath → Option Text

  -- fs::read_to_string: `reads` says for each path whether the call succeeds on a file that exists.
  abbrev pub read_to_string : (FilePath → Bool) → FileSystem → FilePath → Option Text
  read_to_string reads fs path = if reads path then fs path else none

  -- The contents are parsed, and the data is read only if its hash is the recorded checksum.
  unfoldable pub decode : Text → Option Checkpoint
  decode raw = do
    envelope ← parse_envelope raw
    data_str ← pretty envelope.1
    ite (text_discrete (sha256_hex data_str) envelope.0) (from_value envelope.1) none

  unfoldable pub load_single : (FilePath → Bool) → FileSystem → FilePath → Option Checkpoint
  load_single reads fs path = do raw ← read_to_string reads fs path; decode raw

  unfoldable pub load_legacy : (FilePath → Bool) → FileSystem → FilePath → Option Checkpoint
  load_legacy reads fs path = do raw ← read_to_string reads fs path; parse_legacy raw

  -- `for gen in 0..GENERATIONS`, from `gen` with `left` generations to go; then the legacy file.
  pub load_from : ℕ → ℕ → (FilePath → Bool) → FileSystem → FilePath → Option Checkpoint
  load_from zero gen reads fs path = load_legacy reads fs path
  load_from (suc left) gen reads fs path = elim (load_single reads fs (generation_path path gen)) [
    | some cp ↦ some cp
    | none ↦ load_from left (gen + 1) reads fs path
  ]

  unfoldable pub load : (FilePath → Bool) → FileSystem → FilePath → Option Checkpoint
  unfolding load_from
  load reads fs path = load_from 3 0 reads fs path
