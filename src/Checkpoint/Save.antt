-- ===== src/Checkpoint/Save.antt =====
-- src/checkpoint.rs, `save`: rotation, then a temporary file that is renamed over the current one.
pub mod Recovery
pub mod Slots
pub mod Cases
pub mod Outcome
pub mod Crash
use mathlib.Core.Logic.{ite}
use prime_hunter.Common.{
  ℕ, zero, suc, ◌+◌, ◌-◌, Bool, true, false, ◌&&◌, Option, none, some, if◌then◌else◌, ◌≡◌, refl,
}
use prime_hunter.Common.Options.{◌>>=◌}
use prime_hunter.Checkpoint.{FilePath, path_discrete, generation_path}
use prime_hunter.Checkpoint.Format.{Checkpoint, Codec}
use prime_hunter.Checkpoint.Load.{FileSystem}

module _ (c : Codec) where
  open c use {Text, Value, text_discrete, to_value, pretty, sha256_hex, print_envelope}

  -- Which calls of the file system succeed: the rotation to generation `gen`, the write of the
  -- temporary file (`some left`: it fails and leaves `left` there), and the last rename.
  pub record Faults : Type 0 where
    pub rotates : ℕ → Bool
    pub write_failure : Option (Option Text)
    pub publishes : Bool

  abbrev pub update : FileSystem c → FilePath → Option Text → FileSystem c
  update fs path content q = ite (path_discrete q path) content (fs q)

  -- fs::rename of a file that exists: it replaces the destination.
  abbrev pub rename : FileSystem c → FilePath → FilePath → FileSystem c
  rename fs src dst = update (update fs dst (fs src)) src none

  abbrev pub present : Option Text → Bool
  present (some t) = true
  present none = false

  abbrev pub exists : FileSystem c → FilePath → Bool
  exists fs path = present (fs path)

  -- One round of `for gen in (1..GENERATIONS).rev()`; an error of `rename` is ignored.
  unfoldable pub rotate : Faults → FilePath → ℕ → FileSystem c → FileSystem c
  rotate f path gen fs =
      if exists fs (generation_path path (gen - 1)) && f.rotates gen
      then rename fs (generation_path path (gen - 1)) (generation_path path gen)
      else fs

  unfoldable pub rotate_all : Faults → FilePath → FileSystem c → FileSystem c
  rotate_all f path fs = rotate f path 1 (rotate f path 2 fs)

  -- The text of the envelope; serde may refuse at each step.
  unfoldable pub encode : Checkpoint → Option Text
  encode checkpoint = do
    data_value ← to_value checkpoint
    data_str ← pretty data_value
    print_envelope (sha256_hex data_str) data_value

  -- The write of the temporary file and its rename; `false` is an `Err`.
  unfoldable pub publish : Faults → FilePath → FilePath → Text → FileSystem c → FileSystem c × Bool
  publish f path tmp json fs = elim f.write_failure [
    | some left ↦ (update fs tmp left, false)
    | none ↦
        let written = update fs tmp (some json) in
        if f.publishes then (rename written tmp path, true) else (written, false)
  ]

  -- `tmp` is `path.with_extension("tmp")`.
  unfoldable pub save :
      Faults → FilePath → FilePath → Checkpoint → FileSystem c → FileSystem c × Bool
  save f path tmp checkpoint fs = elim (encode checkpoint) [
    | some json ↦ publish f path tmp json (rotate_all f path fs)
    | none ↦ (rotate_all f path fs, false)
  ]
