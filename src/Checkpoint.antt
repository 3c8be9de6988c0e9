-- ===== src/Checkpoint.antt =====
-- src/checkpoint.rs: checkpoints with a checksum in rotating generations, written through a
-- temporary file. The JSON and hash libraries are a parameter, `Codec`; the file system is a map
-- from paths to contents, and `Faults` says which of its calls fail.
pub mod Format
pub mod Load
pub mod Save
pub mod Clear
use prime_hunter.Checkpoint.Format.{Checkpoint, Codec}
use prime_hunter.Common.{
  ℕ, zero, suc, ◌+◌, Bool, true, false, ◌&&◌, Option, none, some, List, [], ◌∷◌, ◌++◌, ◌==◌,
  if◌then◌else◌,
}
use mathlib.Core.Logic.{ite}
use native.Mathlib.Decide.{ℕ_discrete}

-- A path as its bytes.
abbrev pub FilePath : Type 0
FilePath = List ℕ

pub path_discrete : Discrete FilePath
path_discrete = hlevel ℕ_discrete

-- GENERATIONS.
abbrev pub generations : ℕ
generations = 3

-- `base`, `base.1`, `base.2`: the generation is one digit.
unfoldable pub generation_path : FilePath → ℕ → FilePath
generation_path base gen = if gen == 0 then base else base ++ b'.' ∷ (48 + gen) ∷ []
