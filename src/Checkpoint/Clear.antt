-- ===== src/Checkpoint/Clear.antt =====
-- src/checkpoint.rs, `clear`.
use mathlib.Core.Logic.{if_pos, if_neg}
use prime_hunter.Common.{
  ℕ, Bool, true, false, Option, none, if◌then◌else◌, ◌≡◌, refl, ◌∙◌, ◌<◌, arith,
}
use prime_hunter.Checkpoint.{FilePath, path_discrete, generation_path}
use prime_hunter.Checkpoint.Format.{Codec}
use prime_hunter.Checkpoint.Load.{FileSystem, load}
use prime_hunter.Checkpoint.Save.{update}
use prime_hunter.Checkpoint.Save.Recovery.{
  newest, load-newest, read_to_string-none, update_self, read, legacy,
}

module _ (c : Codec) where
  -- `let _ = fs::remove_file(path)`: `removes` says whether it succeeds.
  abbrev pub remove : Bool → FilePath → FileSystem c → FileSystem c
  remove removes path fs = if removes then update c fs path none else fs

  -- The three generations, then the temporary file; `removes` is by the number of the call.
  unfoldable pub clear : (ℕ → Bool) → FilePath → FilePath → FileSystem c → FileSystem c
  clear removes path tmp fs = remove (removes 3) tmp (
      remove (removes 2) (generation_path path 2) (
        remove (removes 1) (generation_path path 1)
          (remove (removes 0) (generation_path path 0) fs)))

  remove-none :
      (removes : Bool) (fs : FileSystem c) (p q : FilePath)
      → fs q ≡ none
      → remove removes p fs q ≡ none
  remove-none true fs p q h = elim (path_discrete q p) [
    | yes e ↦ if_pos (path_discrete q p) e _ _
    | no ne ↦ if_neg (path_discrete q p) ne _ _ ∙ h
  ]
  remove-none false fs p q h = h

  remove_self :
      (removes : Bool) (fs : FileSystem c) (p : FilePath)
      → removes ≡ true
      → remove removes p fs p ≡ none
  remove_self removes fs p h = rw h (update_self c fs p none)

  newest-none : (x y z : Option c.Text) → x ≡ none → y ≡ none → z ≡ none → newest c x y z ≡ none
  unfolding newest read legacy
  newest-none x y z p q r = rw (p, q, r) refl

  -- When no removal of a generation fails, nothing is loaded after `clear`, whatever the files held,
  -- whether or not the temporary file could be removed, and whichever files can be read.
  pub load-clear :
      (reads : FilePath → Bool) (removes : ℕ → Bool) (path tmp : FilePath) (fs : FileSystem c)
      → ((gen : ℕ) → gen < 3 → removes gen ≡ true)
      → load c reads (clear removes path tmp fs) path ≡ none
  unfolding clear
  load-clear reads removes path tmp fs h =
      let fs0 = remove (removes 0) (generation_path path 0) fs in
      let fs1 = remove (removes 1) (generation_path path 1) fs0 in
      let fs2 = remove (removes 2) (generation_path path 2) fs1 in
      let left = remove (removes 3) tmp fs2 in
      load-newest c reads left path
      ∙ newest-none _ _ _
          (read_to_string-none c reads left _ (
            remove-none (removes 3) fs2 tmp _ (
              remove-none (removes 2) fs1 (generation_path path 2) _ (
                remove-none (removes 1) fs0 (generation_path path 1) _
                  (remove_self (removes 0) fs (generation_path path 0) (h 0 (omega arith)))))))
          (read_to_string-none c reads left _ (
            remove-none (removes 3) fs2 tmp _ (
              remove-none (removes 2) fs1 (generation_path path 2) _
                (remove_self (removes 1) fs0 (generation_path path 1) (h 1 (omega arith))))))
          (read_to_string-none c reads left _ (
            remove-none (removes 3) fs2 tmp _
              (remove_self (removes 2) fs1 (generation_path path 2) (h 2 (omega arith)))))
