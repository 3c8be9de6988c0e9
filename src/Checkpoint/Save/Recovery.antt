-- ===== src/Checkpoint/Save/Recovery.antt =====
-- What a rotation and a publication leave in the three generations, which are all that `load`
-- reads.
use mathlib.Core.Logic.{if_pos, if_neg}
use prime_hunter.Common.{
  ℕ, Bool, true, Bool-cases, inl, inr, Option, none, some, ◌≡◌, ◌≢◌, refl, sym, ap, ◌∙◌, List, [],
  ◌∷◌, ◌++◌, length, length-append, arith, ◌<◌,
}
use prime_hunter.Checkpoint.{FilePath, path_discrete, generation_path}
use prime_hunter.Checkpoint.Format.{Checkpoint, Codec}
use prime_hunter.Checkpoint.Load.{
  FileSystem, read_to_string, decode, load_single, load_legacy, load,
}
use prime_hunter.Checkpoint.Save.{update, rename}

suffix_differs : (base suffix : List ℕ) → 0 < length suffix → base ≢ base ++ suffix
suffix_differs base suffix h e = omega (arith, ap length e, length-append {0} base suffix, h)

second : List ℕ → ℕ
second (x ∷ y ∷ ys) = y
second _ = 0

rest_of : List ℕ → List ℕ
rest_of [] = []
rest_of (y ∷ ys) = ys

digits_differ : (base : List ℕ) → base ++ b'.' ∷ 49 ∷ [] ≢ base ++ b'.' ∷ 50 ∷ []
unfolding second rest_of
digits_differ [] e = omega (arith, ap second e)
digits_differ (x ∷ xs) e = digits_differ xs (ap rest_of e)

-- The temporary file is none of the generations.
abbrev pub IsFresh : FilePath → FilePath → Type 0
IsFresh path tmp = (gen : ℕ) → gen < 3 → generation_path path gen ≢ tmp

-- The three generations can be read.
abbrev pub IsReadable : (FilePath → Bool) → FilePath → Type 0
IsReadable reads path = (gen : ℕ) → gen < 3 → reads (generation_path path gen) ≡ true

module _ (path : FilePath) where
  pub zero-one : generation_path path 0 ≢ generation_path path 1
  unfolding generation_path
  zero-one = suffix_differs path _ (omega arith)

  pub zero-two : generation_path path 0 ≢ generation_path path 2
  unfolding generation_path
  zero-two = suffix_differs path _ (omega arith)

  pub one-two : generation_path path 1 ≢ generation_path path 2
  unfolding generation_path
  one-two = digits_differ path

  pub path-generation : generation_path path 0 ≡ path
  unfolding generation_path
  path-generation = refl

module _ (c : Codec) where
  -- A file's checkpoint, from what the file holds.
  unfoldable pub read : Option c.Text → Option Checkpoint
  read none = none
  read (some raw) = decode c raw

  unfoldable pub legacy : Option c.Text → Option Checkpoint
  legacy none = none
  legacy (some raw) = c.parse_legacy raw

  -- The first of four readings.
  abbrev pub ladder :
      Option Checkpoint
      → Option Checkpoint
      → Option Checkpoint
      → Option Checkpoint
      → Option Checkpoint
  ladder (some cp) y z w = some cp
  ladder none (some cp) z w = some cp
  ladder none none (some cp) w = some cp
  ladder none none none w = w

  -- The newest generation that can be read, else the legacy file.
  unfoldable pub newest : Option c.Text → Option c.Text → Option c.Text → Option Checkpoint
  newest x y z = ladder (read x) (read y) (read z) (legacy x)

  module _ (reads : FilePath → Bool) (fs : FileSystem c) where
    load_single-read :
        (p : FilePath) → load_single c reads fs p ≡ read (read_to_string c reads fs p)
    unfolding load_single read
    load_single-read p = ground arith

    load_legacy-read :
        (p : FilePath) → load_legacy c reads fs p ≡ legacy (read_to_string c reads fs p)
    unfolding load_legacy legacy
    load_legacy-read p = ground arith

    load-ladder :
        (path : FilePath)
        → load c reads fs path
          ≡ ladder
              (load_single c reads fs (generation_path path 0))
              (load_single c reads fs (generation_path path 1))
              (load_single c reads fs (generation_path path 2))
              (load_legacy c reads fs path)
    unfolding load
    load-ladder path = ground arith

    -- `load` depends on what is read of the three generations alone.
    pub load-newest :
        (path : FilePath)
        → load c reads fs path
          ≡ newest
              (read_to_string c reads fs (generation_path path 0))
              (read_to_string c reads fs (generation_path path 1))
              (read_to_string c reads fs (generation_path path 2))
    unfolding newest
    load-newest path =
        load-ladder path
        ∙ cc (
          load_single-read (generation_path path 0),
          load_single-read (generation_path path 1),
          load_single-read (generation_path path 2),
          load_legacy-read path,
          ap (read_to_string c reads fs) (path-generation path),
        )

    -- Nothing is read of a file that is not there.
    pub read_to_string-none : (p : FilePath) → fs p ≡ none → read_to_string c reads fs p ≡ none
    read_to_string-none p h = elim (Bool-cases (reads p)) [
      | inl succeeds ↦ rw succeeds h
      | inr fails ↦ rw fails refl
    ]

  pub update_self : (fs : FileSystem c) (p : FilePath) (v : Option c.Text) → update c fs p v p ≡ v
  update_self fs p v = if_pos (path_discrete p p) refl _ _

  pub update_ne :
      (fs : FileSystem c) (p q : FilePath) (v : Option c.Text) → q ≢ p → update c fs p v q ≡ fs q
  update_ne fs p q v h = if_neg (path_discrete q p) h _ _

  -- A rename moves the contents, and leaves every other file.
  pub rename_contents :
      (fs : FileSystem c) (src dst : FilePath)
      → src ≢ dst
      → (rename c fs src dst dst ≡ fs src) × (rename c fs src dst src ≡ none)
  rename_contents fs src dst h = (
    update_ne (update c fs dst (fs src)) src dst none (λ e. h (sym e))
        ∙ update_self fs dst (fs src),
    update_self (update c fs dst (fs src)) src none,
  )

  pub rename_ne :
      (fs : FileSystem c) (src dst q : FilePath) → q ≢ src → q ≢ dst → rename c fs src dst q ≡ fs q
  rename_ne fs src dst q hs hd =
      update_ne (update c fs dst (fs src)) src q none hs ∙ update_ne fs dst q (fs src) hd
