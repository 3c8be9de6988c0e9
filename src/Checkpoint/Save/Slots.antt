-- ===== src/Checkpoint/Save/Slots.antt =====
-- The contents of the three generations, and what the rotation does to them.
use prime_hunter.Common.{
  Bool, true, false, ◌&&◌, Option, none, some, if◌then◌else◌, ◌≡◌, ◌⊎◌, refl, sym, ap, ◌∙◌, arith,
  inl, inr, Bool-cases,
}
use prime_hunter.Checkpoint.{FilePath, generation_path}
use prime_hunter.Checkpoint.Format.{Checkpoint, Codec}
use prime_hunter.Checkpoint.Load.{FileSystem, read_to_string, decode, load}
use prime_hunter.Checkpoint.Save.{Faults, update, present, exists, rotate, rotate_all}
use prime_hunter.Checkpoint.Save.Recovery.{
  IsFresh, IsReadable, zero-one, zero-two, one-two, read, legacy, newest, load-newest, update_ne,
  rename_contents, rename_ne,
}

module _ (c : Codec) where
  -- The contents of the three generations.
  pub record Slots : Type 0 where
    pub newer : Option c.Text
    pub older : Option c.Text
    pub oldest : Option c.Text

  abbrev pub slots : FileSystem c → FilePath → Slots
  slots fs path = record {
    newer = fs (generation_path path 0);
    older = fs (generation_path path 1);
    oldest = fs (generation_path path 2);
  }

  -- Both rotations on the contents alone.
  abbrev pub shift_older : Bool → Slots → Slots
  shift_older r s =
      if present c s.older && r then record s { older = none; oldest = s.older } else s

  abbrev pub shift_newer : Bool → Slots → Slots
  shift_newer r s = if present c s.newer && r then record s { newer = none; older = s.newer } else s

  pub slots_ext :
      {x x' y y' z z' : Option c.Text}
      → x ≡ x'
      → y ≡ y'
      → z ≡ z'
      → ◌≡◌ {A = Slots}
          (record { newer = x; older = y; oldest = z })
          (record { newer = x'; older = y'; oldest = z' })
  slots_ext p q r = λ i. record { newer = p i; older = q i; oldest = r i }

  pub rotate-slots_two :
      (f : Faults c) (path : FilePath) (fs : FileSystem c)
      → slots (rotate c f path 2 fs) path ≡ shift_older (f.rotates 2) (slots fs path)
  unfolding rotate
  rotate-slots_two f path fs =
      elim (Bool-cases (exists c fs (generation_path path 1) && f.rotates 2)) [
        | inl moved ↦ rw moved (
            slots_ext
              (rename_ne c fs (generation_path path 1) (generation_path path 2)
                (generation_path path 0) (zero-one path) (zero-two path))
              (rename_contents c fs (generation_path path 1) (generation_path path 2)
                (one-two path)).1
              (rename_contents c fs (generation_path path 1) (generation_path path 2)
                (one-two path)).0)
        | inr kept ↦ rw kept
      ]

  pub rotate-slots_one :
      (f : Faults c) (path : FilePath) (fs : FileSystem c)
      → slots (rotate c f path 1 fs) path ≡ shift_newer (f.rotates 1) (slots fs path)
  unfolding rotate
  rotate-slots_one f path fs =
      elim (Bool-cases (exists c fs (generation_path path 0) && f.rotates 1)) [
        | inl moved ↦ rw moved (
            slots_ext
              (rename_contents c fs (generation_path path 0) (generation_path path 1)
                (zero-one path)).1
              (rename_contents c fs (generation_path path 0) (generation_path path 1)
                (zero-one path)).0
              (rename_ne c fs (generation_path path 0) (generation_path path 1)
                (generation_path path 2) (λ e. zero-two path (sym e)) (λ e. one-two path (sym e))))
        | inr kept ↦ rw kept
      ]

  abbrev pub newest_of : Slots → Option Checkpoint
  newest_of s = newest c s.newer s.older s.oldest

  -- `cp` is what a load finds, and the rotation leaves it so: it is in the current file; or the
  -- current file has none, and it is in generation 1, which is moved to 2 or is not overwritten; or
  -- it is in generation 2 alone, over which nothing is moved; or it is in a legacy file, which is not
  -- moved.
  pub data Kept (r1 r2 : Bool) (s : Slots) (cp : Checkpoint) : Type 0 where
    current : read c s.newer ≡ some cp → Kept r1 r2 s cp
    second :
        read c s.newer ≡ none
        → read c s.older ≡ some cp
        → (r2 ≡ true) ⊎ ((s.newer ≡ none) ⊎ (r1 ≡ false))
        → Kept r1 r2 s cp
    third :
        read c s.newer ≡ none
        → read c s.older ≡ none
        → read c s.oldest ≡ some cp
        → (s.older ≡ none) ⊎ (r2 ≡ false)
        → Kept r1 r2 s cp
    unmoved :
        read c s.newer ≡ none
        → read c s.older ≡ none
        → read c s.oldest ≡ none
        → legacy c s.newer ≡ some cp
        → r1 ≡ false
        → Kept r1 r2 s cp

  -- The three stages of the rotation, on the contents.
  abbrev Stages : Bool → Bool → Slots → Checkpoint → Type 0
  Stages r1 r2 s cp =
      (newest_of s ≡ some cp)
      × (newest_of (shift_older r2 s) ≡ some cp)
      × (newest_of (shift_newer r1 (shift_older r2 s)) ≡ some cp)

  kept_second :
      (r1 r2 : Bool) (s : Slots) (cp : Checkpoint)
      → read c s.newer ≡ none
      → read c s.older ≡ some cp
      → (r2 ≡ true) ⊎ ((s.newer ≡ none) ⊎ (r1 ≡ false))
      → Stages r1 r2 s cp
  unfolding read newest
  kept_second r1 r2 s cp e0 e1 (inl moved) = ground arith
  kept_second r1 r2 s cp e0 e1 (inr (inl absent)) = ground arith
  kept_second r1 r2 s cp e0 e1 (inr (inr refused)) = ground arith

  kept_third :
      (r1 r2 : Bool) (s : Slots) (cp : Checkpoint)
      → read c s.newer ≡ none
      → read c s.older ≡ none
      → read c s.oldest ≡ some cp
      → (s.older ≡ none) ⊎ (r2 ≡ false)
      → Stages r1 r2 s cp
  unfolding read newest
  kept_third r1 r2 s cp e0 e1 e2 (inl absent) = ground arith
  kept_third r1 r2 s cp e0 e1 e2 (inr refused) = ground arith

  kept_legacy :
      (r1 r2 : Bool) (s : Slots) (cp : Checkpoint)
      → read c s.newer ≡ none
      → read c s.older ≡ none
      → read c s.oldest ≡ none
      → legacy c s.newer ≡ some cp
      → r1 ≡ false
      → Stages r1 r2 s cp
  unfolding read newest
  kept_legacy r1 r2 s cp e0 e1 e2 l refused = ground arith

  kept_current :
      (r1 r2 : Bool) (s : Slots) (cp : Checkpoint) → read c s.newer ≡ some cp → Stages r1 r2 s cp
  unfolding read newest
  kept_current r1 r2 s cp e = ground arith

  pub newest_kept :
      (r1 r2 : Bool) (s : Slots) (cp : Checkpoint) → Kept r1 r2 s cp → Stages r1 r2 s cp
  newest_kept r1 r2 s cp (current e) = kept_current r1 r2 s cp e
  newest_kept r1 r2 s cp (second e0 e1 h) = kept_second r1 r2 s cp e0 e1 h
  newest_kept r1 r2 s cp (third e0 e1 e2 h) = kept_third r1 r2 s cp e0 e1 e2 h
  newest_kept r1 r2 s cp (unmoved e0 e1 e2 l h) = kept_legacy r1 r2 s cp e0 e1 e2 l h

  pub newest_lost :
      (r1 r2 : Bool) (s : Slots) (raw : c.Text)
      → s.newer ≡ some raw
      → s.older ≡ none
      → s.oldest ≡ none
      → decode c raw ≡ none
      → r1 ≡ true
      → (newest_of (shift_newer r1 (shift_older r2 s)) ≡ none) × (newest_of s ≡ c.parse_legacy raw)
  unfolding read newest legacy
  newest_lost r1 r2 s raw e0 e1 e2 d r = ground arith

  pub newest_newer :
      (s : Slots) (json : c.Text) (cp : Checkpoint)
      → s.newer ≡ some json
      → decode c json ≡ some cp
      → newest_of s ≡ some cp
  unfolding newest read
  newest_newer s json cp e d = rw (e, d)

  pub load-slots :
      (reads : FilePath → Bool) (fs : FileSystem c) (path : FilePath)
      → IsReadable reads path
      → load c reads fs path ≡ newest_of (slots fs path)
  load-slots reads fs path readable =
      load-newest c reads fs path
      ∙ rw (readable 0 (omega arith), readable 1 (omega arith), readable 2 (omega arith)) refl

  -- A current file that is read and holds a checkpoint is enough.
  pub load-newer :
      (reads : FilePath → Bool) (fs : FileSystem c) (path : FilePath) (json : c.Text)
      (cp : Checkpoint)
      → reads (generation_path path 0) ≡ true
      → fs (generation_path path 0) ≡ some json
      → decode c json ≡ some cp
      → load c reads fs path ≡ some cp
  load-newer reads fs path json cp readable e d =
      load-newest c reads fs path
      ∙ newest_newer
          (record {
            newer = read_to_string c reads fs (generation_path path 0);
            older = read_to_string c reads fs (generation_path path 1);
            oldest = read_to_string c reads fs (generation_path path 2);
          })
          json cp (rw readable e) d

  pub slots-update_tmp :
      (fs : FileSystem c) (path tmp : FilePath) (left : Option c.Text)
      → IsFresh path tmp
      → slots (update c fs tmp left) path ≡ slots fs path
  slots-update_tmp fs path tmp left fresh =
      slots_ext (update_ne c fs tmp (generation_path path 0) left (fresh 0 (omega arith)))
        (update_ne c fs tmp (generation_path path 1) left (fresh 1 (omega arith)))
        (update_ne c fs tmp (generation_path path 2) left (fresh 2 (omega arith)))

  pub slots-rotate_all :
      (f : Faults c) (path : FilePath) (fs : FileSystem c)
      → slots (rotate_all c f path fs) path
        ≡ shift_newer (f.rotates 1) (shift_older (f.rotates 2) (slots fs path))
  unfolding rotate_all
  slots-rotate_all f path fs =
      rotate-slots_one f path (rotate c f path 2 fs)
      ∙ ap (shift_newer (f.rotates 1)) (rotate-slots_two f path fs)
