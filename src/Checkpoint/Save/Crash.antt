-- ===== src/Checkpoint/Save/Crash.antt =====
-- Where a save may stop, and what a load finds after it.
use prime_hunter.Common.{
  Bool, true, false, Option, none, some, ◌≡◌, ap, ◌∙◌, inl, inr, Option-cases,
}
use prime_hunter.Checkpoint.{FilePath, generation_path}
use prime_hunter.Checkpoint.Format.{Checkpoint, Codec, RoundTrips}
use prime_hunter.Checkpoint.Load.{FileSystem, decode, load}
use prime_hunter.Checkpoint.Save.{Faults, update, rename, rotate, rotate_all, encode, save}
use prime_hunter.Checkpoint.Save.Cases.{
  clash, save-none, save-some, publish_cases, decode-encode, published_slot, save_failed-slots,
}
use prime_hunter.Checkpoint.Save.Slots.{
  slots, newest_of, newest_lost, load-slots, load-newer, slots-rotate_all,
}
use prime_hunter.Checkpoint.Save.Recovery.{IsFresh, IsReadable}

module _ (c : Codec) where
  -- Where a save may stop: before it, within the rotation, with anything in the temporary file, or
  -- after the last rename.
  pub data Interrupted (f : Faults c) (path tmp : FilePath) (cp : Checkpoint) (fs s : FileSystem c)
      : Type 0 where
    before : s ≡ fs → Interrupted f path tmp cp fs s
    rotating : s ≡ rotate c f path 2 fs → Interrupted f path tmp cp fs s
    writing :
        (left : Option c.Text)
        → s ≡ update c (rotate_all c f path fs) tmp left
        → Interrupted f path tmp cp fs s
    rotated : s ≡ rotate_all c f path fs → Interrupted f path tmp cp fs s
    published :
        (json : c.Text)
        → encode c cp ≡ some json
        → s ≡ rename c (update c (rotate_all c f path fs) tmp (some json)) tmp path
        → Interrupted f path tmp cp fs s

  -- A save, whatever calls fail, leaves the files as they are at one of the points of
  -- `Interrupted`.
  pub save-Interrupted :
      (f : Faults c) (path tmp : FilePath) (cp : Checkpoint) (fs : FileSystem c)
      → Interrupted f path tmp cp fs (save c f path tmp cp fs).0
  save-Interrupted f path tmp cp fs = elim (Option-cases (encode c cp)) [
    | inl refused ↦ rotated (ap (λ r. r.0) (save-none c f path tmp cp fs refused))
    | inr encoded ↦
        let (json, e) = encoded in
        elim (publish_cases c f path tmp json (rotate_all c f path fs)) [
          | inl failed ↦
              writing failed.0 (ap (λ r. r.0) (save-some c f path tmp cp json fs e ∙ failed.2))
          | inr done ↦
              published json e (ap (λ r. r.0) (save-some c f path tmp cp json fs e ∙ done.2))
        ]
  ]

  load_published :
      RoundTrips c
      → (reads : FilePath → Bool) (fs : FileSystem c) (path tmp : FilePath) (cp : Checkpoint)
        (json : c.Text)
      → reads (generation_path path 0) ≡ true
      → IsFresh path tmp
      → encode c cp ≡ some json
      → load c reads (rename c (update c fs tmp (some json)) tmp path) path ≡ some cp
  load_published laws reads fs path tmp cp json readable fresh e =
      load-newer c reads _ path json cp readable (published_slot c fs path tmp json fresh)
        (decode-encode c laws cp json e)

  -- Where the JSON library reads back what it writes and the temporary file is none of the
  -- generations, a save that returns `Ok` is what the next load that can read the current file
  -- returns, whichever renames of the rotation failed.
  pub load-save :
      RoundTrips c
      → (reads : FilePath → Bool) (f : Faults c) (path tmp : FilePath) (cp : Checkpoint)
        (fs : FileSystem c)
      → reads (generation_path path 0) ≡ true
      → IsFresh path tmp
      → (save c f path tmp cp fs).1 ≡ true
      → load c reads (save c f path tmp cp fs).0 path ≡ some cp
  load-save laws reads f path tmp cp fs readable fresh h = elim (Option-cases (encode c cp)) [
    | inl refused ↦ absurd (clash c (ap (λ r. r.1) (save-none c f path tmp cp fs refused)) h)
    | inr encoded ↦
        let (json, e) = encoded in
        elim (publish_cases c f path tmp json (rotate_all c f path fs)) [
          | inl failed ↦
              absurd (clash c (ap (λ r. r.1) (save-some c f path tmp cp json fs e ∙ failed.2)) h)
          | inr done ↦
              rw (save-some c f path tmp cp json fs e ∙ done.2) (
                load_published laws reads (rotate_all c f path fs) path tmp cp json readable fresh
                  e)
        ]
  ]

  -- Where the generations can be read, the temporary file is none of them, the current file has no
  -- envelope and there is no older generation, a load reads the file as a legacy one; but nothing is loaded
  -- after a save that renamed it and then failed.
  pub load-legacy_lost :
      (reads : FilePath → Bool) (f : Faults c) (path tmp : FilePath) (cp : Checkpoint)
      (fs : FileSystem c) (raw : c.Text)
      → IsReadable reads path
      → IsFresh path tmp
      → fs (generation_path path 0) ≡ some raw
      → decode c raw ≡ none
      → fs (generation_path path 1) ≡ none
      → fs (generation_path path 2) ≡ none
      → f.rotates 1 ≡ true
      → (save c f path tmp cp fs).1 ≡ false
      → (load c reads fs path ≡ c.parse_legacy raw)
        × (load c reads (save c f path tmp cp fs).0 path ≡ none)
  load-legacy_lost reads f path tmp cp fs raw readable fresh e0 d e1 e2 r h =
      let (lost, found) =
        newest_lost c (f.rotates 1) (f.rotates 2) (slots c fs path) raw e0 e1 e2 d r in
      (
        load-slots c reads fs path readable ∙ found,
        load-slots c reads (save c f path tmp cp fs).0 path readable
            ∙ ap (newest_of c)
                (save_failed-slots c f path tmp cp fs fresh h ∙ slots-rotate_all c f path fs)
            ∙ lost,
      )
