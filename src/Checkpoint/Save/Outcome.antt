-- ===== src/Checkpoint/Save/Outcome.antt =====
-- What a save returns and what it leaves in each file.
use prime_hunter.Common.{
  ℕ, ◌-◌, ◌<◌, Bool, true, false, ◌&&◌, none, some, if◌then◌else◌, ◌≡◌, ◌≢◌, ◌⊎◌, refl, sym, ap,
  ◌∙◌, arith, inl, inr, Bool-cases, Option-cases,
}
use prime_hunter.Checkpoint.{FilePath, generation_path}
use prime_hunter.Checkpoint.Format.{Checkpoint, Codec, RoundTrips}
use prime_hunter.Checkpoint.Load.{FileSystem, decode}
use prime_hunter.Checkpoint.Save.Cases.{
  Refuses, WriteFails, encode-Refuses, save-none, save-some, publish_cases, decode-encode,
  published_slot,
}
use prime_hunter.Checkpoint.Save.{
  Faults, update, rename, present, exists, rotate, rotate_all, encode, save,
}
use prime_hunter.Checkpoint.Save.Slots.{
  Slots, slots, shift_older, shift_newer, slots-update_tmp, slots-rotate_all, slots_ext,
}
use prime_hunter.Checkpoint.Save.Recovery.{
  IsFresh, zero-one, zero-two, path-generation, update_ne, rename_contents, rename_ne,
}

module _ (c : Codec) where
  -- The three generations after a rotation in which the renames of 0 and 1 succeed or not: each file
  -- that is there and is renamed moves up by one, and what stood in generation 2 is replaced.
  abbrev pub rotated : Bool → Bool → Slots c → Slots c
  rotated r1 r2 s =
      let moves_newer = present c s.newer && r1 in
      let moves_older = present c s.older && r2 in
      record {
        newer = if moves_newer then none else s.newer;
        older = if moves_newer then s.newer else if moves_older then none else s.older;
        oldest = if moves_older then s.older else s.oldest;
      }

  rotated-shift :
      (r1 r2 : Bool) (s : Slots c) → shift_newer c r1 (shift_older c r2 s) ≡ rotated r1 r2 s
  rotated-shift r1 r2 s = elim (Bool-cases (present c s.newer && r1)) [
    | inl newer_moves ↦ elim (Bool-cases (present c s.older && r2)) [
      | inl older_moves ↦ rw (newer_moves, older_moves) (rw newer_moves refl)
      | inr older_stays ↦ rw (newer_moves, older_stays) (rw newer_moves refl)
    ]
    | inr newer_stays ↦ elim (Bool-cases (present c s.older && r2)) [
      | inl older_moves ↦ rw (newer_stays, older_moves) (rw newer_stays refl)
      | inr older_stays ↦ rw (newer_stays, older_stays) (rw newer_stays refl)
    ]
  ]

  rotate-other :
      (f : Faults c) (path other : FilePath) (gen : ℕ) (fs : FileSystem c)
      → other ≢ generation_path path (gen - 1)
      → other ≢ generation_path path gen
      → rotate c f path gen fs other ≡ fs other
  unfolding rotate
  rotate-other f path other gen fs src dst =
      elim (Bool-cases (exists c fs (generation_path path (gen - 1)) && f.rotates gen)) [
        | inl moved ↦ rw moved (
            rename_ne c fs (generation_path path (gen - 1)) (generation_path path gen) other src
              dst)
        | inr kept ↦ rw kept refl
      ]

  rotate_all-other :
      (f : Faults c) (path other : FilePath) (fs : FileSystem c)
      → IsFresh path other
      → rotate_all c f path fs other ≡ fs other
  unfolding rotate_all
  rotate_all-other f path other fs fresh =
      rotate-other f path other 1 (rotate c f path 2 fs) (λ e. fresh 0 (omega arith) (sym e))
        (λ e. fresh 1 (omega arith) (sym e))
      ∙ rotate-other f path other 2 fs (λ e. fresh 1 (omega arith) (sym e))
          (λ e. fresh 2 (omega arith) (sym e))

  -- What a save that returns `Ok` leaves, and what one leaves that returns an `Err`.
  pub record Succeeds (f : Faults c) (path tmp : FilePath) (cp : Checkpoint) (fs s : FileSystem c)
      : Type 0 where
    pub json : c.Text
    pub reads_back : decode c json ≡ some cp
    pub written : f.write_failure ≡ none
    pub renamed : f.publishes ≡ true
    pub contents :
        slots c s path
        ≡ record (rotated (f.rotates 1) (f.rotates 2) (slots c fs path)) { newer = some json }
    pub cleaned : s tmp ≡ none

  pub record Fails (f : Faults c) (path tmp : FilePath) (cp : Checkpoint) (fs s : FileSystem c)
      : Type 0 where
    pub reason : Refuses c cp ⊎ WriteFails c f
    pub contents : slots c s path ≡ rotated (f.rotates 1) (f.rotates 2) (slots c fs path)

  after_rotation :
      (f : Faults c) (path : FilePath) (fs : FileSystem c)
      → slots c (rotate_all c f path fs) path
        ≡ rotated (f.rotates 1) (f.rotates 2) (slots c fs path)
  after_rotation f path fs =
      slots-rotate_all c f path fs ∙ rotated-shift (f.rotates 1) (f.rotates 2) (slots c fs path)

  -- A publication replaces the current file alone.
  published-slots :
      (fs : FileSystem c) (path tmp : FilePath) (json : c.Text)
      → IsFresh path tmp
      → slots c (rename c (update c fs tmp (some json)) tmp path) path
        ≡ record (slots c fs path) { newer = some json }
  published-slots fs path tmp json fresh =
      slots_ext c (published_slot c fs path tmp json fresh)
        (kept_file 1 (omega arith) (λ e. zero-one path (sym e)))
        (kept_file 2 (omega arith) (λ e. zero-two path (sym e)))
    where
      kept_file :
          (gen : ℕ)
          → gen < 3
          → generation_path path gen ≢ generation_path path 0
          → rename c (update c fs tmp (some json)) tmp path (generation_path path gen)
            ≡ fs (generation_path path gen)
      kept_file gen h other =
          rename_ne c (update c fs tmp (some json)) tmp path (generation_path path gen)
            (fresh gen h) (λ e. other (e ∙ sym (path-generation path)))
          ∙ update_ne c fs tmp (generation_path path gen) (some json) (fresh gen h)

  tmp_gone :
      (fs : FileSystem c) (path tmp : FilePath) (json : c.Text)
      → IsFresh path tmp
      → rename c (update c fs tmp (some json)) tmp path tmp ≡ none
  tmp_gone fs path tmp json fresh =
      (rename_contents c (update c fs tmp (some json)) tmp path
        (λ e. fresh 0 (omega arith) (path-generation path ∙ sym e))).1

  -- Where the JSON library reads back what it writes and the temporary file is none of the
  -- generations: a save returns `Ok` with both the write and the last rename done, or an `Err`
  -- because serialization refuses the checkpoint or one of the two fails. In both cases the rotation
  -- has moved the current file to generation 1 and generation 1 to generation 2, each where it is
  -- there and its rename succeeds. With `Ok` the current file then holds a text that is read as the
  -- checkpoint, and the temporary file is gone. No other file changes.
  pub save_lem :
      RoundTrips c
      → (f : Faults c) (path tmp : FilePath) (cp : Checkpoint) (fs : FileSystem c)
      → IsFresh path tmp
      → (((save c f path tmp cp fs).1 ≡ true)
            × Succeeds f path tmp cp fs (save c f path tmp cp fs).0
          ⊎ ((save c f path tmp cp fs).1 ≡ false)
            × Fails f path tmp cp fs (save c f path tmp cp fs).0)
        × ((other : FilePath)
            → IsFresh path other
            → other ≢ tmp
            → (save c f path tmp cp fs).0 other ≡ fs other)
  save_lem laws f path tmp cp fs fresh = elim (Option-cases (encode c cp)) [
    | inl refused ↦ rw (save-none c f path tmp cp fs refused) (
      inr (
        refl,
        record { reason = inl (encode-Refuses c cp refused); contents = after_rotation f path fs },
      ),
      λ other apart not_tmp. rotate_all-other f path other fs apart,
    )
    | inr encoded ↦
        let (json, e) = encoded in
        let moved = rotate_all c f path fs in
        elim (publish_cases c f path tmp json moved) [
          | inl failed ↦ rw (save-some c f path tmp cp json fs e ∙ failed.2) (
            inr (
              refl,
              record {
                reason = inr failed.1;
                contents =
                    slots-update_tmp c moved path tmp failed.0 fresh ∙ after_rotation f path fs;
              },
            ),
            λ other apart not_tmp.
                update_ne c moved tmp other failed.0 not_tmp
                ∙ rotate_all-other f path other fs apart,
          )
          | inr done ↦ rw (save-some c f path tmp cp json fs e ∙ done.2) (
            inl (
              refl,
              record {
                json = json;
                reads_back = decode-encode c laws cp json e;
                written = done.0;
                renamed = done.1;
                contents =
                    published-slots moved path tmp json fresh
                    ∙ ap {A = Slots c} (λ s. record s { newer = some json })
                        (after_rotation f path fs);
                cleaned = tmp_gone moved path tmp json fresh;
              },
            ),
            λ other apart not_tmp.
                rename_ne c (update c moved tmp (some json)) tmp path other not_tmp
                  (λ h. apart 0 (omega arith) (path-generation path ∙ sym h))
                ∙ update_ne c moved tmp other (some json) not_tmp
                ∙ rotate_all-other f path other fs apart,
          )
        ]
  ]
