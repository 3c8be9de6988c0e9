-- ===== src/Checkpoint/Save/Cases.antt =====
-- The cases of a save: serialization refuses, the publication fails, or it succeeds.
use prime_hunter.Common.{
  Bool, true, false, Option, none, some, ◌≡◌, ◌⊎◌, refl, sym, ap, ◌∙◌, arith, inl, inr, Bool-cases,
  Option-cases,
}
use mathlib.Core.Logic.{if_pos}
use prime_hunter.Common.Options.{>>=-eq-some}
use prime_hunter.Checkpoint.{FilePath, generation_path}
use prime_hunter.Checkpoint.Format.{Checkpoint, Codec, RoundTrips}
use prime_hunter.Checkpoint.Load.{FileSystem, decode}
use prime_hunter.Checkpoint.Save.{Faults, update, rename, rotate_all, encode, publish, save}
use prime_hunter.Checkpoint.Save.Slots.{slots, slots-update_tmp}
use prime_hunter.Checkpoint.Save.Recovery.{IsFresh, path-generation, update_self, rename_contents}

module _ (c : Codec) where
  pub clash : {b : Bool} → b ≡ false → b ≡ true → ⊥
  clash e h = cc

  pub save-none :
      (f : Faults c) (path tmp : FilePath) (cp : Checkpoint) (fs : FileSystem c)
      → encode c cp ≡ none
      → save c f path tmp cp fs ≡ (rotate_all c f path fs, false)
  unfolding save
  save-none f path tmp cp fs e = rw (e, save)

  pub save-some :
      (f : Faults c) (path tmp : FilePath) (cp : Checkpoint) (json : c.Text) (fs : FileSystem c)
      → encode c cp ≡ some json
      → save c f path tmp cp fs ≡ publish c f path tmp json (rotate_all c f path fs)
  unfolding save
  save-some f path tmp cp json fs e = rw (e, save)

  -- Serialization refuses the checkpoint, at one of its three steps.
  pub data Refuses (cp : Checkpoint) : Type 0 where
    value : c.to_value cp ≡ none → Refuses cp
    text : (v : c.Value) → c.to_value cp ≡ some v → c.pretty v ≡ none → Refuses cp
    envelope :
        (v : c.Value) (str : c.Text)
        → c.to_value cp ≡ some v
        → c.pretty v ≡ some str
        → c.print_envelope (c.sha256_hex str) v ≡ none
        → Refuses cp

  pub encode-Refuses : (cp : Checkpoint) → encode c cp ≡ none → Refuses cp
  unfolding encode
  encode-Refuses cp h = elim (Option-cases (c.to_value cp)) [
    | inl no_value ↦ value no_value
    | inr valued ↦ elim (Option-cases (c.pretty valued.0)) [
      | inl no_text ↦ text valued.0 valued.1 no_text
      | inr written ↦
          envelope valued.0 written.0 valued.1 written.1
            (sym (rw (encode, valued.1, written.1) refl) ∙ h)
    ]
  ]

  -- The write of the temporary file or the last rename fails.
  abbrev pub WriteFails : Faults c → Type 0
  WriteFails f = ((left : Option c.Text) × (f.write_failure ≡ some left)) ⊎ (f.publishes ≡ false)

  pub publish_cases :
      (f : Faults c) (path tmp : FilePath) (json : c.Text) (fs : FileSystem c)
      → ((left : Option c.Text) × WriteFails f
          × (publish c f path tmp json fs ≡ (update c fs tmp left, false)))
        ⊎ ((f.write_failure ≡ none)
            × (f.publishes ≡ true)
            × (publish c f path tmp json fs
                ≡ (rename c (update c fs tmp (some json)) tmp path, true)))
  unfolding publish
  publish_cases f path tmp json fs = elim (Option-cases f.write_failure) [
    | inl written ↦ elim (Bool-cases f.publishes) [
      | inl renamed ↦ inr (written, renamed, rw (written, renamed, publish))
      | inr refused ↦ inl (some json, inr refused, rw (written, refused, publish))
    ]
    | inr failed ↦ inl (failed.0, inl failed, rw (failed.1, publish))
  ]

  -- What was encoded is decoded to the same checkpoint, and its checksum is accepted.
  pub decode-encode :
      RoundTrips c
      → (cp : Checkpoint) (json : c.Text) → encode c cp ≡ some json
      → decode c json ≡ some cp
  unfolding encode decode
  decode-encode laws cp json h =
      let (v, ev, h1) = >>=-eq-some (c.to_value cp) _ h in
      let (str, es, h2) = >>=-eq-some (c.pretty v) _ h1 in
      rw (laws.envelope_back (c.sha256_hex str) v json h2, es)
        (if_pos (c.text_discrete (c.sha256_hex str) (c.sha256_hex str)) refl _ _
          ∙ laws.checkpoint_back cp v ev)

  -- After the last rename the current generation holds the new text.
  pub published_slot :
      (fs : FileSystem c) (path tmp : FilePath) (json : c.Text)
      → IsFresh path tmp
      → rename c (update c fs tmp (some json)) tmp path (generation_path path 0) ≡ some json
  published_slot fs path tmp json fresh = rw (path-generation path) (
      (rename_contents c (update c fs tmp (some json)) tmp path
        (λ e. fresh 0 (omega arith) (path-generation path ∙ sym e))).0
      ∙ update_self c fs tmp (some json))

  -- A save that fails leaves the generations as the rotation left them.
  pub save_failed-slots :
      (f : Faults c) (path tmp : FilePath) (cp : Checkpoint) (fs : FileSystem c)
      → IsFresh path tmp
      → (save c f path tmp cp fs).1 ≡ false
      → slots c (save c f path tmp cp fs).0 path ≡ slots c (rotate_all c f path fs) path
  save_failed-slots f path tmp cp fs fresh h = elim (Option-cases (encode c cp)) [
    | inl refused ↦ rw (save-none f path tmp cp fs refused)
    | inr encoded ↦
        let (json, e) = encoded in
        elim (publish_cases f path tmp json (rotate_all c f path fs)) [
          | inl failed ↦
              rw (save-some f path tmp cp json fs e ∙ failed.2)
                (slots-update_tmp c (rotate_all c f path fs) path tmp failed.0 fresh)
          | inr done ↦ absurd (clash h (ap (λ r. r.1) (save-some f path tmp cp json fs e ∙ done.2)))
        ]
  ]
