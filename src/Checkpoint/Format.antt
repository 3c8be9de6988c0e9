-- ===== src/Checkpoint/Format.antt =====
-- src/checkpoint.rs: the checkpoint of each search form, and what the code uses of serde_json and
-- sha2.
use prime_hunter.Common.{ℕ, Option, some, List, ◌≡◌}

-- The fields in the order of the source; a String is its bytes.
pub data Checkpoint : Type 0 where
  factorial : ℕ → Option ℕ → Option ℕ → Checkpoint
  palindromic : ℕ → List ℕ → Option ℕ → Option ℕ → Checkpoint
  kbn : ℕ → Option ℕ → Option ℕ → Checkpoint
  near_repdigit : ℕ → ℕ → ℕ → Option ℕ → Option ℕ → Checkpoint
  primorial : ℕ → Option ℕ → Option ℕ → Checkpoint
  cullen_woodall : ℕ → Option ℕ → Option ℕ → Checkpoint
  wagstaff : ℕ → Option ℕ → Option ℕ → Checkpoint
  carol_kynea : ℕ → Option ℕ → Option ℕ → Checkpoint
  twin : ℕ → Option ℕ → Option ℕ → Option ℕ → Option ℕ → Checkpoint
  sophie_germain : ℕ → Option ℕ → Option ℕ → Option ℕ → Option ℕ → Checkpoint
  repunit : ℕ → Option ℕ → Option ℕ → Option ℕ → Checkpoint
  gen_fermat : ℕ → Option ℕ → Option ℕ → Option ℕ → Checkpoint

-- serde_json and sha2: each call may fail. `Value` is a JSON value, `Text` a string.
pub record Codec : Type 1 where
  pub Text : Type 0
  pub Value : Type 0
  pub text_discrete : Discrete Text
  pub to_value : Checkpoint → Option Value
  pub from_value : Value → Option Checkpoint
  pub pretty : Value → Option Text
  pub sha256_hex : Text → Text
  pub print_envelope : Text → Value → Option Text
  pub parse_envelope : Text → Option (Text × Value)
  pub parse_legacy : Text → Option Checkpoint

-- What serde promises: reading back what was written gives the same value.
pub record RoundTrips (c : Codec) : Type 0 where
  pub checkpoint_back :
      (cp : Checkpoint) (v : c.Value) → c.to_value cp ≡ some v → c.from_value v ≡ some cp
  pub envelope_back :
      (sum : c.Text) (v : c.Value) (t : c.Text)
      → c.print_envelope sum v ≡ some t
      → c.parse_envelope t ≡ some (sum, v)
