-- ===== src/Project/Json.antt =====
-- What src/project uses of serde_json.
use prime_hunter.Common.{ℕ, Option, none, some, List, [], ◌∷◌, ◌≡◌, ◌≢◌, if◌then◌else◌}
use prime_hunter.Common.Strings.{Str, str_eq}

pub record Json : Type 1 where
  pub Value : Type 0
  pub of_u64 : ℕ → Value
  pub of_str : Str → Value
  -- `json!({...})`
  pub object : List (Str × Value) → Value
  pub get : Value → Str → Option Value
  pub as_u64 : Value → Option ℕ
  pub as_str : Value → Option Str
  pub as_array : Value → Option (List Value)
  -- `insert` on `as_object_mut`, which leaves a value that is no object as it is
  pub insert : Value → Str → Value → Value

-- The last field of this name.
abbrev pub last_field : {A : Type 0} → Str → List (Str × A) → Option A
last_field k [] = none
last_field k (f ∷ fs) = elim (last_field k fs) [
  | some v ↦ some v
  | none ↦ if str_eq k f.0 then some f.1 else none
]

-- The documented behaviour of `get` after `insert` on an object, which a value is when it has a key.
pub record JsonLaws (J : Json) : Type 0 where
  pub u64_back : (n : ℕ) → J.as_u64 (J.of_u64 n) ≡ some n
  pub get_object :
      (fields : List (Str × J.Value)) (k : Str) → J.get (J.object fields) k ≡ last_field k fields
  pub insert_same :
      (v : J.Value) (k : Str) (x old : J.Value) (q : Str)
      → J.get v q ≡ some old
      → J.get (J.insert v k x) k ≡ some x
  pub insert_other :
      (v : J.Value) (k k' : Str) (x : J.Value) → k' ≢ k → J.get (J.insert v k x) k' ≡ J.get v k'
