-- ===== src/Tests/Objects.antt =====
-- JSON values of numbers, strings, arrays and objects, for the tests of src/project.
use prime_hunter.Common.{
  ℕ, Option, none, some, List, [], ◌∷◌, if◌then◌else◌, ◌≡◌, ◌≢◌, refl, Bool-cases, inl, inr,
}
use prime_hunter.Common.Strings.{Str, str_eq, str_eq→eq, str_eq_self}
use prime_hunter.Project.Json.{Json, JsonLaws, last_field}

mutual
  pub data Value : Type 0 where
    number : ℕ → Value
    string : Str → Value
    array : Items → Value
    fields : Fields → Value

  pub data Items : Type 0 where
    no_items : Items
    item : Value → Items → Items

  pub data Fields : Type 0 where
    no_fields : Fields
    field_ : Str → Value → Fields → Fields

abbrev lookup : Str → Fields → Option Value
lookup k no_fields = none
lookup k (field_ key v fs) = elim (lookup k fs) [
  | some found ↦ some found
  | none ↦ if str_eq k key then some v else none
]

abbrev of_list : List (Str × Value) → Fields
of_list [] = no_fields
of_list (f ∷ fs) = field_ f.0 f.1 (of_list fs)

abbrev append : Fields → Str → Value → Fields
append no_fields k x = field_ k x no_fields
append (field_ key v fs) k x = field_ key v (append fs k x)

abbrev list_of : Items → List Value
list_of no_items = []
list_of (item v vs) = v ∷ list_of vs

abbrev get : Value → Str → Option Value
get (fields fs) k = lookup k fs
get (number n) k = none
get (string s) k = none
get (array vs) k = none

abbrev insert : Value → Str → Value → Value
insert (fields fs) k x = fields (append fs k x)
insert (number n) k x = number n
insert (string s) k x = string s
insert (array vs) k x = array vs

abbrev as_u64 : Value → Option ℕ
as_u64 (number n) = some n
as_u64 (string s) = none
as_u64 (array vs) = none
as_u64 (fields fs) = none

abbrev as_str : Value → Option Str
as_str (string s) = some s
as_str (number n) = none
as_str (array vs) = none
as_str (fields fs) = none

abbrev as_array : Value → Option (List Value)
as_array (array vs) = some (list_of vs)
as_array (number n) = none
as_array (string s) = none
as_array (fields fs) = none

abbrev pub json : Json
json = record {
  Value = Value;
  of_u64 = number;
  of_str = string;
  object = λ fs. fields (of_list fs);
  get = get;
  as_u64 = as_u64;
  as_str = as_str;
  as_array = as_array;
  insert = insert;
}

lookup-append_same : (fs : Fields) (k : Str) (x : Value) → lookup k (append fs k x) ≡ some x
lookup-append_same no_fields k x = rw (str_eq_self k) refl
lookup-append_same (field_ key v fs) k x = rw (lookup-append_same fs k x) refl

lookup-append_other :
    (fs : Fields) (k k' : Str) (x : Value) → k' ≢ k → lookup k' (append fs k x) ≡ lookup k' fs
lookup-append_other no_fields k k' x h = elim (Bool-cases (str_eq k' k)) [
  | inl same ↦ absurd (h (str_eq→eq k' k same))
  | inr apart ↦ rw apart refl
]
lookup-append_other (field_ key v fs) k k' x h = rw (lookup-append_other fs k k' x h) refl

lookup-of_list : (fs : List (Str × Value)) (k : Str) → lookup k (of_list fs) ≡ last_field k fs
lookup-of_list [] k = refl
lookup-of_list (f ∷ fs) k = rw (lookup-of_list fs k) refl

insert_same :
    (v : Value) (k : Str) (x old : Value) (q : Str)
    → get v q ≡ some old
    → get (insert v k x) k ≡ some x
insert_same (fields fs) k x old q h = lookup-append_same fs k x
insert_same (number n) k x old q h = absurd cc
insert_same (string s) k x old q h = absurd cc
insert_same (array vs) k x old q h = absurd cc

insert_other : (v : Value) (k k' : Str) (x : Value) → k' ≢ k → get (insert v k x) k' ≡ get v k'
insert_other (fields fs) k k' x h = lookup-append_other fs k k' x h
insert_other (number n) k k' x h = refl
insert_other (string s) k k' x h = refl
insert_other (array vs) k k' x h = refl

pub json-laws : JsonLaws json
json-laws = record {
  u64_back = λ n. refl;
  get_object = lookup-of_list;
  insert_same = insert_same;
  insert_other = insert_other;
}
