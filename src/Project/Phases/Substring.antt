-- ===== src/Project/Phases/Substring.antt =====
-- `contains` against a division of the string.
use prime_hunter.Common.{
  Bool, true, ◌||◌, List, [], ◌∷◌, ◌++◌, ◌==◌, ==_iff, any, Some, ◌≡◌, ◌⊎◌, inl, inr, refl, ap, ◌∙◌,
  arith, Bool-cases,
}
use prime_hunter.Common.Strings.{Str}
use prime_hunter.Project.Phases.{starts_with, contains}

-- The string is some text, `part` and some text.
abbrev pub Within : Str → Str → Type 0
Within part s = (before after : Str) × (s ≡ before ++ part ++ after)

starts_with-to : (s t : Str) → starts_with s t ≡ true → (after : Str) × (s ≡ t ++ after)
starts_with-to s [] h = (s, refl)
starts_with-to [] (b ∷ t) h = absurd cc
starts_with-to (a ∷ s) (b ∷ t) h =
    let same : (a == b) ≡ true = ground (arith, h) in
    let (after, e) = starts_with-to s t (ground (arith, h)) in (after, cc ((==_iff a b).0 same, e))

starts_with-from : (t after : Str) → starts_with (t ++ after) t ≡ true
starts_with-from [] after = refl
starts_with-from (b ∷ t) after = ground (arith, starts_with-from t after)

either_true : {b c : Bool} → (b || c) ≡ true → (b ≡ true) ⊎ (c ≡ true)
either_true {b} {c} h = ground arith

contains-to : (s part : Str) → contains s part ≡ true → Within part s
contains-to [] part h = let (after, e) = starts_with-to [] part h in ([], after, e)
contains-to (a ∷ s) part h = elim (either_true h) [
  | inl here ↦ let (after, e) = starts_with-to (a ∷ s) part here in ([], after, e)
  | inr later ↦
      let (before, after, e) = contains-to s part later in (a ∷ before, after, ap (λ t. a ∷ t) e)
]

contains-here : (s part : Str) → starts_with s part ≡ true → contains s part ≡ true
contains-here [] part h = h
contains-here (a ∷ s) part h = ground (arith, h)

contains-from : (before part after : Str) → contains (before ++ part ++ after) part ≡ true
contains-from [] part after = contains-here (part ++ after) part (starts_with-from part after)
contains-from (a ∷ before) part after = ground (
  arith,
  contains-from before part after,
  Bool-cases (starts_with (a ∷ before ++ part ++ after) part),
)

-- Some string contains the part exactly when it can be divided around it.
pub any-Within-to :
    (part : Str) (types : List Str)
    → any (λ s. contains s part) types ≡ true
    → Some (Within part) types
any-Within-to part [] h = absurd cc
any-Within-to part (s ∷ types) h = elim (either_true h) [
  | inl here ↦ inl (contains-to s part here)
  | inr later ↦ inr (any-Within-to part types later)
]

pub any-Within-from :
    (part : Str) (types : List Str)
    → Some (Within part) types
    → any (λ s. contains s part) types ≡ true
any-Within-from part [] h = absurd h
any-Within-from part (s ∷ types) (inl (before, after, e)) =
    ground (arith, ap (λ t. contains t part) e ∙ contains-from before part after)
any-Within-from part (s ∷ types) (inr later) =
    ground (arith, any-Within-from part types later, Bool-cases (contains s part))
