-- ===== src/Project/Phases/Range.antt =====
-- The range that `generate_followup_phase` writes into the parameters of a phase is read back.
use prime_hunter.Common.{
  ℕ, ◌<◌, Bool, true, false, not, ◌&&◌, Option, none, some, List, [], ◌∷◌, all, All, map, ◌≡◌, ◌≢◌,
  inl, inr, refl, sym, ap, ◌∙◌, arith, Bool-cases, Option-cases,
}
use prime_hunter.Common.Strings.{Str, str_eq, str_eq_self}
use prime_hunter.Project.Json.{Json, JsonLaws}
use prime_hunter.Project.Phases.{
  is_some, and_then, unwrap_or, first_key, update_range, range_keys, start_keys, end_keys,
  extract_range_from_params,
}

-- `q` is no key of the pairs.
abbrev apart : Str → List (Str × Str) → Bool
apart q keys = all (λ k. not (str_eq q k.0) && not (str_eq q k.1)) keys

abbrev distinct : List (Str × Str) → Bool
distinct [] = true
distinct (k ∷ ks) = not (str_eq k.0 k.1) && (apart k.0 ks && (apart k.1 ks && distinct ks))

split_and : (b c : Bool) → (b && c) ≡ true → (b ≡ true) × (c ≡ true)
split_and b c h = ground arith

differs : (s t : Str) → not (str_eq s t) ≡ true → s ≢ t
differs s t h e = clash (str_eq s t) (ap (λ u. str_eq s u) (sym e) ∙ str_eq_self s) h
  where
    clash : (b : Bool) → b ≡ true → not b ≡ true → ⊥
    clash b e h = ground arith

is_some-none : {A : Type 0} (o : Option A) → is_some o ≡ false → o ≡ none
is_some-none none h = refl
is_some-none (some a) h = absurd cc

is_some-some : {A : Type 0} (o : Option A) → is_some o ≡ true → (a : A) × (o ≡ some a)
is_some-some none h = absurd cc
is_some-some (some a) h = (a, refl)

module _ (J : Json) where
  -- Each start key is there exactly when its end key is.
  abbrev pub Paired : List (Str × Str) → J.Value → Type 0
  Paired keys v = All (λ k. is_some (J.get v k.0) ≡ is_some (J.get v k.1)) keys

module _ (J : Json) (laws : JsonLaws J) (new_start new_end : ℕ) where
  -- A key that is none of the range keys keeps its value.
  get-update_range :
      (keys : List (Str × Str)) (v : J.Value) (q : Str)
      → apart q keys ≡ true
      → J.get (update_range J keys new_start new_end v) q ≡ J.get v q
  unfolding update_range
  get-update_range [] v q h = refl
  get-update_range (k ∷ ks) v q h =
      let (here, rest) = split_and (not (str_eq q k.0) && not (str_eq q k.1)) (apart q ks) h in
      let (first, second) = split_and (not (str_eq q k.0)) (not (str_eq q k.1)) here in
      elim (Bool-cases (is_some (J.get v k.0))) [
        | inl present ↦ rw present (
            laws.insert_other (J.insert v k.0 (J.of_u64 new_start)) k.1 q (J.of_u64 new_end)
              (differs q k.1 second)
            ∙ laws.insert_other v k.0 q (J.of_u64 new_start) (differs q k.0 first))
        | inr absent ↦ rw absent (get-update_range ks v q rest)
      ]

  first_key-cons_none :
      (v : J.Value) (k : Str) (ks : List Str)
      → J.get v k ≡ none
      → first_key J v (k ∷ ks) ≡ first_key J v ks
  unfolding first_key
  first_key-cons_none v k ks h = rw h

  first_key-cons_some :
      (v x : J.Value) (k : Str) (ks : List Str)
      → J.get v k ≡ some x
      → first_key J v (k ∷ ks) ≡ some x
  unfolding first_key
  first_key-cons_some v x k ks h = rw h

  update_range-present :
      (k : Str × Str) (ks : List (Str × Str)) (v : J.Value)
      → is_some (J.get v k.0) ≡ true
      → update_range J (k ∷ ks) new_start new_end v
        ≡ J.insert (J.insert v k.0 (J.of_u64 new_start)) k.1 (J.of_u64 new_end)
  unfolding update_range
  update_range-present k ks v h = rw h

  update_range-absent :
      (k : Str × Str) (ks : List (Str × Str)) (v : J.Value)
      → is_some (J.get v k.0) ≡ false
      → update_range J (k ∷ ks) new_start new_end v ≡ update_range J ks new_start new_end v
  unfolding update_range
  update_range-absent k ks v h = rw h

  -- Both keys of a pair that is there are read back.
  inserted_pair :
      (k : Str × Str) (v : J.Value)
      → k.0 ≢ k.1
      → is_some (J.get v k.0) ≡ true
      → (J.get (J.insert (J.insert v k.0 (J.of_u64 new_start)) k.1 (J.of_u64 new_end)) k.0
          ≡ some (J.of_u64 new_start))
        × (J.get (J.insert (J.insert v k.0 (J.of_u64 new_start)) k.1 (J.of_u64 new_end)) k.1
            ≡ some (J.of_u64 new_end))
  inserted_pair k v apart_ends h =
      let (old, e) = is_some-some (J.get v k.0) h in
      let start_back = laws.insert_same v k.0 (J.of_u64 new_start) old k.0 e in
      let started = J.insert v k.0 (J.of_u64 new_start) in
      (
        laws.insert_other started k.1 k.0 (J.of_u64 new_end) apart_ends ∙ start_back,
        laws.insert_same started k.1 (J.of_u64 new_end) (J.of_u64 new_start) k.0 start_back,
      )

  abbrev starts : List (Str × Str) → List Str
  starts keys = map (λ k. k.0) keys

  abbrev ends : List (Str × Str) → List Str
  ends keys = map (λ k. k.1) keys

  no_key : (v : J.Value) → first_key J v [] ≡ none
  unfolding first_key
  no_key v = refl

  -- With a start key there, both ends of the range are read back as they were written.
  first_key-update_range :
      (keys : List (Str × Str)) (v : J.Value)
      → distinct keys ≡ true
      → Paired J keys v
      → is_some (first_key J v (starts keys)) ≡ true
      → (first_key J (update_range J keys new_start new_end v) (starts keys)
          ≡ some (J.of_u64 new_start))
        × (first_key J (update_range J keys new_start new_end v) (ends keys)
            ≡ some (J.of_u64 new_end))
  first_key-update_range [] v d paired h = absurd (clash (sym (ap is_some (no_key v)) ∙ h))
    where
      clash : false ≡ true → ⊥
      clash e = cc
  first_key-update_range (k ∷ ks) v d (pair, paired) h =
      let (ends_differ, d1) = split_and (not (str_eq k.0 k.1)) _ d in
      let (start_apart, d2) = split_and (apart k.0 ks) _ d1 in
      let (end_apart, d3) = split_and (apart k.1 ks) (distinct ks) d2 in
      elim (Bool-cases (is_some (J.get v k.0))) [
        | inl present ↦
            let (start_back, end_back) = inserted_pair k v (differs k.0 k.1 ends_differ) present in
            rw (update_range-present k ks v present) (
              first_key-cons_some _ _ k.0 (starts ks) start_back,
              first_key-cons_some _ _ k.1 (ends ks) end_back,
            )
        | inr absent ↦
            let no_start = is_some-none (J.get v k.0) absent in
            let no_end = is_some-none (J.get v k.1) (sym pair ∙ absent) in
            let (start_back, end_back) =
              first_key-update_range ks v d3 paired
                (ap is_some (sym (first_key-cons_none v k.0 (starts ks) no_start)) ∙ h) in
            rw (update_range-absent k ks v absent) (
              first_key-cons_none _ k.0 (starts ks)
                    (get-update_range ks v k.0 start_apart ∙ no_start)
                  ∙ start_back,
              first_key-cons_none _ k.1 (ends ks) (get-update_range ks v k.1 end_apart ∙ no_end)
                  ∙ end_back,
            )
      ]

  -- Without a start key there is no end key.
  first_key-Paired :
      (keys : List (Str × Str)) (v : J.Value)
      → Paired J keys v
      → is_some (first_key J v (starts keys)) ≡ false
      → first_key J v (ends keys) ≡ none
  first_key-Paired [] v paired h = no_key v
  first_key-Paired (k ∷ ks) v (pair, paired) h = elim (Option-cases (J.get v k.0)) [
    | inl no_start ↦
        first_key-cons_none v k.1 (ends ks) (is_some-none _ (sym pair ∙ ap is_some no_start))
        ∙ first_key-Paired ks v paired
            (ap is_some (sym (first_key-cons_none v k.0 (starts ks) no_start)) ∙ h)
    | inr there ↦
        absurd
          (clash (sym (ap is_some (first_key-cons_some v there.0 k.0 (starts ks) there.1)) ∙ h))
  ]
    where
      clash : true ≡ false → ⊥
      clash e = cc

  -- The range that is read back after the update of a value with a range.
  pub extract-update_range :
      (v : J.Value)
      → Paired J range_keys v
      → (extract_range_from_params J v).0 < (extract_range_from_params J v).1
      → extract_range_from_params J (update_range J range_keys new_start new_end v)
        ≡ (new_start, new_end)
  unfolding extract_range_from_params
  extract-update_range v paired h = elim (Bool-cases (is_some (first_key J v start_keys))) [
    | inl present ↦
        let (start_back, end_back) = first_key-update_range range_keys v refl paired present in
        rw (start_back, end_back, laws.u64_back new_start, laws.u64_back new_end) refl
    | inr absent ↦
        let no_start = is_some-none (first_key J v start_keys) absent in
        let no_end = first_key-Paired range_keys v paired absent in
        absurd (omega (arith, empty_range v no_start no_end, h))
  ]
    where
      empty_range :
          (w : J.Value)
          → first_key J w start_keys ≡ none
          → first_key J w end_keys ≡ none
          → unwrap_or
              (and_then (first_key J w end_keys) J.as_u64)
              (unwrap_or (and_then (first_key J w start_keys) J.as_u64) 0)
            ≡ 0
      empty_range w e e' = rw (e, e') refl
