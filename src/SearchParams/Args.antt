-- ===== src/SearchParams/Args.antt =====
-- A search's command line determines the search.
use prime_hunter.Common.{ℕ, Option, none, some, List, [], ◌∷◌, ◌≡◌, sym, ap, ◌∙◌, if◌then◌else◌}
use prime_hunter.Common.Strings.{Str, codes, str_eq}
use prime_hunter.SearchParams.{
  SearchParams, factorial, palindromic, kbn, primorial, cullen_woodall, wagstaff, carol_kynea, twin,
  sophie_germain, repunit, gen_fermat, to_args,
}

-- The search of a subcommand and its numbers.
rebuild : Str → List ℕ → Option SearchParams
rebuild name (a ∷ b ∷ []) =
    if str_eq name (codes "factorial")
    then some (factorial a b)
    else if str_eq name (codes "primorial")
    then some (primorial a b)
    else if str_eq name (codes "cullen-woodall")
    then some (cullen_woodall a b)
    else if str_eq name (codes "wagstaff")
    then some (wagstaff a b)
    else if str_eq name (codes "carol-kynea")
    then some (carol_kynea a b)
    else none
rebuild name (a ∷ b ∷ c ∷ []) =
    if str_eq name (codes "palindromic")
    then some (palindromic a b c)
    else if str_eq name (codes "repunit")
    then some (repunit a b c)
    else if str_eq name (codes "gen-fermat")
    then some (gen_fermat a b c)
    else none
rebuild name (a ∷ b ∷ c ∷ d ∷ []) =
    if str_eq name (codes "kbn")
    then some (kbn a b c d)
    else if str_eq name (codes "twin")
    then some (twin a b c d)
    else if str_eq name (codes "sophie-germain")
    then some (sophie_germain a b c d)
    else none
rebuild name _ = none

module _ (to_string : ℕ → Str) (from_str : Str → Option ℕ) where
  -- The numbers behind the flags.
  values : List Str → Option (List ℕ)
  values [] = some []
  values (flag ∷ []) = none
  values (flag ∷ value ∷ rest) = elim (from_str value) [
    | none ↦ none
    | some n ↦ elim (values rest) [ none ↦ none | some ns ↦ some (n ∷ ns) ]
  ]

  read_args : List Str → Option SearchParams
  read_args [] = none
  read_args (name ∷ rest) = elim (values rest) [ none ↦ none | some ns ↦ rebuild name ns ]

  module _ (from_to : (n : ℕ) → from_str (to_string n) ≡ some n) where
    read_args-to_args : (p : SearchParams) → read_args (to_args to_string p) ≡ some p
    unfolding read_args values rebuild to_args
    read_args-to_args (factorial start end) = rw (from_to start, from_to end, read_args, values)
    read_args-to_args (palindromic base min_digits max_digits) =
        rw (from_to base, from_to min_digits, from_to max_digits, read_args, values)
    read_args-to_args (kbn k base min_n max_n) =
        rw (from_to k, from_to base, from_to min_n, from_to max_n, read_args, values)
    read_args-to_args (primorial start end) = rw (from_to start, from_to end, read_args, values)
    read_args-to_args (cullen_woodall min_n max_n) =
        rw (from_to min_n, from_to max_n, read_args, values)
    read_args-to_args (wagstaff min_exp max_exp) =
        rw (from_to min_exp, from_to max_exp, read_args, values)
    read_args-to_args (carol_kynea min_n max_n) =
        rw (from_to min_n, from_to max_n, read_args, values)
    read_args-to_args (twin k base min_n max_n) =
        rw (from_to k, from_to base, from_to min_n, from_to max_n, read_args, values)
    read_args-to_args (sophie_germain k base min_n max_n) =
        rw (from_to k, from_to base, from_to min_n, from_to max_n, read_args, values)
    read_args-to_args (repunit base min_n max_n) =
        rw (from_to base, from_to min_n, from_to max_n, read_args, values)
    read_args-to_args (gen_fermat fermat_exp min_base max_base) =
        rw (from_to fermat_exp, from_to min_base, from_to max_base, read_args, values)

    some-inj : {p q : SearchParams} → ◌≡◌ {A = Option SearchParams} (some p) (some q) → p ≡ q
    some-inj e = cc

    -- Where parsing a printed number gives it back, two searches with the same command line are
    -- the same search.
    pub to_args-inj : (p q : SearchParams) → to_args to_string p ≡ to_args to_string q → p ≡ q
    to_args-inj p q h = some-inj (sym (read_args-to_args p) ∙ ap read_args h ∙ read_args-to_args q)
