-- ===== src/SearchParams.antt =====
-- src/search_params.rs: the parameters of a search of each form, its command line, its range and
-- its block size. The decimal printing of the standard library is a parameter.
pub mod Args
use prime_hunter.Common.{ℕ, ◌-◌, List, [], ◌∷◌, ltb, ◌^◌, if◌then◌else◌}
use prime_hunter.Common.Int.{ℤ, pos, negsuc}
use prime_hunter.Common.Strings.{Str, codes}

-- The fields are u64, but for `base` and `fermat_exp`, which are u32.
pub data SearchParams : Type 0 where
  factorial : (start end : ℕ) → SearchParams
  palindromic : (base min_digits max_digits : ℕ) → SearchParams
  kbn : (k base min_n max_n : ℕ) → SearchParams
  primorial : (start end : ℕ) → SearchParams
  cullen_woodall : (min_n max_n : ℕ) → SearchParams
  wagstaff : (min_exp max_exp : ℕ) → SearchParams
  carol_kynea : (min_n max_n : ℕ) → SearchParams
  twin : (k base min_n max_n : ℕ) → SearchParams
  sophie_germain : (k base min_n max_n : ℕ) → SearchParams
  repunit : (base min_n max_n : ℕ) → SearchParams
  gen_fermat : (fermat_exp min_base max_base : ℕ) → SearchParams

-- i64: `v as i64` of a u64 keeps the bits.
abbrev pub as_i64 : ℕ → ℤ
as_i64 v = if ltb v (2 ^ 63) then pos v else negsuc (2 ^ 64 - 1 - v)

unfoldable pub search_type_name : SearchParams → Str
search_type_name (factorial start end) = codes "factorial"
search_type_name (palindromic base min_digits max_digits) = codes "palindromic"
search_type_name (kbn k base min_n max_n) = codes "kbn"
search_type_name (primorial start end) = codes "primorial"
search_type_name (cullen_woodall min_n max_n) = codes "cullen_woodall"
search_type_name (wagstaff min_exp max_exp) = codes "wagstaff"
search_type_name (carol_kynea min_n max_n) = codes "carol_kynea"
search_type_name (twin k base min_n max_n) = codes "twin"
search_type_name (sophie_germain k base min_n max_n) = codes "sophie_germain"
search_type_name (repunit base min_n max_n) = codes "repunit"
search_type_name (gen_fermat fermat_exp min_base max_base) = codes "gen_fermat"

module _ (to_string : ℕ → Str) where
  unfoldable pub to_args : SearchParams → List Str
  to_args (factorial start end) =
      codes "factorial" ∷ codes "--start" ∷ to_string start ∷ codes "--end" ∷ to_string end ∷ []
  to_args (palindromic base min_digits max_digits) =
      codes "palindromic"
      ∷ codes "--base"
      ∷ to_string base
      ∷ codes "--min-digits"
      ∷ to_string min_digits
      ∷ codes "--max-digits"
      ∷ to_string max_digits
      ∷ []
  to_args (kbn k base min_n max_n) =
      codes "kbn"
      ∷ codes "--k"
      ∷ to_string k
      ∷ codes "--base"
      ∷ to_string base
      ∷ codes "--min-n"
      ∷ to_string min_n
      ∷ codes "--max-n"
      ∷ to_string max_n
      ∷ []
  to_args (primorial start end) =
      codes "primorial" ∷ codes "--start" ∷ to_string start ∷ codes "--end" ∷ to_string end ∷ []
  to_args (cullen_woodall min_n max_n) =
      codes "cullen-woodall"
      ∷ codes "--min-n"
      ∷ to_string min_n
      ∷ codes "--max-n"
      ∷ to_string max_n
      ∷ []
  to_args (wagstaff min_exp max_exp) =
      codes "wagstaff"
      ∷ codes "--min-exp"
      ∷ to_string min_exp
      ∷ codes "--max-exp"
      ∷ to_string max_exp
      ∷ []
  to_args (carol_kynea min_n max_n) =
      codes "carol-kynea"
      ∷ codes "--min-n"
      ∷ to_string min_n
      ∷ codes "--max-n"
      ∷ to_string max_n
      ∷ []
  to_args (twin k base min_n max_n) =
      codes "twin"
      ∷ codes "--k"
      ∷ to_string k
      ∷ codes "--base"
      ∷ to_string base
      ∷ codes "--min-n"
      ∷ to_string min_n
      ∷ codes "--max-n"
      ∷ to_string max_n
      ∷ []
  to_args (sophie_germain k base min_n max_n) =
      codes "sophie-germain"
      ∷ codes "--k"
      ∷ to_string k
      ∷ codes "--base"
      ∷ to_string base
      ∷ codes "--min-n"
      ∷ to_string min_n
      ∷ codes "--max-n"
      ∷ to_string max_n
      ∷ []
  to_args (repunit base min_n max_n) =
      codes "repunit"
      ∷ codes "--base"
      ∷ to_string base
      ∷ codes "--min-n"
      ∷ to_string min_n
      ∷ codes "--max-n"
      ∷ to_string max_n
      ∷ []
  to_args (gen_fermat fermat_exp min_base max_base) =
      codes "gen-fermat"
      ∷ codes "--fermat-exp"
      ∷ to_string fermat_exp
      ∷ codes "--min-base"
      ∷ to_string min_base
      ∷ codes "--max-base"
      ∷ to_string max_base
      ∷ []

unfoldable pub range : SearchParams → ℤ × ℤ
range (factorial start end) = (as_i64 start, as_i64 end)
range (palindromic base min_digits max_digits) = (as_i64 min_digits, as_i64 max_digits)
range (kbn k base min_n max_n) = (as_i64 min_n, as_i64 max_n)
range (primorial start end) = (as_i64 start, as_i64 end)
range (cullen_woodall min_n max_n) = (as_i64 min_n, as_i64 max_n)
range (wagstaff min_exp max_exp) = (as_i64 min_exp, as_i64 max_exp)
range (carol_kynea min_n max_n) = (as_i64 min_n, as_i64 max_n)
range (twin k base min_n max_n) = (as_i64 min_n, as_i64 max_n)
range (sophie_germain k base min_n max_n) = (as_i64 min_n, as_i64 max_n)
range (repunit base min_n max_n) = (as_i64 min_n, as_i64 max_n)
range (gen_fermat fermat_exp min_base max_base) = (as_i64 min_base, as_i64 max_base)

unfoldable pub default_block_size : SearchParams → ℕ
default_block_size (factorial start end) = 100
default_block_size (palindromic base min_digits max_digits) = 2
default_block_size (kbn k base min_n max_n) = 10000
default_block_size (primorial start end) = 100
default_block_size (cullen_woodall min_n max_n) = 1000
default_block_size (wagstaff min_exp max_exp) = 1000
default_block_size (carol_kynea min_n max_n) = 1000
default_block_size (twin k base min_n max_n) = 10000
default_block_size (sophie_germain k base min_n max_n) = 10000
default_block_size (repunit base min_n max_n) = 1000
default_block_size (gen_fermat fermat_exp min_base max_base) = 1000
