-- ===== src/Forms/Palindromic/Mirror.antt =====
-- The mirrored array is a palindrome.
use mathlib.Core.List.{reverse, reverse-append, reverse-reverse, reverse-cons}
use mathlib.Core.Path.{subst}
use prime_hunter.Common.{
  ℕ, zero, suc, ◌-◌, ◌*◌, ◌<◌, ◌≤◌, Bool, true, false, List, [], ◌∷◌, ◌++◌, length, length-append,
  if◌then◌else◌, ◌≡◌, refl, sym, ap, ◌∙◌, Outcome, ok, ◌>>=◌, sub_checked, arith,
}
use prime_hunter.Forms.Palindromic.{digit_at, push_mirrored, mirror_to_palindrome}

pub take : ℕ → List ℕ → List ℕ
take zero xs = []
take (suc n) [] = []
take (suc n) (x ∷ xs) = x ∷ take n xs

append_nil : (xs : List ℕ) → xs ++ [] ≡ xs
append_nil [] = refl
append_nil (x ∷ xs) = ap (λ t. x ∷ t) (append_nil xs)

append_one : (xs : List ℕ) (x : ℕ) (ys : List ℕ) → (xs ++ x ∷ []) ++ ys ≡ xs ++ x ∷ ys
append_one [] x ys = refl
append_one (y ∷ xs) x ys = ap (λ t. y ∷ t) (append_one xs x ys)

take_next :
    (half : List ℕ) (i : ℕ)
    → i < length half
    → (d : ℕ) × (digit_at half i ≡ ok d) × (take (suc i) half ≡ take i half ++ d ∷ [])
unfolding digit_at take
take_next [] i h = absurd (omega arith)
take_next (x ∷ xs) zero h = (x, refl, refl)
take_next (x ∷ xs) (suc i) h =
    let (d, run, e) = take_next xs i (omega arith) in (d, run, ap (λ t. x ∷ t) e)

pub take_all : (xs : List ℕ) → take (length xs) xs ≡ xs
unfolding take
take_all [] = refl
take_all (x ∷ xs) = ap (λ t. x ∷ t) (take_all xs)

length-take : (n : ℕ) (xs : List ℕ) → n ≤ length xs → length (take n xs) ≡ n
unfolding take
length-take zero xs h = refl
length-take (suc n) [] h = absurd (omega arith)
length-take (suc n) (x ∷ xs) h = ap suc (length-take n xs (omega arith))

take-append : (xs ys : List ℕ) → take (length xs) (xs ++ ys) ≡ xs
unfolding take
take-append [] ys = refl
take-append (x ∷ xs) ys = ap (λ t. x ∷ t) (take-append xs ys)

-- Reading the first digits backwards pushes their reverse.
pub push_lem :
    (half : List ℕ) (n : ℕ) (digits : List ℕ)
    → n ≤ length half
    → push_mirrored half n digits ≡ ok (digits ++ reverse (take n half))
unfolding push_mirrored take
push_lem half zero digits h = ap ok (sym (append_nil digits))
push_lem half (suc i) digits h =
    let (d, run, e) = take_next half i (omega (arith, h)) in
    rw run (
      push_lem half i (digits ++ d ∷ []) (omega (arith, h))
      ∙ ap ok (
          append_one digits d (reverse (take i half))
          ∙ ap (λ t. digits ++ t)
              (sym (reverse-append (take i half) (d ∷ [])) ∙ ap reverse (sym e))))

pub length-reverse : (xs : List ℕ) → length (reverse xs) ≡ length xs
length-reverse [] = refl
length-reverse (x ∷ xs) =
    ap length (reverse-cons x xs)
    ∙ length-append (reverse xs) (x ∷ [])
    ∙ omega (arith, length-reverse xs)

-- What `mirror_to_palindrome` promises of `digits` for the half `half`.
pub record IsMirror (half digits : List ℕ) (full_len : ℕ) : Type 0 where
  pub palindrome : reverse digits ≡ digits
  pub measured : length digits ≡ full_len
  pub begins : take (length half) digits ≡ half

even-IsMirror : (half : List ℕ) → IsMirror half (half ++ reverse half) (length half * 2)
even-IsMirror half = record {
  palindrome =
      reverse-append half (reverse half) ∙ ap (λ t. t ++ reverse half) (reverse-reverse half);
  measured = length-append half (reverse half) ∙ omega (arith, length-reverse half);
  begins = take-append half (reverse half);
}

odd-IsMirror :
    (front : List ℕ) (d : ℕ)
    → IsMirror
        (front ++ d ∷ [])
        ((front ++ d ∷ []) ++ reverse front)
        (length (front ++ d ∷ []) * 2 - 1)
odd-IsMirror front d = record {
  palindrome =
      reverse-append (front ++ d ∷ []) (reverse front)
      ∙ (λ i. reverse-reverse front i ++ reverse-append front (d ∷ []) i)
      ∙ sym (append_one front d (reverse front));
  measured =
      length-append (front ++ d ∷ []) (reverse front)
      ∙ omega (arith, length-reverse front, length-append front (d ∷ []));
  begins = take-append (front ++ d ∷ []) (reverse front);
}

pub checked :
    {B : Type 0} (a b : ℕ) → b ≤ a → (f : ℕ → Outcome B) → (sub_checked a b >>= f) ≡ f (a - b)
checked a b h f = ap (λ m. m >>= f) (plain a b h)
  where
    plain : (a b : ℕ) → b ≤ a → sub_checked a b ≡ ok (a - b)
    plain a b h = ground arith

-- For a half that is not empty, or an even length, `mirror_to_palindrome` returns an array of twice
-- the half's length (less one for an odd length) that begins with the half and reads the same
-- backwards.
pub mirror_to_palindrome-IsMirror :
    (half : List ℕ) (is_odd : Bool)
    → (is_odd ≡ true → 0 < length half)
    → (digits : List ℕ) × (mirror_to_palindrome half is_odd ≡ ok digits)
      × IsMirror half digits (length half * 2 - (if is_odd then 1 else 0))
unfolding mirror_to_palindrome
mirror_to_palindrome-IsMirror half false h = (
  half ++ reverse half,
  checked (length half * 2) 0 (omega arith) (λ x. push_mirrored half (length half) half)
      ∙ push_lem half (length half) half (omega arith)
      ∙ ap (λ t. ok (half ++ reverse t)) (take_all half),
  subst (IsMirror half (half ++ reverse half)) {x = length half * 2} {y = length half * 2 - 0}
      (omega arith) (even-IsMirror half),
)
mirror_to_palindrome-IsMirror half true h =
    let pos : 0 < length half = h refl in
    let (d, run, e) = take_next half (length half - 1) (omega (arith, pos)) in
    let front : List ℕ = take (length half - 1) half in
    let split : half ≡ front ++ d ∷ [] =
      sym (take_all half)
      ∙ ap (λ (t : ℕ). take t half) {x = length half} {y = suc (length half - 1)}
          (omega (arith, pos))
      ∙ e in
    (
      half ++ reverse front,
      checked (length half * 2) 1 (omega (arith, pos))
            (λ x. push_mirrored half (length half - 1) half)
          ∙ push_lem half (length half - 1) half (omega arith),
      subst (λ t. IsMirror t (t ++ reverse front) (length t * 2 - 1)) (sym split)
          (odd-IsMirror front d),
    )
