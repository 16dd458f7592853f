-- ===== src/Dialog/Digits.antt =====
-- Decimal numerals as code points: the digits of a number, and the number of digits.
use Prim.Native.Char.{code}
use Prim.Native.String
use Prim.Native.String.append
use meduman_backend.Prelude.{
  ltb, if◌then◌else◌, Bool-cases, decimal, pad_zeros, codes_of, is_white, ℕ, zero, suc, ◌+◌, ◌-◌,
  ◌*◌, ◌/◌, ◌%◌, ◌≤◌, ◌<◌, String, ◌≡◌, refl, ap, ◌∙◌, subst, inl, inr, Bool, true, false, ◌&&◌,
  List, [], ◌∷◌, ◌++◌, arith,
}
use meduman_backend.Prelude.Codes.{is_digit, all, same_codes}
use meduman_backend.Dialog.Money.{is_filler, clean, take_number}

all_below : (ℕ → Bool) → ℕ → Bool
all_below p zero = true
all_below p (suc n) = p n && all_below p n

all_below_lem : (p : ℕ → Bool) (n m : ℕ) → all_below p n ≡ true → m < n → p m ≡ true
unfolding all_below
all_below_lem p zero m h k = absurd (omega (arith, k))
all_below_lem p (suc n) m h k = elim (Bool-cases (ltb m n)) [
  | inl less ↦ all_below_lem p n m (ground (arith, h)) (ground arith)
  | inr last ↦ subst (λ i. p i ≡ true) (last_one (ground arith)) (ground (arith, h))
]
  where
    last_one : n ≤ m → n ≡ m
    last_one le = omega (arith, le, k)

same_codes_lem : (xs ys : List ℕ) → same_codes xs ys ≡ true → xs ≡ ys
unfolding same_codes
same_codes_lem [] [] h = refl
same_codes_lem [] (y ∷ ys) h = absurd (ground (arith, h))
same_codes_lem (x ∷ xs) [] h = absurd (ground (arith, h))
same_codes_lem (x ∷ xs) (y ∷ ys) h =
    let e : x ≡ y = ground (arith, h) in cc (e, same_codes_lem xs ys (ground (arith, h)))

pub codes-append : (s t : String) → codes_of (String.◌++◌ s t) ≡ codes_of s ++ codes_of t
unfolding codes_of
codes-append String.[] t = ap codes_of (append.nil t)
codes-append (String.◌∷◌ c s) t =
    ap codes_of (append.cons c s t) ∙ ap (λ cs. code c ∷ cs) (codes-append s t)

pub clean-append : (xs ys : List ℕ) → clean (xs ++ ys) ≡ clean xs ++ clean ys
unfolding clean
clean-append [] ys = refl
clean-append (x ∷ xs) ys = ground (arith, clean-append xs ys)

pub all-append :
    (q : ℕ → Bool) (xs ys : List ℕ) → all q xs ≡ true → all q ys ≡ true → all q (xs ++ ys) ≡ true
all-append q [] ys h k = k
all-append q (x ∷ xs) ys h k = ground (arith, h, all-append q xs ys (ground (arith, h)) k)

pub clean-digits : (xs : List ℕ) → all is_digit xs ≡ true → clean xs ≡ xs
unfolding clean is_white
clean-digits [] h = refl
clean-digits (x ∷ xs) h =
    let rest = clean-digits xs (ground (arith, h)) in
    let kept : is_filler x ≡ false = ground (arith, h) in rw kept (ap (λ ys. x ∷ ys) rest)

-- The number that digits go on with.
unfoldable pub value_from : ℕ → List ℕ → ℕ
value_from n [] = n
value_from n (c ∷ cs) = value_from (n * 10 + (c - 48)) cs

pub value_from-append :
    (n : ℕ) (xs ys : List ℕ) → value_from n (xs ++ ys) ≡ value_from (value_from n xs) ys
unfolding value_from
value_from-append n [] ys = refl
value_from-append n (x ∷ xs) ys = value_from-append (n * 10 + (x - 48)) xs ys

pub take_number_lem :
    (n : ℕ) (xs rest : List ℕ)
    → all is_digit xs ≡ true
    → take_number n (xs ++ b'.' ∷ rest) ≡ (value_from n xs, b'.' ∷ rest)
unfolding take_number value_from
take_number_lem n [] rest h = refl
take_number_lem n (x ∷ xs) rest h =
    let here : is_digit x ≡ true = ground (arith, h) in
    rw here (take_number_lem (n * 10 + (x - 48)) xs rest (ground (arith, h)))

unfoldable pub three_digits : ℕ → List ℕ
three_digits m = (48 + m / 100) ∷ (48 + m / 10 % 10) ∷ (48 + m % 10) ∷ []

is_three : ℕ → Bool
unfolding three_digits
is_three m = same_codes (codes_of (pad_zeros 3 (decimal m))) (three_digits m)

all_three : all_below is_three 1000 ≡ true
unfolding all_below is_three same_codes codes_of pad_zeros decimal
all_three = refl

unfoldable pub two_digits : ℕ → List ℕ
two_digits m = (48 + m / 10) ∷ (48 + m % 10) ∷ []

is_two : ℕ → Bool
unfolding two_digits
is_two m = same_codes (codes_of (pad_zeros 2 (decimal m))) (two_digits m)

all_two : all_below is_two 100 ≡ true
unfolding all_below is_two same_codes codes_of pad_zeros decimal
all_two = refl

unfoldable pub short_digits : ℕ → List ℕ
unfolding two_digits three_digits
short_digits m =
    if ltb m 10 then (48 + m) ∷ [] else (if ltb m 100 then two_digits m else three_digits m)

is_short : ℕ → Bool
unfolding short_digits
is_short m = same_codes (codes_of (decimal m)) (short_digits m)

all_short : all_below is_short 1000 ≡ true
unfolding all_below is_short same_codes codes_of decimal
all_short = refl

pub three_codes : (m : ℕ) → m < 1000 → codes_of (pad_zeros 3 (decimal m)) ≡ three_digits m
unfolding is_three
three_codes m h = same_codes_lem _ _ (all_below_lem is_three 1000 m all_three h)

pub two_codes : (m : ℕ) → m < 100 → codes_of (pad_zeros 2 (decimal m)) ≡ two_digits m
unfolding is_two
two_codes m h = same_codes_lem _ _ (all_below_lem is_two 100 m all_two h)

pub short_codes : (m : ℕ) → m < 1000 → codes_of (decimal m) ≡ short_digits m
unfolding is_short
short_codes m h = same_codes_lem _ _ (all_below_lem is_short 1000 m all_short h)
