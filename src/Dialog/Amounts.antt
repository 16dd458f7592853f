-- ===== src/Dialog/Amounts.antt =====
-- Amounts that the chat writes are read back.
use mathlib.Core.List.{append-nil}
use meduman_backend.Prelude.{
  ltb, Bool-cases, concat, decimal, pad_zeros, codes_of, is_white, ℕ, zero, suc, ◌+◌, ◌-◌, ◌*◌, ◌/◌,
  ◌%◌, ◌<◌, String, ◌≡◌, refl, sym, ap, ◌∙◌, subst, inl, inr, true, false, some, List, [], ◌∷◌,
  ◌++◌, arith,
}
use meduman_backend.Prelude.Int.{pos}
use meduman_backend.Prelude.Codes.{is_digit, all}
use meduman_backend.Dialog.Money.{
  group_from, naira_text, format_naira, clean, take_number, kobo_of, read_kobo, parse_naira_to_kobo,
}
use meduman_backend.Dialog.Digits.{
  codes-append, clean-append, all-append, clean-digits, value_from, value_from-append,
  take_number_lem, three_digits, two_digits, short_digits, three_codes, two_codes, short_codes,
}

record IsNumber (n : ℕ) (xs : List ℕ) : Type 0 where
  first : ℕ
  more : List ℕ
  parts : xs ≡ first ∷ more
  digits : all is_digit xs ≡ true
  value : value_from 0 xs ≡ n

short-IsNumber : (n : ℕ) → n < 1000 → IsNumber n (short_digits n)
unfolding short_digits value_from two_digits three_digits
short-IsNumber n h = elim (Bool-cases (ltb n 10)) [
  | inl one ↦ rw one (record {
    first = 48 + n;
    more = [];
    parts = refl;
    digits = ground arith;
    value = omega arith;
  })
  | inr more ↦ elim (Bool-cases (ltb n 100)) [
    | inl two ↦
        rw (more, two)
          (record {
            first = 48 + n / 10;
            more = (48 + n % 10) ∷ [];
            parts = refl;
            digits = ground arith;
            value = omega arith;
          })
    | inr three ↦
        rw (more, three)
          (record {
            first = 48 + n / 100;
            more = (48 + n / 10 % 10) ∷ (48 + n % 10) ∷ [];
            parts = refl;
            digits = ground arith;
            value = omega arith;
          })
  ]
]

-- Three digits more
grouped-IsNumber :
    (n : ℕ) (xs : List ℕ) → IsNumber (n / 1000) xs → IsNumber n (xs ++ three_digits (n % 1000))
unfolding three_digits value_from
grouped-IsNumber n xs h = record {
  first = h.first;
  more = h.more ++ three_digits (n % 1000);
  parts = ap (λ ys. ys ++ three_digits (n % 1000)) h.parts;
  digits = all-append is_digit xs (three_digits (n % 1000)) h.digits (ground arith);
  value =
      value_from-append 0 xs (three_digits (n % 1000))
      ∙ ap (λ v. value_from v (three_digits (n % 1000))) h.value
      ∙ omega arith;
}

-- A text of three parts, without the filler between them
three_parts :
    (s t u : String)
    → clean (codes_of (concat (s ∷ t ∷ u ∷ [])))
      ≡ clean (codes_of s) ++ (clean (codes_of t) ++ clean (codes_of u))
unfolding codes_of
three_parts s t u =
    ap clean (codes-append s (concat (t ∷ u ∷ [])))
    ∙ clean-append (codes_of s) (codes_of (concat (t ∷ u ∷ [])))
    ∙ ap (λ ys. clean (codes_of s) ++ ys)
        (ap clean (codes-append t (concat (u ∷ [])))
          ∙ clean-append (codes_of t) (codes_of (concat (u ∷ [])))
          ∙ ap (λ ys. clean (codes_of t) ++ ys)
              (ap clean (codes-append u "" ∙ append-nil (codes_of u))))

small_text : (fuel n : ℕ) → ltb n 1000 ≡ true → group_from (suc fuel) n ≡ decimal n
unfolding group_from
small_text fuel n h = rw h refl

large_text :
    (fuel n : ℕ)
    → ltb n 1000 ≡ false
    → group_from (suc fuel) n
      ≡ concat (group_from fuel (n / 1000) ∷ "," ∷ pad_zeros 3 (decimal (n % 1000)) ∷ [])
unfolding group_from
large_text fuel n h = rw h refl

large_codes :
    (s : String) (m : ℕ)
    → m < 1000
    → clean (codes_of (concat (s ∷ "," ∷ pad_zeros 3 (decimal m) ∷ [])))
      ≡ clean (codes_of s) ++ three_digits m
unfolding codes_of clean three_digits is_white
large_codes s m h =
    three_parts s "," (pad_zeros 3 (decimal m))
    ∙ ap (λ ys. clean (codes_of s) ++ ys)
        (ap clean (three_codes m h) ∙ clean-digits (three_digits m) (ground arith))

group-IsNumber : (fuel n : ℕ) → n < fuel → IsNumber n (clean (codes_of (group_from fuel n)))
group-IsNumber zero n h = absurd (omega (arith, h))
group-IsNumber (suc fuel) n h = elim (Bool-cases (ltb n 1000)) [
  | inl small ↦
      let short = short-IsNumber n (ground arith) in
      subst (IsNumber n)
        (sym (
          ap (λ t. clean (codes_of t)) (small_text fuel n small)
          ∙ ap clean (short_codes n (ground arith))
          ∙ clean-digits (short_digits n) short.digits))
        short
  | inr large ↦
      subst (IsNumber n)
        (sym (
          ap (λ t. clean (codes_of t)) (large_text fuel n large)
          ∙ large_codes (group_from fuel (n / 1000)) (n % 1000) (omega arith)))
        (grouped-IsNumber n _ (group-IsNumber fuel (n / 1000) (ground arith)))
]

read_kobo_lem :
    (n m : ℕ) (xs : List ℕ)
    → IsNumber n xs
    → m < 100
    → read_kobo (xs ++ b'.' ∷ two_digits m) ≡ some (n * 100 + m)
unfolding two_digits value_from
read_kobo_lem n m xs h k =
    ap (λ ys. read_kobo (ys ++ b'.' ∷ two_digits m)) h.parts ∙ rw (here, took) ends
  where
    whole : all is_digit (h.first ∷ h.more) ≡ true
    whole = subst (λ ys. all is_digit ys ≡ true) h.parts h.digits

    here : is_digit h.first ≡ true
    here = ground (arith, whole)

    valued : value_from (h.first - 48) h.more ≡ n
    valued = ap (λ v. value_from v h.more) (omega arith) ∙ ap (value_from 0) (sym h.parts) ∙ h.value

    took : take_number (h.first - 48) (h.more ++ b'.' ∷ two_digits m) ≡ (n, b'.' ∷ two_digits m)
    took =
        take_number_lem (h.first - 48) h.more (two_digits m) (ground (arith, whole))
        ∙ ap (λ v. (v, b'.' ∷ two_digits m)) valued

    ends : kobo_of (n, b'.' ∷ two_digits m) ≡ some (n * 100 + m)
    ends = ground (arith, k)

-- An amount in kobo that the chat writes in Naira is read back as the same amount.
pub parse-format_naira : (k : ℕ) → parse_naira_to_kobo (format_naira (pos k)) ≡ some k
unfolding parse_naira_to_kobo format_naira naira_text codes_of clean is_white two_digits
parse-format_naira k =
    ap read_kobo (
      three_parts (group_from (k + 1) (k / 100)) "." (pad_zeros 2 (decimal (k % 100)))
      ∙ ap (λ ys. clean (codes_of (group_from (k + 1) (k / 100))) ++ b'.' ∷ ys) cents)
    ∙ read_kobo_lem (k / 100) (k % 100) _ (group-IsNumber (k + 1) (k / 100) (omega arith))
        (omega arith)
    ∙ ap some (omega arith)
  where
    cents : clean (codes_of (pad_zeros 2 (decimal (k % 100)))) ≡ two_digits (k % 100)
    cents =
        ap clean (two_codes (k % 100) (omega arith))
        ∙ clean-digits (two_digits (k % 100)) (ground arith)
