-- ===== src/Phone/Laws.antt =====
-- The numbers that `normalizeMsisdn` of phone.ts lets through.
use meduman_backend.Prelude.{
  Bool-cases, length, ℕ, ◌≤◌, ◌≡◌, refl, ap, ◌∙◌, subst, inl, inr, Bool, true, Option, none, some,
  List, [], ◌∷◌, ◌++◌, arith,
}
use meduman_backend.Prelude.Codes.{is_digit, all, starts_with}
use meduman_backend.Phone.{
  routed, unroutable, trim_left, trim_right, had_plus, is_plausible, digits_of, drop_access,
  drop_zeros, ng_country_code, to_international, check_length, checked, route_digits, route_trimmed,
  normalize_msisdn,
}

-- What a number that was let through looks like.
pub record IsDialled (ds : List ℕ) : Type 0 where
  pub numeric : all is_digit ds ≡ true
  pub at_least : 8 ≤ length ds
  pub at_most : length ds ≤ 15
  pub nigerian : starts_with ng_country_code ds ≡ true → length ds ≡ 13

digits_of-numeric : (cs : List ℕ) → all is_digit (digits_of cs) ≡ true
unfolding digits_of
digits_of-numeric [] = refl
digits_of-numeric (c ∷ cs) = ground (arith, digits_of-numeric cs)

all-append :
    (p : ℕ → Bool) (xs ys : List ℕ) → all p xs ≡ true → all p ys ≡ true → all p (xs ++ ys) ≡ true
all-append p [] ys h k = k
all-append p (c ∷ cs) ys h k = ground (arith, all-append p cs ys)

drop_zeros-numeric : (ds : List ℕ) → all is_digit ds ≡ true → all is_digit (drop_zeros ds) ≡ true
unfolding drop_zeros
drop_zeros-numeric [] h = refl
drop_zeros-numeric (d ∷ ds) h = ground (arith, drop_zeros-numeric ds)

drop_access-numeric :
    (plus : Bool) (ds : List ℕ) → all is_digit ds ≡ true → all is_digit (drop_access plus ds) ≡ true
unfolding drop_access
drop_access-numeric plus [] h = refl
drop_access-numeric plus (c ∷ []) h = h
drop_access-numeric plus (c ∷ d ∷ ds) h = ground arith

pub to_international-numeric :
    (country : List ℕ) (plus : Bool) (ds es : List ℕ)
    → all is_digit country ≡ true
    → all is_digit ds ≡ true
    → to_international country plus ds ≡ some es
    → all is_digit es ≡ true
unfolding to_international
to_international-numeric country plus ds es hc hd h = ground (
  arith,
  all-append is_digit country (drop_zeros ds),
  drop_zeros-numeric ds,
  all-append is_digit ng_country_code ds,
)

pub check_length_lem :
    (es ds : List ℕ)
    → check_length es ≡ routed ds
    → (es ≡ ds)
      × (8 ≤ length es)
      × (length es ≤ 15)
      × (starts_with ng_country_code es ≡ true → length es ≡ 13)
unfolding check_length
check_length_lem es ds h = (ground arith, ground arith, ground arith, λ s. ground arith)

-- The steps that a number that was let through has passed.
pub record Passed (country trimmed ds : List ℕ) : Type 0 where
  pub plus : Bool
  pub digits : List ℕ
  pub numeric : all is_digit digits ≡ true
  pub mapped : to_international country plus digits ≡ some ds
  pub fits : check_length ds ≡ routed ds

route_digits-Passed :
    (country trimmed : List ℕ) (plus : Bool) (digits ds : List ℕ)
    → all is_digit digits ≡ true
    → route_digits country plus digits ≡ routed ds
    → Passed country trimmed ds
route_digits-Passed country trimmed plus [] ds hd h = cc
route_digits-Passed country trimmed plus (c ∷ cs) ds hd h =
    go (to_international country plus (drop_access plus (c ∷ cs))) refl h
  where
    go :
        (o : Option (List ℕ))
        → to_international country plus (drop_access plus (c ∷ cs)) ≡ o
        → checked o ≡ routed ds
        → Passed country trimmed ds
    go none e h' = cc
    go (some es) e h' =
        let same = (check_length_lem es ds h').0 in
        record {
          plus = plus;
          digits = drop_access plus (c ∷ cs);
          numeric = drop_access-numeric plus (c ∷ cs) hd;
          mapped = e ∙ ap some same;
          fits = subst (λ x. check_length x ≡ routed ds) same h';
        }

pub route_trimmed-Passed :
    (country trimmed ds : List ℕ)
    → route_trimmed country trimmed ≡ routed ds
    → Passed country trimmed ds
route_trimmed-Passed country [] ds h = cc
route_trimmed-Passed country (c ∷ cs) ds h = elim (Bool-cases (is_plausible (c ∷ cs))) [
  | inl good ↦
      route_digits-Passed country (c ∷ cs) (had_plus (c ∷ cs)) (digits_of (c ∷ cs)) ds
        (digits_of-numeric (c ∷ cs)) (rw good at h)
  | inr bad ↦ absurd (not_routed (rw bad at h))
]
  where
    not_routed : unroutable "contains non-dialable characters" ≡ routed ds → ⊥
    not_routed e = cc

-- Whatever text is stored, what is dialled has 8 to 15 characters, all digits, and exactly 13 where it starts
-- with 234.
pub normalize_msisdn-IsDialled :
    (country raw ds : List ℕ)
    → all is_digit country ≡ true
    → normalize_msisdn country raw ≡ routed ds
    → IsDialled ds
unfolding normalize_msisdn
normalize_msisdn-IsDialled country raw ds hc h =
    let passed = route_trimmed-Passed country (trim_right (trim_left raw)) ds h in
    let (_, low, high, ng) = check_length_lem ds ds passed.fits in
    record {
      numeric =
          to_international-numeric country passed.plus passed.digits ds hc passed.numeric
            passed.mapped;
      at_least = low;
      at_most = high;
      nigerian = ng;
    }
