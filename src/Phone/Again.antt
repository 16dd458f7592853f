-- ===== src/Phone/Again.antt =====
-- A number that `normalizeMsisdn` of phone.ts let through, given to it again.
use meduman_backend.Prelude.{
  length, is_white, ℕ, ◌≡◌, refl, ap, ◌∙◌, Bool, true, false, some, List, [], ◌∷◌, ◌++◌, arith,
}
use meduman_backend.Prelude.Codes.{is_digit, all, starts_with}
use meduman_backend.Phone.{
  routed, is_dialable, trim_left, trim_right, had_plus, is_plausible, digits_of, drop_access,
  ng_country_code, starts_mobile, is_national, to_international, check_length, route_trimmed,
  normalize_msisdn,
}
use meduman_backend.Phone.Laws.{to_international-numeric, route_trimmed-Passed}

digits_of-id : (ds : List ℕ) → all is_digit ds ≡ true → digits_of ds ≡ ds
unfolding digits_of
digits_of-id [] h = refl
digits_of-id (d ∷ ds) h = ground (arith, digits_of-id ds)

not_white : (c : ℕ) → is_digit c ≡ true → is_white c ≡ false
unfolding is_white
not_white c h = ground arith

dialable-digits : (ds : List ℕ) → all is_digit ds ≡ true → all is_dialable ds ≡ true
unfolding is_dialable
dialable-digits [] h = refl
dialable-digits (d ∷ ds) h = ground (arith, dialable-digits ds)

trim_left-id : (ds : List ℕ) → all is_digit ds ≡ true → trim_left ds ≡ ds
unfolding trim_left
trim_left-id [] h = refl
trim_left-id (d ∷ ds) h = ground (arith, not_white d)

trim_right-id : (ds : List ℕ) → all is_digit ds ≡ true → trim_right ds ≡ ds
unfolding trim_right
trim_right-id [] h = refl
trim_right-id (d ∷ ds) h = ground (arith, not_white d, trim_right-id ds)

-- What the second pass decides by: no leading zero, and no bare national number.
abbrev IsSettled : List ℕ → Type 0
IsSettled ds = (starts_with (b'0' ∷ []) ds ≡ false) × (is_national ng_country_code ds ≡ false)

to_international-IsSettled :
    (plus : Bool) (ds es : List ℕ)
    → to_international ng_country_code plus ds ≡ some es
    → IsSettled es
unfolding to_international
to_international-IsSettled plus ds es h = (ground arith, ground arith)

settled_lem : (ds : List ℕ) → IsSettled ds → to_international ng_country_code false ds ≡ some ds
unfolding to_international
settled_lem ds h = ground arith

drop_access-settled : (ds : List ℕ) → starts_with (b'0' ∷ []) ds ≡ false → drop_access false ds ≡ ds
unfolding drop_access starts_with
drop_access-settled [] h = refl
drop_access-settled (c ∷ []) h = refl
drop_access-settled (c ∷ d ∷ ds) h = ground arith

plausible-digits :
    (c : ℕ) (cs : List ℕ) → all is_digit (c ∷ cs) ≡ true → is_plausible (c ∷ cs) ≡ true
unfolding is_plausible is_dialable
plausible-digits c cs h = ground (arith, dialable-digits cs)

route_settled :
    (ds : List ℕ)
    → all is_digit ds ≡ true
    → IsSettled ds
    → check_length ds ≡ routed ds
    → route_trimmed ng_country_code ds ≡ routed ds
unfolding check_length
route_settled [] hd s h = absurd (ground (arith, h))
route_settled (c ∷ cs) hd s h =
    let no_plus : had_plus (c ∷ cs) ≡ false = ground arith in
    rw (plausible-digits c cs hd, no_plus, digits_of-id (c ∷ cs) hd)
      (rw (drop_access-settled (c ∷ cs) s.0, settled_lem (c ∷ cs) s) h)

trimmed-digits : (ds : List ℕ) → all is_digit ds ≡ true → trim_right (trim_left ds) ≡ ds
trimmed-digits ds h = ap trim_right (trim_left-id ds h) ∙ trim_right-id ds h

-- With the Nigerian country code, a number that was let through is let through again as it is.
pub normalize_msisdn_idem :
    (raw ds : List ℕ)
    → normalize_msisdn ng_country_code raw ≡ routed ds
    → normalize_msisdn ng_country_code ds ≡ routed ds
unfolding normalize_msisdn
normalize_msisdn_idem raw ds h =
    let passed = route_trimmed-Passed ng_country_code (trim_right (trim_left raw)) ds h in
    let numeric =
      to_international-numeric ng_country_code passed.plus passed.digits ds refl passed.numeric
        passed.mapped in
    ap (route_trimmed ng_country_code) (trimmed-digits ds numeric)
    ∙ route_settled ds numeric
        (to_international-IsSettled passed.plus passed.digits ds passed.mapped) passed.fits

trimmed_plus :
    (ds : List ℕ) → all is_digit ds ≡ true → trim_right (trim_left (b'+' ∷ ds)) ≡ b'+' ∷ ds
unfolding trim_left trim_right is_white
trimmed_plus ds h = rw (trim_right-id ds h) refl

plausible_plus :
    (c : ℕ) (cs : List ℕ) → all is_digit (c ∷ cs) ≡ true → is_plausible (b'+' ∷ c ∷ cs) ≡ true
unfolding is_plausible
plausible_plus c cs h = dialable-digits (c ∷ cs) h

digits_of-plus : (ds : List ℕ) → all is_digit ds ≡ true → digits_of (b'+' ∷ ds) ≡ ds
unfolding digits_of
digits_of-plus ds h = digits_of-id ds h

drop_access_plus : (ds : List ℕ) → drop_access true ds ≡ ds
unfolding drop_access
drop_access_plus [] = refl
drop_access_plus (c ∷ []) = refl
drop_access_plus (c ∷ d ∷ ds) = refl

redirected :
    (ds : List ℕ)
    → all is_digit ds ≡ true
    → length ds ≡ 10
    → starts_mobile ds ≡ true
    → to_international ng_country_code true ds ≡ some (ng_country_code ++ ds)
unfolding to_international
redirected [] hd ten mobile = cc
redirected (c ∷ cs) hd ten mobile = ground arith

redirected_length :
    (ds : List ℕ)
    → length ds ≡ 10
    → check_length (ng_country_code ++ ds) ≡ routed (ng_country_code ++ ds)
unfolding check_length
redirected_length ds ten = ground arith

-- A number typed in full with a plus, whose country code and number are ten digits that start with 7, 8 or 9, is not
-- dialled: the Nigerian number that ends in these ten digits is.
pub plus_number_redirected :
    (ds : List ℕ)
    → all is_digit ds ≡ true
    → length ds ≡ 10
    → starts_mobile ds ≡ true
    → normalize_msisdn ng_country_code (b'+' ∷ ds) ≡ routed (ng_country_code ++ ds)
unfolding normalize_msisdn
plus_number_redirected [] hd ten mobile = cc
plus_number_redirected (c ∷ cs) hd ten mobile =
    ap (route_trimmed ng_country_code) (trimmed_plus (c ∷ cs) hd)
    ∙ rw (plausible_plus c cs hd, digits_of-plus (c ∷ cs) hd, drop_access_plus (c ∷ cs))
        (rw (redirected (c ∷ cs) hd ten mobile) (redirected_length (c ∷ cs) ten))
