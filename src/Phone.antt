-- ===== src/Phone.antt =====
-- modules/notifications/phone.ts: the number that a code is sent to. A text is the list of its code points.
pub mod Laws
pub mod Again
mod Examples
use meduman_backend.Prelude.{
  ltb, leb, ◌==◌, if◌then◌else◌, length, is_empty, is_white, ℕ, String, Bool, false, not, ◌&&◌,
  ◌||◌, Option, none, some, List, [], ◌∷◌, ◌++◌,
}
use meduman_backend.Prelude.Codes.{is_digit, all, starts_with}

-- `UnroutablePhoneNumberError` with its reason, or the digits to dial.
pub data PhoneResult : Type 0 where
  routed : List ℕ → PhoneResult
  unroutable : (reason : String) → PhoneResult

-- `[0-9\s().-]`
unfoldable pub is_dialable : ℕ → Bool
unfolding is_white
is_dialable c = is_digit c || is_white c || c == b'(' || c == b')' || c == b'.' || c == b'-'

-- The text from its first character that is not white, and up to its last one.
unfoldable pub trim_left : List ℕ → List ℕ
trim_left [] = []
trim_left (c ∷ cs) = let rest = trim_left cs in if is_white c then rest else c ∷ cs

unfoldable pub trim_right : List ℕ → List ℕ
trim_right [] = []
trim_right (c ∷ cs) =
    let rest = trim_right cs in if is_white c && is_empty rest then [] else c ∷ rest

-- `trimmed.startsWith('+')`
abbrev pub had_plus : List ℕ → Bool
had_plus [] = false
had_plus (c ∷ cs) = c == b'+'

-- `/^\+?[0-9\s().-]+$/`
unfoldable pub is_plausible : List ℕ → Bool
is_plausible [] = false
is_plausible (c ∷ cs) =
    if c == b'+'
    then not (is_empty cs) && all is_dialable cs
    else is_dialable c && all is_dialable cs

-- `trimmed.replace(/[^0-9]/g, '')`
unfoldable pub digits_of : List ℕ → List ℕ
digits_of [] = []
digits_of (c ∷ cs) = if is_digit c then c ∷ digits_of cs else digits_of cs

-- `if (!hadPlus && digits.startsWith('00')) digits = digits.slice(2);`
unfoldable pub drop_access : Bool → List ℕ → List ℕ
drop_access plus (c ∷ d ∷ cs) = if not plus && c == b'0' && d == b'0' then cs else c ∷ d ∷ cs
drop_access plus cs = cs

-- `digits.replace(/^0+/, '')`
unfoldable pub drop_zeros : List ℕ → List ℕ
drop_zeros [] = []
drop_zeros (c ∷ cs) = let rest = drop_zeros cs in if c == b'0' then rest else c ∷ cs

-- `NG_COUNTRY_CODE`
abbrev pub ng_country_code : List ℕ
ng_country_code = b'2' ∷ b'3' ∷ b'4' ∷ []

-- `/^[789]/`
abbrev pub starts_mobile : List ℕ → Bool
starts_mobile [] = false
starts_mobile (c ∷ cs) = leb b'7' c && leb c b'9'

abbrev pub is_national : List ℕ → List ℕ → Bool
is_national country digits =
    (starts_with country ng_country_code && length country == 3)
    && (length digits == 10 && starts_mobile digits)

-- The digits with their country code; `none` where a number starts with `+0`.
unfoldable pub to_international : List ℕ → Bool → List ℕ → Option (List ℕ)
unfolding drop_zeros starts_with
to_international country plus digits =
    if starts_with (b'0' ∷ []) digits
    then (if plus then none else some (country ++ drop_zeros digits))
    else (if is_national country digits then some (ng_country_code ++ digits) else some digits)

-- The last checks
unfoldable pub check_length : List ℕ → PhoneResult
unfolding starts_with
check_length digits =
    if starts_with ng_country_code digits && not (length digits == 13)
    then unroutable "malformed Nigerian number"
    else (if ltb (length digits) 8 || ltb 15 (length digits)
        then unroutable "wrong length for E.164"
        else routed digits)

abbrev pub checked : Option (List ℕ) → PhoneResult
checked none = unroutable "invalid country code"
checked (some digits) = check_length digits

abbrev pub route_digits : List ℕ → Bool → List ℕ → PhoneResult
route_digits country plus [] = unroutable "no digits"
route_digits country plus (c ∷ cs) =
    checked (to_international country plus (drop_access plus (c ∷ cs)))

abbrev pub route_trimmed : List ℕ → List ℕ → PhoneResult
route_trimmed country [] = unroutable "empty"
route_trimmed country (c ∷ cs) =
    if is_plausible (c ∷ cs)
    then route_digits country (had_plus (c ∷ cs)) (digits_of (c ∷ cs))
    else unroutable "contains non-dialable characters"

-- `normalizeMsisdn`
unfoldable pub normalize_msisdn : List ℕ → List ℕ → PhoneResult
unfolding is_plausible digits_of drop_access to_international check_length trim_left trim_right
normalize_msisdn country raw = route_trimmed country (trim_right (trim_left raw))
