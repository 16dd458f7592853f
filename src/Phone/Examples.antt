-- ===== src/Phone/Examples.antt =====
-- Concrete numbers: a Nigerian one as it is stored, and one of the Maldives.
use meduman_backend.Prelude.{ℕ, ◌≡◌, refl, List, [], ◌∷◌, ◌++◌}
use meduman_backend.Phone.{routed, is_dialable, ng_country_code, normalize_msisdn}
use meduman_backend.Phone.Laws.{IsDialled, normalize_msisdn-IsDialled}
use meduman_backend.Phone.Again.{normalize_msisdn_idem, plus_number_redirected}

-- "0803 123 4567"
abbrev stored_number : List ℕ
stored_number =
    b'0' ∷ b'8' ∷ b'0' ∷ b'3' ∷ b' ' ∷ b'1' ∷ b'2' ∷ b'3' ∷ b' ' ∷ b'4' ∷ b'5' ∷ b'6' ∷ b'7' ∷ []

-- "2348031234567"
abbrev dialled_number : List ℕ
dialled_number =
    b'2' ∷ b'3' ∷ b'4' ∷ b'8' ∷ b'0' ∷ b'3' ∷ b'1' ∷ b'2' ∷ b'3' ∷ b'4' ∷ b'5' ∷ b'6' ∷ b'7' ∷ []

normalized : normalize_msisdn ng_country_code stored_number ≡ routed dialled_number
unfolding normalize_msisdn is_dialable
normalized = refl

normalize_msisdn-IsDialled_example : IsDialled dialled_number
normalize_msisdn-IsDialled_example =
    normalize_msisdn-IsDialled ng_country_code stored_number dialled_number refl normalized

normalize_msisdn_idem_test : normalize_msisdn ng_country_code dialled_number ≡ routed dialled_number
normalize_msisdn_idem_test = normalize_msisdn_idem stored_number dialled_number normalized

-- "9607771234": the country code 960 and a mobile number of the Maldives
abbrev maldives : List ℕ
maldives = b'9' ∷ b'6' ∷ b'0' ∷ b'7' ∷ b'7' ∷ b'7' ∷ b'1' ∷ b'2' ∷ b'3' ∷ b'4' ∷ []

plus_number_redirected_test :
    normalize_msisdn ng_country_code (b'+' ∷ maldives) ≡ routed (ng_country_code ++ maldives)
plus_number_redirected_test = plus_number_redirected maldives refl refl refl
