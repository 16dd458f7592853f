-- ===== src/Dialog/Money.antt =====
-- chat-dialog.service.ts: how an amount is written in a message, and read from one.
use meduman_backend.Prelude.{
  ltb, ◌==◌, if◌then◌else◌, concat, decimal, pad_zeros, codes_of, is_white, ℕ, zero, suc, ◌+◌, ◌-◌,
  ◌*◌, ◌/◌, ◌%◌, String, ◌≡◌, refl, Bool, ◌&&◌, ◌||◌, Option, none, some, List, [], ◌∷◌,
}
use meduman_backend.Prelude.Int.{ℤ, pos, negsuc, kobo}
use meduman_backend.Prelude.Codes.{is_digit}

-- A number with a comma before every third digit; the fuel bounds the groups.
unfoldable pub group_from : ℕ → ℕ → String
group_from zero n = ""
group_from (suc fuel) n =
    let rest = group_from fuel (n / 1000) in
    if ltb n 1000 then decimal n else concat (rest ∷ "," ∷ pad_zeros 3 (decimal (n % 1000)) ∷ [])

unfoldable pub naira_text : ℕ → String
unfolding group_from
naira_text kobo =
    concat (group_from (kobo + 1) (kobo / 100) ∷ "." ∷ pad_zeros 2 (decimal (kobo % 100)) ∷ [])

-- `formatNaira`
unfoldable pub format_naira : ℤ → String
unfolding naira_text
format_naira (pos kobo) = naira_text kobo
format_naira (negsuc n) = concat ("-" ∷ naira_text (suc n) ∷ [])

naira_grouped : format_naira (pos 123456789) ≡ "1,234,567.89"
unfolding format_naira decimal pad_zeros
naira_grouped = refl

-- The characters that `parseNairaToKobo` leaves out: the sign ₦, commas and white space
abbrev pub is_filler : ℕ → Bool
is_filler c = c == 8358 || c == b',' || is_white c

unfoldable pub clean : List ℕ → List ℕ
unfolding is_white
clean [] = []
clean (c ∷ cs) = if is_filler c then clean cs else c ∷ clean cs

-- The number that a text goes on with, and what follows it.
unfoldable pub take_number : ℕ → List ℕ → ℕ × List ℕ
take_number n [] = (n, [])
take_number n (c ∷ cs) =
    let more = take_number (n * 10 + (c - 48)) cs in if is_digit c then more else (n, c ∷ cs)

-- `(\.\d{1,2})?$` after the digits, and the amount in kobo
abbrev pub kobo_of : ℕ × List ℕ → Option ℕ
kobo_of (naira, []) = some (naira * 100)
kobo_of (naira, dot ∷ d ∷ []) =
    if dot == b'.' && is_digit d then some (naira * 100 + (d - 48) * 10) else none
kobo_of (naira, dot ∷ d ∷ e ∷ []) =
    if dot == b'.' && (is_digit d && is_digit e)
    then some (naira * 100 + (d - 48) * 10 + (e - 48))
    else none
kobo_of _ = none

abbrev pub read_kobo : List ℕ → Option ℕ
read_kobo [] = none
read_kobo (c ∷ cs) = if is_digit c then kobo_of (take_number (c - 48) cs) else none

-- `parseNairaToKobo`; `Number` and `Math.round` are exact below 2^53.
unfoldable pub parse_naira_to_kobo : String → Option ℕ
unfolding codes_of clean take_number
parse_naira_to_kobo input = read_kobo (clean (codes_of input))

naira_read : parse_naira_to_kobo "₦5,000.5" ≡ some 500050
unfolding parse_naira_to_kobo is_white
naira_read = refl
