-- ===== src/Prelude/Text.antt =====
-- Texts: equality under its own name (`==` is that of numbers), joining, and decimal numerals.
use Prim.Native.Nat.{ℕ, zero, suc, ◌+◌, ◌/◌, ◌%◌}
use Prim.Native.Char.{code}
use Prim.Native.String
use Prim.Native.String.{String}
use mathlib.Core.Path.{◌≡◌, refl}
use mathlib.Core.Bool.{Bool, ◌&&◌, ◌||◌}
use mathlib.Core.List.{List, [], ◌∷◌}
use text.Mathlib.Text.{◌==◌ as text_eq}
use meduman_backend.Prelude.Tests.{ltb, leb, ◌==◌, if◌then◌else◌}

-- `a === b` on texts
infix 50 ◌===◌
abbrev pub ◌===◌ : String → String → Bool
a === b = text_eq a b

-- The parts of a template literal, joined.
abbrev pub concat : List String → String
concat [] = ""
concat (s ∷ ss) = String.◌++◌ s (concat ss)

digit_at : ℕ → List String → String
digit_at n [] = ""
digit_at zero (d ∷ ds) = d
digit_at (suc n) (d ∷ ds) = digit_at n ds

digit : ℕ → String
unfolding digit_at
digit n = digit_at n ("0" ∷ "1" ∷ "2" ∷ "3" ∷ "4" ∷ "5" ∷ "6" ∷ "7" ∷ "8" ∷ "9" ∷ [])

-- A number has fewer digits than its value plus one, so that fuel is enough.
decimal_from : ℕ → ℕ → String
unfolding digit
decimal_from zero n = ""
decimal_from (suc fuel) n =
    let rest = decimal_from fuel (n / 10) in
    if ltb n 10 then digit n else concat (rest ∷ digit (n % 10) ∷ [])

-- `String(n)`
unfoldable pub decimal : ℕ → String
unfolding decimal_from
decimal n = decimal_from (n + 1) n

decimal_two_digits : decimal 40 ≡ "40"
unfolding decimal
decimal_two_digits = refl

-- `s.replace(/-/g, '')`
unfoldable pub without_dashes : String → String
without_dashes String.[] = String.[]
without_dashes (String.◌∷◌ c s) =
    let rest = without_dashes s in if code c == 45 then rest else String.◌∷◌ c rest

without_dashes_uuid : without_dashes "9b1d-4f" ≡ "9b1d4f"
unfolding without_dashes
without_dashes_uuid = refl

-- `s.padStart(n, '0')`
unfoldable pub pad_zeros : ℕ → String → String
pad_zeros zero s = s
pad_zeros (suc n) s =
    let rest = pad_zeros n s in
    if ltb (String.len s) (suc n) then concat ("0" ∷ rest ∷ []) else rest

pad_zeros_short : pad_zeros 4 "42" ≡ "0042"
unfolding pad_zeros
pad_zeros_short = refl

-- The code points of a text
unfoldable pub codes_of : String → List ℕ
codes_of String.[] = []
codes_of (String.◌∷◌ c s) = code c ∷ codes_of s

-- `s.slice(0, n)` of a text without surrogate pairs
unfoldable pub take_text : ℕ → String → String
take_text zero s = ""
take_text (suc n) String.[] = ""
take_text (suc n) (String.◌∷◌ c s) = String.◌∷◌ c (take_text n s)

-- White space of `trim` and of `\s`, by code point.
unfoldable pub is_white : ℕ → Bool
is_white c =
    (leb 9 c && leb c 13)
    || c == 32
    || c == 160
    || c == 5760
    || (leb 8192 c && leb c 8202)
    || c == 8232
    || c == 8233
    || c == 8239
    || c == 8287
    || c == 12288
    || c == 65279

-- `s.replace(/\s+/g, '')`
unfoldable pub without_white : String → String
unfolding is_white
without_white String.[] = String.[]
without_white (String.◌∷◌ c s) =
    let rest = without_white s in if is_white (code c) then rest else String.◌∷◌ c rest

trim_start : String → String
unfolding is_white
trim_start String.[] = String.[]
trim_start (String.◌∷◌ c s) =
    let rest = trim_start s in if is_white (code c) then rest else String.◌∷◌ c s

-- The text up to its last character that is not white.
trim_end : String → String
unfolding is_white
trim_end String.[] = String.[]
trim_end (String.◌∷◌ c s) =
    let rest = trim_end s in
    if is_white (code c) && rest === "" then String.[] else String.◌∷◌ c rest

-- `s.trim()`
unfoldable pub trim : String → String
unfolding trim_start trim_end
trim s = trim_end (trim_start s)

trim_both_sides : trim "  ab c " ≡ "ab c"
unfolding trim
trim_both_sides = refl
