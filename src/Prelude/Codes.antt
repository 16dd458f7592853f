-- ===== src/Prelude/Codes.antt =====
-- Texts that a program walks character by character, as lists of code points.
use Prim.Native.Nat.{ℕ, ◌+◌, ◌-◌, ◌*◌}
use mathlib.Core.Bool.{Bool, true, false, ◌&&◌, ◌||◌}
use mathlib.Core.Option.{Option, none, some}
use mathlib.Core.List.{List, [], ◌∷◌}
use meduman_backend.Prelude.Tests.{ltb, leb, ◌==◌, if◌then◌else◌}

abbrev pub is_digit : ℕ → Bool
is_digit c = leb 48 c && leb c 57

abbrev pub all : (ℕ → Bool) → List ℕ → Bool
all p [] = true
all p (c ∷ cs) = p c && all p cs

-- `startsWith`
unfoldable pub starts_with : List ℕ → List ℕ → Bool
starts_with [] cs = true
starts_with (p ∷ ps) [] = false
starts_with (p ∷ ps) (c ∷ cs) = p == c && starts_with ps cs

-- `toLowerCase` on the letters that a host may have
unfoldable pub lower : ℕ → ℕ
lower c = if leb b'A' c && leb c b'Z' then c + 32 else c

unfoldable pub same_codes : List ℕ → List ℕ → Bool
same_codes [] [] = true
same_codes [] (d ∷ ds) = false
same_codes (c ∷ cs) [] = false
same_codes (c ∷ cs) (d ∷ ds) = c == d && same_codes cs ds

-- `endsWith`
unfoldable pub ends_with : List ℕ → List ℕ → Bool
unfolding same_codes
ends_with suffix [] = same_codes suffix []
ends_with suffix (c ∷ cs) = same_codes suffix (c ∷ cs) || ends_with suffix cs

-- `split` at one character: the first part, and the rest
unfoldable pub split_on : ℕ → List ℕ → List ℕ × List (List ℕ)
split_on at [] = ([], [])
split_on at (c ∷ cs) =
    let (part, parts) = split_on at cs in if c == at then ([], part ∷ parts) else (c ∷ part, parts)

abbrev pub split : ℕ → List ℕ → List (List ℕ)
split at cs = let (part, parts) = split_on at cs in part ∷ parts

-- The value of a digit in a base up to 16; `none` for another character.
unfoldable pub digit_value : ℕ → ℕ → Option ℕ
digit_value base c =
    let v : ℕ =
      if leb b'0' c && leb c b'9'
      then c - 48
      else (if leb b'a' c && leb c b'f' then c - 87 else base) in
    if ltb v base then some v else none

-- The value of the digits that a text starts with.
unfoldable pub parse_from : ℕ → ℕ → List ℕ → ℕ
parse_from base acc [] = acc
parse_from base acc (c ∷ cs) = elim (digit_value base c) [
  | none ↦ acc
  | some v ↦ parse_from base (acc * base + v) cs
]

-- `Number.parseInt` of a text without white space and sign; `none` is NaN.
unfoldable pub parse_int : ℕ → List ℕ → Option ℕ
unfolding digit_value parse_from
parse_int base [] = none
parse_int base (c ∷ cs) = elim (digit_value base c) [
  | none ↦ none
  | some v ↦ some (parse_from base v cs)
]
