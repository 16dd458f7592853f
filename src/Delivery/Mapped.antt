-- ===== src/Delivery/Mapped.antt =====
-- webhook-ssrf.ts: an IPv4 address inside an IPv6 one, in the hexadecimal form in which a parsed URL carries it.
use mathlib.Core.Option
use mathlib.Core.List.{map-append}
use meduman_backend.Prelude.{
  ltb, ◌==◌, if◌then◌else◌, length, All, ℕ, ◌+◌, ◌-◌, ◌*◌, ◌/◌, ◌%◌, ◌≤◌, ◌<◌, ◌≡◌, refl, ap, ◌∙◌,
  ◌⊎◌, true, false, Option, none, some, List, [], ◌∷◌, ◌++◌, map, arith,
}
use meduman_backend.Prelude.Codes.{lower, split_on, split, digit_value, parse_from, parse_int}
use meduman_backend.Delivery.Address.{
  is_private_quad, split_double, groups_of, zeros, hextets_of, expand_hextets, is_private_v6,
}
use meduman_backend.Delivery.AddressLaws.{HasNone, split_on-append, mapped_groups_refused}

-- The character of a hexadecimal digit, in lower case.
abbrev pub hex_digit : ℕ → ℕ
hex_digit d = if ltb d 10 then 48 + d else 87 + d

abbrev pub AreDigits : List ℕ → Type 0
AreDigits ds = All (λ d. d < 16) ds

-- The number whose hexadecimal digits follow those of `acc`.
abbrev pub hex_value : ℕ → List ℕ → ℕ
hex_value acc [] = acc
hex_value acc (d ∷ ds) = hex_value (acc * 16 + d) ds

-- `::ffff:<high>:<low>`
abbrev pub mapped_text : List ℕ → List ℕ → List ℕ
mapped_text high low =
    b':'
    ∷ b':'
    ∷ b'f'
    ∷ b'f'
    ∷ b'f'
    ∷ b'f'
    ∷ b':'
    ∷ (map hex_digit high ++ b':' ∷ map hex_digit low)

-- The first two numbers of an IPv4 range that a merchant's endpoint must not reach: this host, private, loopback or
-- link-local.
abbrev pub IsInternal : ℕ → ℕ → Type 0
IsInternal a b =
    (a ≡ 0)
    ⊎ (a ≡ 10)
    ⊎ (a ≡ 127)
    ⊎ ((a ≡ 169) × (b ≡ 254))
    ⊎ ((a ≡ 192) × (b ≡ 168))
    ⊎ ((a ≡ 172) × (16 ≤ b) × (b ≤ 31))

internal_refused : (a b : ℕ) → IsInternal a b → is_private_quad (some a) (some b) ≡ true
unfolding is_private_quad
internal_refused a b h = ground arith

lower_digits : (ds : List ℕ) → AreDigits ds → map lower (map hex_digit ds) ≡ map hex_digit ds
unfolding lower
lower_digits [] h = refl
lower_digits (d ∷ ds) (h, hs) = rw (lower_digits ds hs) (ground arith)

digits-HasNone : (ds : List ℕ) → AreDigits ds → HasNone b':' (map hex_digit ds)
digits-HasNone [] h = tt
digits-HasNone (d ∷ ds) (h, hs) = (ground arith, digits-HasNone ds hs)

digit_value_hex : (d : ℕ) → d < 16 → digit_value 16 (hex_digit d) ≡ some d
unfolding digit_value
digit_value_hex d h = ground arith

parse_from_hex :
    (acc : ℕ) (ds : List ℕ) → AreDigits ds → parse_from 16 acc (map hex_digit ds) ≡ hex_value acc ds
unfolding parse_from
parse_from_hex acc [] h = refl
parse_from_hex acc (d ∷ ds) (h, hs) =
    rw (digit_value_hex d h, parse_from) (parse_from_hex (acc * 16 + d) ds hs)

parse_int_hex :
    (d : ℕ) (ds : List ℕ)
    → AreDigits (d ∷ ds)
    → parse_int 16 (map hex_digit (d ∷ ds)) ≡ some (hex_value d ds)
unfolding parse_int
parse_int_hex d ds (h, hs) = rw (digit_value_hex d h, parse_int) (ap some (parse_from_hex d ds hs))

-- A character that is no colon stays before the first double colon.
split_double_step :
    (x : ℕ) (zs : List ℕ)
    → (x == b':') ≡ false
    → (split_double (x ∷ zs)).0 ≡ x ∷ (split_double zs).0
unfolding split_double
split_double_step x [] h = refl
split_double_step x (z ∷ zs) h = rw h refl

split_double_none : (xs : List ℕ) → HasNone b':' xs → (split_double xs).0 ≡ xs
unfolding split_double
split_double_none [] h = refl
split_double_none (x ∷ xs) (h, hs) =
    split_double_step x xs h ∙ ap (λ t. x ∷ t) (split_double_none xs hs)

split_double_colon :
    (xs ys : List ℕ) (y : ℕ)
    → HasNone b':' xs
    → (y == b':') ≡ false
    → (split_double (xs ++ b':' ∷ y ∷ ys)).0 ≡ xs ++ b':' ∷ (split_double (y ∷ ys)).0
unfolding split_double
split_double_colon [] ys y h k = rw k refl
split_double_colon (x ∷ xs) ys y (h, hs) k =
    split_double_step x _ h ∙ ap (λ t. x ∷ t) (split_double_colon xs ys y hs k)

split_on_none : (at : ℕ) (xs : List ℕ) → HasNone at xs → split_on at xs ≡ (xs, [])
unfolding split_on
split_on_none at [] h = refl
split_on_none at (x ∷ xs) (h, hs) = rw (split_on_none at xs hs, h) refl

hextets_step :
    (c : ℕ) (cs : List ℕ) (gs : List (List ℕ)) (v : ℕ) (vs : List ℕ)
    → parse_int 16 (c ∷ cs) ≡ some v
    → hextets_of gs ≡ some vs
    → hextets_of ((c ∷ cs) ∷ gs) ≡ some (v ∷ vs)
unfolding hextets_of
hextets_step c cs gs v vs h k = ground (arith, h, k)

-- "ffff"
abbrev ffff : List ℕ
ffff = b'f' ∷ b'f' ∷ b'f' ∷ b'f' ∷ []

module _ (h l : ℕ) (hs ls : List ℕ) (high : AreDigits (h ∷ hs)) (low : AreDigits (l ∷ ls)) where
  abbrev low_part : List ℕ
  low_part = map hex_digit (l ∷ ls)

  abbrev both_parts : List ℕ
  both_parts = map hex_digit (h ∷ hs) ++ b':' ∷ low_part

  lower_mapped : map lower (mapped_text (h ∷ hs) (l ∷ ls)) ≡ mapped_text (h ∷ hs) (l ∷ ls)
  unfolding lower
  lower_mapped =
      ap (λ t. b':' ∷ b':' ∷ (ffff ++ b':' ∷ t))
        (map-append lower (map hex_digit (h ∷ hs)) (b':' ∷ low_part)
          ∙ ap (λ t. t ++ b':' ∷ map lower low_part) (lower_digits (h ∷ hs) high)
          ∙ ap (λ t. map hex_digit (h ∷ hs) ++ b':' ∷ t) (lower_digits (l ∷ ls) low))

  one_double : (split_double (ffff ++ b':' ∷ both_parts)).0 ≡ ffff ++ b':' ∷ both_parts
  one_double =
      split_double_colon ffff _ (hex_digit h) (refl, (refl, (refl, (refl, tt))))
        (digits-HasNone (h ∷ hs) high).0
      ∙ ap (λ t. ffff ++ b':' ∷ t)
          (split_double_colon (map hex_digit (h ∷ hs)) (map hex_digit ls) (hex_digit l)
              (digits-HasNone (h ∷ hs) high) (digits-HasNone (l ∷ ls) low).0
            ∙ ap (λ t. map hex_digit (h ∷ hs) ++ b':' ∷ t)
                (split_double_none low_part (digits-HasNone (l ∷ ls) low)))

  three_groups :
      split b':' (ffff ++ b':' ∷ both_parts) ≡ ffff ∷ map hex_digit (h ∷ hs) ∷ low_part ∷ []
  three_groups =
      rw
        (
          split_on-append b':' ffff both_parts (refl, (refl, (refl, (refl, tt)))),
          split_on-append b':' (map hex_digit (h ∷ hs)) low_part (digits-HasNone (h ∷ hs) high),
          split_on_none b':' low_part (digits-HasNone (l ∷ ls) low),
        )
        refl

  abbrev values : List ℕ
  values = 0xffff ∷ hex_value h hs ∷ hex_value l ls ∷ []

  values_lem : hextets_of (ffff ∷ map hex_digit (h ∷ hs) ∷ low_part ∷ []) ≡ some values
  unfolding hextets_of
  values_lem =
      hextets_step b'f' (b'f' ∷ b'f' ∷ b'f' ∷ []) (map hex_digit (h ∷ hs) ∷ low_part ∷ []) 0xffff _
        refl
        (hextets_step (hex_digit h) (map hex_digit hs) (low_part ∷ []) (hex_value h hs) _
          (parse_int_hex h hs high)
          (hextets_step (hex_digit l) (map hex_digit ls) [] (hex_value l ls) []
            (parse_int_hex l ls low) refl))

  -- What follows the double colon, as its groups and as its values.
  abbrev of_groups : List (List ℕ) → Option (List ℕ)
  of_groups groups =
      if ltb 8 (0 + length groups)
      then none
      else hextets_of (zeros (8 - 0 - length groups) ++ groups)

  abbrev padded : Option (List ℕ) → Option (List ℕ)
  padded = Option.map (λ vs. 0 ∷ vs)

  expand_mapped : expand_hextets (mapped_text (h ∷ hs) (l ∷ ls)) ≡ some (0 ∷ 0 ∷ 0 ∷ 0 ∷ 0 ∷ values)
  unfolding expand_hextets split_double zeros hextets_of
  expand_mapped =
      ap (λ t. of_groups (groups_of t)) one_double
      ∙ ap of_groups three_groups
      ∙ ap (λ o. padded (padded (padded (padded (padded o))))) values_lem

  -- An IPv4 address `a.b.c.d` whose first two numbers are those of an internal range is refused where it stands inside an
  -- IPv6 address that is written `::ffff:<high>:<low>`, with the hexadecimal digits of `a * 256 + b` for high, and any
  -- below 65536 for low, leading zeros or none.
  pub mapped_address_refused :
      hex_value h hs < 65536
      → hex_value l ls < 65536
      → IsInternal (hex_value h hs / 256) (hex_value h hs % 256)
      → is_private_v6 (mapped_text (h ∷ hs) (l ∷ ls)) ≡ true
  mapped_address_refused below below' internal =
      mapped_groups_refused (mapped_text (h ∷ hs) (l ∷ ls)) (hex_value h hs) (hex_value l ls)
        (ap expand_hextets lower_mapped ∙ expand_mapped) below below'
        (internal_refused _ _ internal)
