-- ===== src/Delivery/AddressLaws.antt =====
-- webhook-ssrf.ts: the text of an IPv4 address in an IPv6 one is read back as its numbers.
use meduman_backend.Prelude.{
  ltb, ◌==◌, Bool-cases, All, ℕ, ◌+◌, ◌*◌, ◌/◌, ◌%◌, ◌<◌, ◌≡◌, refl, ap, ◌∙◌, inl, inr, true, false,
  some, List, [], ◌∷◌, ◌++◌, map, arith,
}
use meduman_backend.Prelude.Codes.{lower, split_on, split, digit_value, parse_from, parse_int}
use meduman_backend.Delivery.Address.{
  is_private_quad, is_private_v4, expand_hextets, byte_text, quad_of, extract_mapped, is_private_v6,
}

digit_value_lem : (d : ℕ) → d < 10 → digit_value 10 (48 + d) ≡ some d
unfolding digit_value
digit_value_lem d h = ground arith

parse_from_lem :
    (acc d : ℕ) (cs : List ℕ)
    → d < 10
    → parse_from 10 acc ((48 + d) ∷ cs) ≡ parse_from 10 (acc * 10 + d) cs
unfolding parse_from
parse_from_lem acc d cs h = rw (digit_value_lem d h, parse_from) refl

parse_int_lem :
    (d : ℕ) (cs : List ℕ) → d < 10 → parse_int 10 ((48 + d) ∷ cs) ≡ some (parse_from 10 d cs)
unfolding parse_int
parse_int_lem d cs h = rw (digit_value_lem d h, parse_int) refl

-- The decimal numeral of a byte is read as that byte.
parse_int-byte_text : (n : ℕ) → n < 256 → parse_int 10 (byte_text n) ≡ some n
unfolding byte_text parse_from
parse_int-byte_text n h = elim (Bool-cases (ltb n 10)) [
  | inl one ↦ rw one (parse_int_lem n [] (ground arith))
  | inr more ↦ elim (Bool-cases (ltb n 100)) [
    | inl two ↦
        rw (more, two)
          (parse_int_lem (n / 10) _ (ground arith)
            ∙ ap some (parse_from_lem (n / 10) (n % 10) [] (omega arith) ∙ omega arith))
    | inr three ↦
        rw (more, three)
          (parse_int_lem (n / 100) _ (omega arith)
            ∙ ap some (
                parse_from_lem (n / 100) (n / 10 % 10) ((48 + n % 10) ∷ []) (omega arith)
                ∙ parse_from_lem (n / 100 * 10 + n / 10 % 10) (n % 10) [] (omega arith)
                ∙ omega arith))
  ]
]

-- No character of a text is the separator.
abbrev pub HasNone : ℕ → List ℕ → Type 0
HasNone at cs = All (λ c. (c == at) ≡ false) cs

byte_text-HasNone : (n : ℕ) → n < 256 → HasNone b'.' (byte_text n)
unfolding byte_text
byte_text-HasNone n h = ground arith

pub split_on-append :
    (at : ℕ) (xs ys : List ℕ) → HasNone at xs → split_on at (xs ++ at ∷ ys) ≡ (xs, split at ys)
unfolding split_on
split_on-append at [] ys h = ground arith
split_on-append at (x ∷ xs) ys (h, hs) = rw (split_on-append at xs ys hs, h) refl

-- Of a dotted text the first two numbers decide.
dotted-is_private :
    (a b : ℕ) (rest : List ℕ)
    → a < 256
    → b < 256
    → is_private_v4 (byte_text a ++ b'.' ∷ (byte_text b ++ b'.' ∷ rest))
      ≡ is_private_quad (some a) (some b)
unfolding is_private_v4
dotted-is_private a b rest h k =
    rw
      (
        split_on-append b'.' (byte_text a) (byte_text b ++ b'.' ∷ rest) (byte_text-HasNone a h),
        split_on-append b'.' (byte_text b) rest (byte_text-HasNone b k),
        parse_int-byte_text a h,
        parse_int-byte_text b k,
      )
      refl

-- The verdict on the dotted quad of two groups is that on the upper group's two bytes.
quad_of-is_private :
    (high low : ℕ)
    → high < 65536
    → low < 65536
    → is_private_v4 (quad_of high low) ≡ is_private_quad (some (high / 256)) (some (high % 256))
unfolding quad_of
quad_of-is_private high low h k =
    dotted-is_private ((high * 65536 + low) / 16777216 % 256) ((high * 65536 + low) / 65536 % 256)
      (byte_text ((high * 65536 + low) / 256 % 256)
        ++ b'.' ∷ byte_text ((high * 65536 + low) % 256))
      (omega arith) (omega arith)
    ∙ rw (first, second) refl
  where
    first : (high * 65536 + low) / 16777216 % 256 ≡ high / 256
    first = omega (arith, h, k)

    second : (high * 65536 + low) / 65536 % 256 ≡ high % 256
    second = omega (arith, h, k)

-- An IPv6 address that is read as the groups of `::ffff:a.b.c.d` is refused where `a.b` would be.
pub mapped_groups_refused :
    (addr : List ℕ) (high low : ℕ)
    → expand_hextets (map lower addr) ≡ some (0 ∷ 0 ∷ 0 ∷ 0 ∷ 0 ∷ 0xffff ∷ high ∷ low ∷ [])
    → high < 65536
    → low < 65536
    → is_private_quad (some (high / 256)) (some (high % 256)) ≡ true
    → is_private_v6 addr ≡ true
unfolding is_private_v6 extract_mapped
mapped_groups_refused addr high low e h k private =
    rw (e, quad_of-is_private high low h k, private) (ground arith)
