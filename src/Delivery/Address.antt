-- ===== src/Delivery/Address.antt =====
-- webhook-ssrf.ts: which addresses of a merchant's endpoint are refused. A host is the list of its code points.
use mathlib.Core.Option
use meduman_backend.Prelude.{
  ltb, leb, ◌==◌, if◌then◌else◌, length, ◌===◌, ℕ, zero, suc, ◌+◌, ◌-◌, ◌*◌, ◌/◌, ◌%◌, String, Bool,
  true, false, not, ◌&&◌, ◌||◌, Option, none, some, List, [], ◌∷◌, ◌++◌, map,
}
use meduman_backend.Prelude.Codes.{
  starts_with, lower, same_codes, ends_with, split_on, split, parse_int,
}
use meduman_backend.Store.Action.{bad_request, ok, err, Action}

-- What `new URL` makes of a text.
pub record Url : Type 0 where
  pub protocol : String
  pub hostname : List ℕ

-- `new URL` and `isIP` of Node: no URL, and 0, 4 or 6 for a host.
pub record UrlParser : Type 0 where
  pub parse : String → Option Url
  pub family : List ℕ → ℕ

-- The comparisons with a number that may be missing or NaN
abbrev is_num : ℕ → Option ℕ → Bool
is_num n none = false
is_num n (some m) = m == n

abbrev within : Option ℕ → Bool
within none = false
within (some m) = leb 16 m && leb m 31

-- The tests on the first two numbers of a dotted quad, where a number may be missing or NaN.
unfoldable pub is_private_quad : Option ℕ → Option ℕ → Bool
is_private_quad o0 o1 =
    is_num 0 o0
    || is_num 10 o0
    || is_num 127 o0
    || (is_num 169 o0 && is_num 254 o1)
    || (is_num 192 o0 && is_num 168 o1)
    || (is_num 172 o0 && within o1)

abbrev first_two : List (List ℕ) → Bool
first_two [] = is_private_quad none none
first_two (a ∷ []) = is_private_quad (parse_int 10 a) none
first_two (a ∷ b ∷ parts) = is_private_quad (parse_int 10 a) (parse_int 10 b)

-- `isPrivateAddress` of family 4
unfoldable pub is_private_v4 : List ℕ → Bool
unfolding split_on parse_int is_private_quad
is_private_v4 addr = first_two (split b'.' addr)

-- `addr.split('::')`, as far as the code reads it: the text before the first `::`, and the text from there to the next.
unfoldable pub split_double : List ℕ → List ℕ × Option (List ℕ)
split_double [] = ([], none)
split_double (c ∷ []) = (c ∷ [], none)
split_double (c ∷ d ∷ cs) =
    let (head, tail) = split_double (d ∷ cs) in
    if c == b':' && d == b':' then ([], some (split_double cs).0) else (c ∷ head, tail)

abbrev pub groups_of : List ℕ → List (List ℕ)
groups_of [] = []
groups_of (c ∷ cs) = split b':' (c ∷ cs)

unfoldable pub zeros : ℕ → List (List ℕ)
zeros zero = []
zeros (suc n) = (b'0' ∷ []) ∷ zeros n

abbrev group_value : List ℕ → Option ℕ
group_value [] = parse_int 16 (b'0' ∷ [])
group_value (c ∷ cs) = parse_int 16 (c ∷ cs)

-- The values of the groups, unless one is NaN.
unfoldable pub hextets_of : List (List ℕ) → Option (List ℕ)
unfolding parse_int
hextets_of [] = some []
hextets_of (g ∷ gs) = elim (group_value g) [
  | none ↦ none
  | some v ↦ Option.map (λ vs. v ∷ vs) (hextets_of gs)
]

abbrev expand_groups : List (List ℕ) → List (List ℕ) → Option (List ℕ)
expand_groups head tail =
    if ltb 8 (length head + length tail)
    then none
    else hextets_of (head ++ zeros (8 - length head - length tail) ++ tail)

-- `expandIPv6Hextets`
unfoldable pub expand_hextets : List ℕ → Option (List ℕ)
unfolding split_double split_on zeros hextets_of
expand_hextets addr =
    let (head, tail) = split_double addr in
    elim tail [
      | none ↦ expand_groups (groups_of head) []
      | some t ↦ expand_groups (groups_of head) (groups_of t)
    ]

-- The decimal numeral of a byte, as code points
unfoldable pub byte_text : ℕ → List ℕ
byte_text n =
    if ltb n 10
    then (48 + n) ∷ []
    else (if ltb n 100
        then (48 + n / 10) ∷ (48 + n % 10) ∷ []
        else (48 + n / 100) ∷ (48 + n / 10 % 10) ∷ (48 + n % 10) ∷ [])

-- The dotted quad of the last two groups
unfoldable pub quad_of : ℕ → ℕ → List ℕ
unfolding byte_text
quad_of high low =
    let last32 = high * 65536 + low in
    byte_text (last32 / 16777216 % 256)
    ++ b'.'
      ∷ (byte_text (last32 / 65536 % 256)
          ++ b'.' ∷ (byte_text (last32 / 256 % 256) ++ b'.' ∷ byte_text (last32 % 256)))

abbrev mapped_groups : List ℕ → Option (List ℕ)
mapped_groups (a ∷ b ∷ c ∷ d ∷ e ∷ f ∷ high ∷ low ∷ []) =
    if a == 0 && b == 0 && c == 0 && d == 0 && e == 0 && f == 0xffff
    then some (quad_of high low)
    else none
mapped_groups _ = none

-- `extractIPv4MappedAddress`
unfoldable pub extract_mapped : List ℕ → Option (List ℕ)
unfolding expand_hextets quad_of
extract_mapped addr = elim (expand_hextets addr) [
  | none ↦ none
  | some hextets ↦ mapped_groups hextets
]

-- `isPrivateAddress` of family 6
unfoldable pub is_private_v6 : List ℕ → Bool
unfolding extract_mapped is_private_v4 starts_with same_codes
is_private_v6 addr =
    let a = map lower addr in
    if same_codes a (b':' ∷ b':' ∷ b'1' ∷ [])
      || starts_with (b'f' ∷ b'c' ∷ []) a
      || starts_with (b'f' ∷ b'd' ∷ []) a
      || starts_with (b'f' ∷ b'e' ∷ b'8' ∷ b'0' ∷ []) a
    then true
    else elim (extract_mapped a) [ none ↦ false | some quad ↦ is_private_v4 quad ]

abbrev pub is_private : List ℕ → ℕ → Bool
is_private addr family = if family == 6 then is_private_v6 addr else is_private_v4 addr

abbrev drop_last : List ℕ → List ℕ
drop_last [] = []
drop_last (c ∷ []) = []
drop_last (c ∷ d ∷ cs) = c ∷ drop_last (d ∷ cs)

-- Without the brackets of an IPv6 host
unfoldable pub bare_host : List ℕ → List ℕ
bare_host [] = []
bare_host (c ∷ cs) = if c == b'[' && ends_with (b']' ∷ []) (c ∷ cs) then drop_last cs else c ∷ cs

-- "localhost"
abbrev pub localhost : List ℕ
localhost = b'l' ∷ b'o' ∷ b'c' ∷ b'a' ∷ b'l' ∷ b'h' ∷ b'o' ∷ b's' ∷ b't' ∷ []

abbrev pub is_local : List ℕ → Bool
is_local host = same_codes host localhost || ends_with (b'.' ∷ localhost) host

module _ (urls : UrlParser) where
  -- Whether the checks let a URL through, and the message where they do not.
  abbrev check_host : List ℕ → Option String
  check_host host =
      let family = urls.family (bare_host host) in
      if is_local host || (not (family == 0) && is_private (bare_host host) family)
      then some "Webhook URL host is not permitted"
      else none

  abbrev check_url : Bool → Url → Option String
  check_url allow_http url =
      if not (url.protocol === "https:") && not (allow_http && url.protocol === "http:")
      then some "Webhook URL must use https"
      else check_host (map lower url.hostname)

  -- The refusal of `assertPublicUrl`; `none` where it returns.
  unfoldable pub url_refusal : String → Bool → Option String
  unfolding is_private_v4 is_private_v6 bare_host ends_with same_codes
  url_refusal raw_url allow_http = elim (urls.parse raw_url) [
    | none ↦ some "Invalid webhook URL"
    | some url ↦ check_url allow_http url
  ]

  -- `assertPublicUrl`
  abbrev pub assert_public_url : String → Bool → Action (Unit {0})
  assert_public_url raw_url allow_http w = elim (url_refusal raw_url allow_http) [
    | none ↦ (ok tt, w)
    | some m ↦ (err (bad_request m), w)
  ]
