-- ===== src/Web/Strings.antt =====
-- The functions on texts of crates/web/src/lib.rs, and what they use of Rust's `str`.
pub mod Laws
use fips_dropbox.Prelude.{
  ℕ, zero, suc, ◌+◌, ◌-◌, ◌*◌, ◌/◌, ◌%◌, ◌^◌, Bool, true, false, not, ◌&&◌, ◌||◌, Option, none,
  some, List, [], ◌∷◌, ◌++◌, codes, take, any, filter_by, ltb, leb, ◌==◌, list_eq, is_empty,
  if◌then◌else◌,
}
use fips_dropbox.Text.{Text, len, slice_to, utf8_len, trim}

-- `str::split` at one character: the first part, and the rest.
pub record Parts : Type 0 where
  pub first : Text
  pub more : List Text

abbrev split_step : ℕ → ℕ → Parts → Parts
split_step sep c p =
    if c == sep
    then record { first = []; more = p.first ∷ p.more }
    else record { first = c ∷ p.first; more = p.more }

unfoldable pub split_parts : ℕ → Text → Parts
split_parts sep [] = record { first = []; more = [] }
split_parts sep (c ∷ s) = split_step sep c (split_parts sep s)

unfoldable pub split : ℕ → Text → List Text
unfolding split_parts
split sep s = let p = split_parts sep s in p.first ∷ p.more

-- `str::find` of one character with `split_at` there: what is before it, and what follows it.
unfoldable pub split_once : ℕ → Text → Option (Text × Text)
split_once sep [] = none
split_once sep (c ∷ s) =
    let rest = split_once sep s in
    if c == sep
    then some ([], s)
    else elim rest [ none ↦ none | some (before, after) ↦ some (c ∷ before, after) ]

-- `str::strip_prefix`
unfoldable pub strip_prefix : Text → Text → Option Text
strip_prefix [] s = some s
strip_prefix (c ∷ prefix) [] = none
strip_prefix (c ∷ prefix) (d ∷ s) =
    let rest = strip_prefix prefix s in if c == d then rest else none

-- `&s[n..]`: `none` is the panic of a slice that does not begin at a character boundary.
unfoldable pub slice_from : ℕ → Text → Option Text
unfolding utf8_len
slice_from zero s = some s
slice_from (suc n) [] = none
slice_from (suc n) (c ∷ s) =
    let rest = slice_from (suc n - utf8_len c) s in if leb (utf8_len c) (suc n) then rest else none

-- `s.parse::<u32>()`: digits after an optional plus sign.
digits_from : ℕ → Text → Option ℕ
digits_from n [] = some n
digits_from n (c ∷ s) =
    let next = n * 10 + (c - b'0') in
    let rest = digits_from next s in
    if leb b'0' c && leb c b'9' && ltb next (2 ^ 32) then rest else none

abbrev unsigned_digits : Text → Option ℕ
unsigned_digits [] = none
unsigned_digits (c ∷ s) = digits_from 0 (c ∷ s)

unfoldable pub parse_u32 : Text → Option ℕ
unfolding digits_from
parse_u32 [] = none
parse_u32 (c ∷ s) = if c == b'+' then unsigned_digits s else unsigned_digits (c ∷ s)

-- `format!("{}…{}", &id[..8], &id[id.len() - 4..])`; `none` is the panic of a slice.
unfoldable pub short_id : Text → Option Text
short_id id =
    if ltb 13 (len id)
    then elim (slice_to 8 id) [
      | none ↦ none
      | some head ↦ elim (slice_from (len id - 4) id) [
        | none ↦ none
        | some tail ↦ some (head ++ 0x2026 ∷ tail)
      ]
    ]
    else some id

abbrev empty_object : Text
empty_object = codes "{}"

-- What `short_target_meta` cuts, of the JSON texts of the target and the meta data.
unfoldable pub combined : Text → Text → Text
combined t m =
    if list_eq t empty_object && list_eq m empty_object
    then []
    else if list_eq t empty_object
    then m
    else if list_eq m empty_object
    then t
    else t ++ b' ' ∷ m

-- `none` is the panic of the slice.
unfoldable pub short_target_meta : Text → Text → Option Text
unfolding combined
short_target_meta t m =
    let all = combined t m in
    if ltb 200 (len all)
    then elim (slice_to 197 all) [ none ↦ none | some head ↦ some (head ++ 0x2026 ∷ []) ]
    else some all

unfoldable pub is_unreserved : ℕ → Bool
is_unreserved c =
    (leb b'A' c && leb c b'Z')
    || (leb b'a' c && leb c b'z')
    || (leb b'0' c && leb c b'9')
    || c == b'-'
    || c == b'_'
    || c == b'.'
    || c == b'~'

hex_upper : ℕ → ℕ
hex_upper n = if ltb n 10 then b'0' + n else b'A' + n - 10

-- `{:02X}`: two digits, or as many as it takes up to a number of further ones.
unfoldable pub hex_02 : ℕ → ℕ → Text
unfolding hex_upper
hex_02 zero n = hex_upper (n / 16 % 16) ∷ hex_upper (n % 16) ∷ []
hex_02 (suc digits) n =
    let longer = hex_02 digits (n / 16) ++ hex_upper (n % 16) ∷ [] in
    if ltb n 256 then hex_upper (n / 16 % 16) ∷ hex_upper (n % 16) ∷ [] else longer

-- A code point has six hexadecimal digits at most.
unfoldable pub urlencode : Text → Text
unfolding is_unreserved hex_02
urlencode [] = []
urlencode (c ∷ s) = (if is_unreserved c then c ∷ [] else b'%' ∷ hex_02 4 c) ++ urlencode s

-- What `sanitize_filename` drops: quotes, line ends, NUL and separators.
unfoldable pub is_forbidden : ℕ → Bool
is_forbidden c = any (λ d. d == c) (b'"' ∷ b'\r' ∷ b'\n' ∷ 0 ∷ b'/' ∷ b'\\' ∷ [])

unfoldable pub sanitize_filename : Text → Text
unfolding is_forbidden
sanitize_filename name = take 255 (filter_by (λ c. not (is_forbidden c)) name)
