-- ===== src/Web/Strings/Laws.antt =====
-- What the functions on texts promise.
use fips_dropbox.Prelude.{
  ℕ, zero, suc, ◌+◌, ◌-◌, ◌*◌, ◌/◌, ◌%◌, ◌≤◌, ◌<◌, ◌≡◌, ◌≢◌, refl, ap, ◌∙◌, Bool, true, false, not,
  ◌&&◌, Option, none, some, [], ◌∷◌, ◌++◌, arith, take, length, filter_by, ltb, leb, ◌==◌, lt→ltb,
  Bool-cases, Option-cases, inl, inr, if◌then◌else◌,
}
use fips_dropbox.Prelude.Table.Laws.{All}
use fips_dropbox.Text.{Text, len, slice_to, utf8_len}
use fips_dropbox.Web.Strings.{
  is_forbidden, sanitize_filename, combined, short_target_meta, is_unreserved, hex_upper, hex_02,
  urlencode,
}

-- A character that a file name in a header may hold: no quote, line end, NUL or separator.
pub record IsSafe (c : ℕ) : Type 0 where
  pub quote : c ≢ b'"'
  pub carriage_return : c ≢ b'\r'
  pub line_feed : c ≢ b'\n'
  pub nul : c ≢ 0
  pub slash : c ≢ b'/'
  pub backslash : c ≢ b'\\'

-- `t` is `s` without its unsafe characters.
pub data Drops : Text → Text → Type 0 where
  none_left : Drops [] []
  keeps : {s t : Text} (c : ℕ) → IsSafe c → Drops s t → Drops (c ∷ s) (c ∷ t)
  drops : {s t : Text} (c : ℕ) → ¬ IsSafe c → Drops s t → Drops (c ∷ s) t

allowed : (c : ℕ) → is_forbidden c ≡ false → IsSafe c
unfolding is_forbidden
allowed c h = record {
  quote = λ e. ground arith;
  carriage_return = λ e. ground arith;
  line_feed = λ e. ground arith;
  nul = λ e. ground arith;
  slash = λ e. ground arith;
  backslash = λ e. ground arith;
}

refused : (c : ℕ) → is_forbidden c ≡ true → ¬ IsSafe c
unfolding is_forbidden
refused c h safe =
    ground (
      arith, safe.quote, safe.carriage_return, safe.line_feed, safe.nul, safe.slash, safe.backslash,
    )

filter_by-Drops : (s : Text) → Drops s (filter_by (λ c. not (is_forbidden c)) s)
filter_by-Drops [] = none_left
filter_by-Drops (c ∷ s) = elim (Bool-cases (is_forbidden c)) [
  | inl h ↦ rw h (drops c (refused c h) (filter_by-Drops s))
  | inr h ↦ rw h (keeps c (allowed c h) (filter_by-Drops s))
]

Drops-All : (s t : Text) → Drops s t → All IsSafe t
Drops-All _ _ none_left = tt
Drops-All _ _ (keeps {s = s} {t = t} c safe d) = (safe, Drops-All s t d)
Drops-All _ t (drops {s = s} c unsafe d) = Drops-All s t d

-- A safe text loses nothing.
Drops-same : (s t : Text) → Drops s t → All IsSafe s → t ≡ s
Drops-same _ _ none_left safe = refl
Drops-same _ _ (keeps {s = s} {t = t} c ok d) safe = ap (λ u. c ∷ u) (Drops-same s t d safe.1)
Drops-same _ t (drops {s = s} c unsafe d) safe = absurd (unsafe safe.0)

All-take : (n : ℕ) (s : Text) → All IsSafe s → All IsSafe (take n s)
All-take zero s h = tt
All-take (suc n) [] h = tt
All-take (suc n) (c ∷ s) h = (h.0, All-take n s h.1)

length-take_le : (n : ℕ) (s : Text) → length (take n s) ≤ n
length-take_le zero s = omega arith
length-take_le (suc n) [] = omega arith
length-take_le (suc n) (c ∷ s) = omega (arith, length-take_le n s)

take-short : (n : ℕ) (s : Text) → length s ≤ n → take n s ≡ s
take-short zero [] h = refl
take-short zero (c ∷ s) h = absurd (omega arith)
take-short (suc n) [] h = refl
take-short (suc n) (c ∷ s) h = ap (λ t. c ∷ t) (take-short n s (omega arith))

-- A sanitized file name is the first 255 characters of the name without its quotes, line ends, NULs
-- and separators; so it has none of these, and 255 characters at most; and a name that is so
-- already stays as it is.
pub sanitize_filename_lem :
    (name : Text)
    → ((rest : Text) × Drops name rest × (sanitize_filename name ≡ take 255 rest))
      × All IsSafe (sanitize_filename name)
      × (length (sanitize_filename name) ≤ 255)
      × (All IsSafe name → length name ≤ 255 → sanitize_filename name ≡ name)
unfolding sanitize_filename
sanitize_filename_lem name =
    let rest = filter_by (λ c. not (is_forbidden c)) name in
    let d = filter_by-Drops name in
    (
      (rest, d, refl),
      All-take 255 rest (Drops-All name rest d),
      length-take_le 255 rest,
      λ safe short. ap (take 255) (Drops-same name rest d safe) ∙ take-short 255 name short,
    )

len-append : (s t : Text) → len (s ++ t) ≡ len s + len t
unfolding len
len-append [] t = omega arith
len-append (c ∷ s) t = omega (arith, len-append s t)

len-slice_to : (n : ℕ) (s : Text) {t : Text} → slice_to n s ≡ some t → len t ≡ n
unfolding slice_to len utf8_len
len-slice_to zero s {t} h = ground arith
len-slice_to (suc n) [] h = cc
len-slice_to (suc n) (c ∷ s) {t} h = elim (Option-cases (slice_to (suc n - utf8_len c) s)) [
  | inl absent ↦ ground (arith)
  | inr (u, e) ↦ ground (arith, len-slice_to (suc n - utf8_len c) s {t = u} e)
]

short_cut :
    (all : Text) {shown : Text}
    → (if ltb 200 (len all)
        then elim (slice_to 197 all) [ none ↦ none | some head ↦ some (head ++ 0x2026 ∷ []) ]
        else some all)
      ≡ some shown
    → len shown ≤ 200
unfolding len utf8_len
short_cut all {shown} h = elim (Option-cases (slice_to 197 all)) [
  | inl absent ↦ ground arith
  | inr (head, e) ↦ ground (arith, len-slice_to 197 all {t = head} e, len-append head (0x2026 ∷ []))
]

-- What the audit page shows of the target and the meta data of an event has 200 bytes at most.
pub short_target_meta-len :
    (t m : Text) {shown : Text} → short_target_meta t m ≡ some shown → len shown ≤ 200
unfolding short_target_meta
short_target_meta-len t m {shown} h = short_cut (combined t m) h

-- Percent decoding, by RFC 3986: where the decoder is.
pub data Pending : Type 0 where
  outside high : Pending
  low : ℕ → Pending

unfoldable pub hex_value : ℕ → Option ℕ
hex_value c =
    if leb b'0' c && leb c b'9'
    then some (c - b'0')
    else if leb b'A' c && leb c b'F'
    then some (c - b'A' + 10)
    else none

abbrev pub cons_to : ℕ → Option Text → Option Text
cons_to c none = none
cons_to c (some s) = some (c ∷ s)

unfoldable pub percent_decode : Pending → Text → Option Text
percent_decode outside [] = some []
percent_decode _ [] = none
percent_decode outside (c ∷ s) =
    let escape = percent_decode high s in
    let rest = percent_decode outside s in if c == b'%' then escape else cons_to c rest
percent_decode high (c ∷ s) = elim (hex_value c) [ none ↦ none | some h ↦ percent_decode (low h) s ]
percent_decode (low h) (c ∷ s) =
    let rest = percent_decode outside s in
    elim (hex_value c) [ none ↦ none | some l ↦ cons_to (16 * h + l) rest ]

hex_value-hex_upper : (d : ℕ) → d < 16 → hex_value (hex_upper d) ≡ some d
unfolding hex_value hex_upper
hex_value-hex_upper d h = ground arith

-- No character is of the kind.
abbrev free_of : (ℕ → Bool) → Text → Bool
free_of p [] = true
free_of p (c ∷ s) = if p c then false else free_of p s

abbrev pub is_wide : ℕ → Bool
is_wide c = leb 0x80 c

hex_02-byte : (n c : ℕ) → c < 256 → hex_02 (suc n) c ≡ hex_upper (c / 16) ∷ hex_upper (c % 16) ∷ []
unfolding hex_02
hex_02-byte n c h =
    rw (lt→ltb c 256 h) (ap (λ d. hex_upper d ∷ hex_upper (c % 16) ∷ []) (omega arith))

decode_escape :
    (c : ℕ) (s : Text)
    → c < 256
    → percent_decode outside (b'%' ∷ hex_upper (c / 16) ∷ hex_upper (c % 16) ∷ s)
      ≡ cons_to c (percent_decode outside s)
unfolding percent_decode
decode_escape c s h =
    rw (hex_value-hex_upper (c / 16) (omega arith), hex_value-hex_upper (c % 16) (omega arith))
      (ap (λ d. cons_to d (percent_decode outside s)) (omega arith))

decode_unreserved :
    (c : ℕ) (s : Text)
    → is_unreserved c ≡ true
    → percent_decode outside (c ∷ s) ≡ cons_to c (percent_decode outside s)
unfolding percent_decode is_unreserved
decode_unreserved c s h = ground arith

decode_one :
    (c : ℕ) (s : Text)
    → is_wide c ≡ false
    → percent_decode outside ((if is_unreserved c then c ∷ [] else b'%' ∷ hex_02 4 c) ++ s)
      ≡ cons_to c (percent_decode outside s)
decode_one c s h = elim (Bool-cases (is_unreserved c)) [
  | inl e ↦ rw e (decode_unreserved c s e)
  | inr e ↦ rw (e, hex_02-byte 3 c (ground arith)) (decode_escape c s (ground arith))
]

-- An ASCII text that `urlencode` writes into a query is decoded to itself.
decode-urlencode :
    (s : Text) → free_of is_wide s ≡ true → percent_decode outside (urlencode s) ≡ some s
unfolding urlencode percent_decode
decode-urlencode [] h = refl
decode-urlencode (c ∷ s) h =
    decode_one c (urlencode s) (ground arith) ∙ ap (cons_to c) (decode-urlencode s (ground arith))
