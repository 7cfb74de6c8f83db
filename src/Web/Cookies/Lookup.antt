-- ===== src/Web/Cookies/Lookup.antt =====
-- The cookies that a browser sends back, and what is read of them.
use mathlib.Core.List.{reverse-cons, reverse-reverse}
use fips_dropbox.Prelude.{
  ◌≡◌, refl, ap, ◌∙◌, Bool, true, false, ◌||◌, Option, none, some, List, [], ◌∷◌, ◌++◌, reverse,
  append-nil, codes, arith, list_eq, ◌==◌, if◌then◌else◌,
}
use fips_dropbox.Text.{Text, is_whitespace, trim_start, trim}
use fips_dropbox.Web.Strings.{split_parts, split, split_once}
use fips_dropbox.Web.Http.{Headers}
use fips_dropbox.Web.Cookies.{cookie_in, cookie_value}

-- A cookie pair, by RFC 6265.
abbrev pub cookie_pair : Text × Text → Text
cookie_pair (name, value) = name ++ b'=' ∷ value

-- The header of a user agent: the pairs, with a semicolon and a space between two.
abbrev more_pairs : List (Text × Text) → Text
more_pairs [] = []
more_pairs (pair ∷ pairs) = b';' ∷ b' ' ∷ (cookie_pair pair ++ more_pairs pairs)

abbrev pub cookie_header : Text × Text → List (Text × Text) → Text
cookie_header pair pairs = cookie_pair pair ++ more_pairs pairs

-- No octet that the grammar of a cookie forbids: white space and semicolons.
abbrev pub is_plain : Text → Bool
is_plain [] = true
is_plain (c ∷ s) = if is_whitespace c || c == b';' then false else is_plain s

abbrev no_equals : Text → Bool
no_equals [] = true
no_equals (c ∷ s) = if c == b'=' then false else no_equals s

-- Names and values by the grammar.
abbrev pub IsCookie : Text × Text → Type 0
IsCookie (name, value) = (is_plain name ≡ true) × (no_equals name ≡ true) × (is_plain value ≡ true)

abbrev pub AreCookies : List (Text × Text) → Type 0
AreCookies [] = Unit
AreCookies (pair ∷ pairs) = IsCookie pair × AreCookies pairs

-- The value of the first pair of a name.
abbrev pub lookup : Text → List (Text × Text) → Option Text
lookup name [] = none
lookup name ((key, value) ∷ pairs) = if list_eq key name then some value else lookup name pairs

is_plain-append : (s t : Text) → is_plain s ≡ true → is_plain t ≡ true → is_plain (s ++ t) ≡ true
is_plain-append [] t h k = k
is_plain-append (c ∷ s) t h k = ground (arith, is_plain-append s t)

pair_is_plain : (pair : Text × Text) → IsCookie pair → is_plain (cookie_pair pair) ≡ true
unfolding is_whitespace
pair_is_plain (name, value) (n, e, v) = is_plain-append name (b'=' ∷ value) n (ground arith)

is_plain-reverse : (s : Text) → is_plain s ≡ true → is_plain (reverse s) ≡ true
is_plain-reverse [] h = refl
is_plain-reverse (c ∷ s) h =
    rw (reverse-cons c s)
      (is_plain-append (reverse s) (c ∷ []) (is_plain-reverse s (ground arith)) (ground arith))

trim_start-plain : (s : Text) → is_plain s ≡ true → trim_start s ≡ s
unfolding trim_start
trim_start-plain [] h = refl
trim_start-plain (c ∷ s) h = ground arith

trim-plain : (s : Text) → is_plain s ≡ true → trim s ≡ s
unfolding trim
trim-plain s h =
    rw (trim_start-plain s h, trim_start-plain (reverse s) (is_plain-reverse s h))
      (reverse-reverse s)

trim-space : (s : Text) → trim (b' ' ∷ s) ≡ trim s
unfolding trim trim_start is_whitespace
trim-space s = refl

split_once-pair :
    (name value : Text)
    → no_equals name ≡ true
    → split_once b'=' (cookie_pair (name, value)) ≡ some (name, value)
unfolding split_once
split_once-pair [] value h = refl
split_once-pair (c ∷ name) value h = ground (arith, split_once-pair name value)

-- A part without semicolons is in front of the first part.
split_parts-append :
    (s t : Text)
    → is_plain s ≡ true
    → split_parts b';' (s ++ t)
      ≡ record { first = s ++ (split_parts b';' t).first; more = (split_parts b';' t).more }
unfolding split_parts
split_parts-append [] t h = refl
split_parts-append (c ∷ s) t h = ground (arith, split_parts-append s t)

-- What the loop makes of a part that is a cookie pair.
cookie_in-pair :
    (name : Text) (part : Text) (pair : Text × Text) (parts : List Text)
    → trim part ≡ cookie_pair pair
    → IsCookie pair
    → cookie_in name (part ∷ parts)
      ≡ (if list_eq pair.0 name then some pair.1 else cookie_in name parts)
unfolding cookie_in
cookie_in-pair name part (key, value) parts e (n, k, v) =
    rw (cookie_in, e, split_once-pair key value k) refl

no_first : (pairs : List (Text × Text)) → (split_parts b';' (more_pairs pairs)).first ≡ []
unfolding split_parts
no_first [] = refl
no_first (pair ∷ pairs) = refl

-- The first part of the header is the first pair.
split_header :
    (pair : Text × Text) (pairs : List (Text × Text))
    → IsCookie pair
    → split_parts b';' (cookie_header pair pairs)
      ≡ record { first = cookie_pair pair; more = (split_parts b';' (more_pairs pairs)).more }
split_header pair pairs c =
    split_parts-append (cookie_pair pair) (more_pairs pairs) (pair_is_plain pair c)
    ∙ ap (λ f. record { first = f; more = (split_parts b';' (more_pairs pairs)).more })
        (ap (λ f. cookie_pair pair ++ f) (no_first pairs) ∙ append-nil (cookie_pair pair))

trim-pair : (pair : Text × Text) → IsCookie pair → trim (cookie_pair pair) ≡ cookie_pair pair
trim-pair pair c = trim-plain (cookie_pair pair) (pair_is_plain pair c)

more_parts :
    (pair : Text × Text) (pairs : List (Text × Text))
    → IsCookie pair
    → (split_parts b';' (more_pairs (pair ∷ pairs))).more
      ≡ (b' ' ∷ cookie_pair pair) ∷ (split_parts b';' (more_pairs pairs)).more
unfolding split_parts
more_parts pair pairs c = ap (λ p. (b' ' ∷ p.first) ∷ p.more) (split_header pair pairs c)

cookie_in-pairs :
    (name : Text) (pairs : List (Text × Text))
    → AreCookies pairs
    → cookie_in name (split_parts b';' (more_pairs pairs)).more ≡ lookup name pairs
unfolding split_parts cookie_in
cookie_in-pairs name [] h = refl
cookie_in-pairs name (pair ∷ pairs) (c, h) =
    ap (cookie_in name) (more_parts pair pairs c)
    ∙ cookie_in-pair name (b' ' ∷ cookie_pair pair) pair _
        (trim-space (cookie_pair pair) ∙ trim-pair pair c) c
    ∙ ap (λ rest. if list_eq pair.0 name then some pair.1 else rest) (cookie_in-pairs name pairs h)

-- Where the `Cookie` header holds cookies by the grammar of RFC 6265, with a semicolon and a space
-- between two, `cookie_value` is the value of the first that has the name, and nothing if none has.
pub cookie_value-lookup :
    (headers : Headers) (name : Text) (pair : Text × Text) (pairs : List (Text × Text))
    → headers (codes "cookie") ≡ some (cookie_header pair pairs)
    → AreCookies (pair ∷ pairs)
    → cookie_value headers name ≡ lookup name (pair ∷ pairs)
unfolding cookie_value split
cookie_value-lookup headers name pair pairs sent (c, h) =
    rw (cookie_value, sent, split_header pair pairs c)
      (cookie_in-pair name (cookie_pair pair) pair _ (trim-pair pair c) c
        ∙ ap (λ rest. if list_eq pair.0 name then some pair.1 else rest)
            (cookie_in-pairs name pairs h))
