-- ===== src/Web/Cookies.antt =====
-- The headers that crates/web/src/lib.rs reads and the cookies that it sets.
pub mod Lookup
use fips_dropbox.Prelude.{
  ℕ, ◌-◌, ◌/◌, Option, none, some, List, [], ◌∷◌, ◌++◌, codes, list_eq, if◌then◌else◌,
}
use fips_dropbox.Text.{Text, trim, decimal}
use fips_dropbox.Time.{Instant}
use fips_dropbox.Web.Strings.{split, split_once, split_parts}
use fips_dropbox.Web.Http.{Headers}

abbrev pub session_cookie : Text
session_cookie = codes "fips_session"

-- The loop over the parts of a `Cookie` header.
unfoldable pub cookie_in : Text → List Text → Option Text
unfolding split_once
cookie_in name [] = none
cookie_in name (part ∷ parts) =
    let rest = cookie_in name parts in
    elim (split_once b'=' (trim part)) [
      | none ↦ rest
      | some (k, v) ↦ if list_eq k name then some v else rest
    ]

unfoldable pub cookie_value : Headers → Text → Option Text
unfolding cookie_in split
cookie_value headers name = elim (headers (codes "cookie")) [
  | none ↦ none
  | some hdr ↦ cookie_in name (split b';' hdr)
]

-- `max_age` is not negative: subtraction stops at 0, as `.max(0)` does.
unfoldable pub build_session_cookie : Text → Instant → Instant → Text
build_session_cookie token expires_at now =
    let max_age = (expires_at - now) / 1000000000 in
    session_cookie
    ++ (b'=' ∷ token ++ (codes "; Path=/; HttpOnly; SameSite=Lax; Max-Age=" ++ decimal 20 max_age))

abbrev pub clear_session_cookie : Text
clear_session_cookie = session_cookie ++ codes "=; Path=/; HttpOnly; SameSite=Lax; Max-Age=0"

unfoldable pub client_ip : Headers → Text
unfolding split_parts
client_ip headers = elim (headers (codes "x-forwarded-for")) [
  | none ↦ codes "unknown"
  | some s ↦ trim (split_parts b',' s).first
]

unfoldable pub user_agent : Headers → Text
user_agent headers = elim (headers (codes "user-agent")) [ none ↦ [] | some s ↦ s ]
