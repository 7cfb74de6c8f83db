-- ===== src/Tests/Browsing.antt =====
-- Requests over HTTP.
use fips_dropbox.Prelude.{
  ◌≡◌, refl, true, false, List, [], ◌∷◌, some, none, list_eq, codes, if◌then◌else◌,
}
use fips_dropbox.Text
use fips_dropbox.Text.{Text, Bytes}
use fips_dropbox.Result.{ok, err}
use fips_dropbox.Effect.{◌>>=◌}
use fips_dropbox.Prelude.Table
use fips_dropbox.World.{World}
use fips_dropbox.Storage.Shares.{has_id}
use fips_dropbox.Storage.Ledger.{Link, Reach, ledger_of}
use fips_dropbox.Storage.Ledger.Requests.{clock}
use fips_dropbox.Service.Create.{NewShareRequest}
use fips_dropbox.Web.Cookies
use fips_dropbox.Web.Cookies.{session_cookie, cookie_value}
use fips_dropbox.Web.Cookies.Lookup.{cookie_header, cookie_value-lookup}
use fips_dropbox.Web.Http.{Headers, redirect, respond}
use fips_dropbox.Web.Extract.{ApiError, current_user, api_caller}
use fips_dropbox.Web.Upload.{Part, Multipart, done, next_field, says_yes}
use fips_dropbox.Web.Upload.Post.{browser_form, api_form}
use fips_dropbox.Web.Upload.Laws.{
  IsComplete, is_attested, browser_form-IsComplete, api_form-IsComplete,
}
use fips_dropbox.Web.Router.{Route, posts_redeem, at_tokens, posts_tokens, handle}
use fips_dropbox.Web.Router.History.{browse, browse-refines, browse-withdrawn}
use fips_dropbox.Web.Router.Access.{handle-redirects}
use fips_dropbox.Tests.Sample.{os, http, world, db, app, share_row, uuid}

abbrev anonymous : Headers
anonymous name = none

abbrev two_requests : List (Headers × Route)
two_requests = (anonymous, posts_redeem (codes "tok") (codes "code")) ∷ (anonymous, at_tokens) ∷ []

browse-refines_example :
    Reach
      (clock ⦃os = os⦄)
      (ledger_of world.db.shares)
      world.calls
      (ledger_of (browse ⦃os = os⦄ ⦃http = http⦄ app world two_requests).db.shares)
      (browse ⦃os = os⦄ ⦃http = http⦄ app world two_requests).calls
browse-refines_example = browse-refines ⦃os = os⦄ ⦃http = http⦄ app world two_requests

abbrev revoked : World
revoked = record world { db = record db { shares = record share_row { revoked_at = some 5 } ∷ [] } }

abbrev withdrawn_link : Link
withdrawn_link = record { limit = 2; used = 1; until = 1000000; withdrawn = true }

stands_for : ledger_of revoked.db.shares (uuid 4) ≡ some withdrawn_link
unfolding ledger_of Table.find has_id list_eq
stands_for = refl

browse-withdrawn_example :
    ledger_of
      (browse ⦃os = os⦄ ⦃http = http⦄ app revoked
        ((anonymous, posts_redeem (codes "tok") (codes "code")) ∷ [])).db.shares
      (uuid 4)
    ≡ some withdrawn_link
browse-withdrawn_example =
    browse-withdrawn ⦃os = os⦄ ⦃http = http⦄ app revoked
      ((anonymous, posts_redeem (codes "tok") (codes "code")) ∷ []) (uuid 4) withdrawn_link refl
      stands_for

nobody : (current_user ⦃os = os⦄ anonymous world).0 ≡ ok none
unfolding current_user cookie_value respond ◌>>=◌
nobody = refl

handle-redirects_example :
    handle ⦃os = os⦄ ⦃http = http⦄ app anonymous (posts_tokens (codes "x")) world
    ≡ (ok (redirect (codes "/login")), (current_user ⦃os = os⦄ anonymous world).1)
handle-redirects_example =
    handle-redirects ⦃os = os⦄ ⦃http = http⦄ app anonymous world (posts_tokens (codes "x")) refl
      nobody

abbrev no_header : ApiError
no_header = record { status = 401; message = codes "missing Authorization header" }

no_token : (api_caller ⦃os = os⦄ anonymous world).0 ≡ err no_header
unfolding api_caller ◌>>=◌
no_token = refl

abbrev field : Text → Text → Part
field name text = record {
  name = some name;
  file_name = some (codes "p.pdf");
  bytes = some text;
  text = some text;
}

abbrev form : Multipart
form = next_field (field (codes "file") (codes "hi")) (
    next_field (field (codes "vendor_email") (codes "v@s")) (
      next_field (field (codes "vendor_display_name") (codes "Shop"))
        (next_field (field (codes "cui_attested") (codes "on")) done)))

abbrev request : NewShareRequest
request = record {
  print_filename = codes "p.pdf";
  print_bytes = codes "hi";
  vendor_email = codes "v@s";
  vendor_phone = none;
  vendor_display_name = codes "Shop";
  expires_in_hours = 72;
  max_downloads = 3;
  note = none;
  cui_attested = true;
  created_by = uuid 1;
  ip = codes "unknown";
  user_agent = [];
}

browser_accepts : browser_form ⦃os = os⦄ ⦃http = http⦄ (uuid 1) anonymous form ≡ ok request
unfolding browser_form list_eq Cookies.client_ip Cookies.user_agent Text.trim
browser_accepts = refl

browser_form-IsComplete_example :
    (is_attested (λ part. true) form ≡ true) × IsComplete (uuid 1) request
browser_form-IsComplete_example =
    browser_form-IsComplete ⦃os = os⦄ ⦃http = http⦄ (uuid 1) anonymous form {req = request}
      browser_accepts

api_accepts : api_form ⦃os = os⦄ ⦃http = http⦄ (uuid 1) anonymous form ≡ ok request
unfolding api_form list_eq says_yes Cookies.client_ip Cookies.user_agent Text.trim
api_accepts = refl

api_form-IsComplete_example : (is_attested says_yes form ≡ true) × IsComplete (uuid 1) request
api_form-IsComplete_example =
    api_form-IsComplete ⦃os = os⦄ ⦃http = http⦄ (uuid 1) anonymous form {req = request} api_accepts

abbrev with_cookies : Headers
with_cookies name =
    if list_eq name (codes "cookie")
    then some (cookie_header (codes "theme", codes "dark=1") ((session_cookie, codes "abc") ∷ []))
    else none

sends_cookies :
    with_cookies (codes "cookie")
    ≡ some (cookie_header (codes "theme", codes "dark=1") ((session_cookie, codes "abc") ∷ []))
unfolding list_eq
sends_cookies = refl

found : list_eq (codes "theme") session_cookie ≡ false
unfolding list_eq
found = refl

cookie_value-lookup_example : cookie_value with_cookies session_cookie ≡ (
    if list_eq (codes "theme") session_cookie
    then some (codes "dark=1")
    else if list_eq session_cookie session_cookie
    then some (codes "abc")
    else none)
unfolding Text.is_whitespace
cookie_value-lookup_example =
    cookie_value-lookup with_cookies session_cookie (codes "theme", codes "dark=1")
      ((session_cookie, codes "abc") ∷ []) sends_cookies
      ((refl, refl, refl), ((refl, refl, refl), tt))
