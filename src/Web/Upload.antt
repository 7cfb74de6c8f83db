-- ===== src/Web/Upload.antt =====
-- The form of a new share, crates/web/src/lib.rs. `share_new_post` and `api_shares_post` have the
-- same loop over the fields and the same checks, but for what they answer to a bad field and for
-- how a field says that the file is correctly marked.
pub mod Post
pub mod Laws
use fips_dropbox.Prelude.{
  ℕ, Bool, true, false, not, ◌||◌, Option, none, some, List, [], ◌∷◌, codes, list_eq, is_empty,
  is_some, if◌then◌else◌,
}
use fips_dropbox.Text.{Text, Bytes, trim}
use fips_dropbox.Result.{Result, ok, err, panic, ◌>>=◌, ◌>>◌}
use fips_dropbox.Service.Create.{NewShareRequest}
use fips_dropbox.Web.Strings.{parse_u32}
use fips_dropbox.Web.Http.{Http, Headers}
use fips_dropbox.Web.Cookies.{client_ip, user_agent}

-- A field of a multipart body; `none` is a body that cannot be read, or is no text.
pub record Part : Type 0 where
  pub name : Option Text
  pub file_name : Option Text
  pub bytes : Option Bytes
  pub text : Option Text

pub data Multipart : Type 0 where
  done malformed : Multipart
  next_field : Part → Multipart → Multipart

-- The variables of the loop.
pub record ShareForm : Type 0 where
  pub filename : Option Text
  pub file_bytes : Option Bytes
  pub vendor_email : Option Text
  pub vendor_phone : Option Text
  pub vendor_display_name : Option Text
  pub expires_in_hours : ℕ
  pub max_downloads : ℕ
  pub note : Option Text
  pub cui_attested : Bool

abbrev pub empty_form : ShareForm
empty_form = record {
  filename = none;
  file_bytes = none;
  vendor_email = none;
  vendor_phone = none;
  vendor_display_name = none;
  expires_in_hours = 72;
  max_downloads = 3;
  note = none;
  cui_attested = false;
}

abbrev pub or_default : {A : Type 0} → A → Option A → A
or_default a none = a
or_default a (some b) = b

-- `if t.trim().is_empty() { None } else { Some(t) }`
unfoldable pub unless_blank : Text → Option Text
unless_blank t = if is_empty (trim t) then none else some t

abbrev pub ok_or : {E A : Type 0} → E → Option A → Result E A
ok_or e none = err e
ok_or e (some a) = ok a

-- `filter(|x| !x.is_empty())`
abbrev pub non_empty : {A : Type 0} → Option (List A) → Option (List A)
non_empty none = none
non_empty (some xs) = if is_empty xs then none else some xs

-- `matches!(v, "1" | "true" | "yes" | "on")` of the trimmed text of a field.
unfoldable pub says_yes : Part → Bool
says_yes part =
    let v = trim (or_default [] part.text) in
    list_eq v (codes "1")
    || list_eq v (codes "true")
    || list_eq v (codes "yes")
    || list_eq v (codes "on")

module _ {E : Type 0} (refuse : Text → E) (attests : Part → Bool) where
  abbrev text_or : Part → Text → Result E Text
  text_or part message = ok_or (refuse message) part.text

  -- One round of the loop.
  unfoldable pub fill : Part → ShareForm → Result E ShareForm
  unfolding unless_blank
  fill part form =
      let name = or_default [] part.name in
      if list_eq name (codes "file")
      then (do
        b ← ok_or (refuse (codes "failed to read file")) part.bytes
        ok (record form { filename = part.file_name; file_bytes = some b }))
      else if list_eq name (codes "vendor_email")
      then (do
        t ← text_or part (codes "bad vendor_email")
        ok (record form { vendor_email = some t }))
      else if list_eq name (codes "vendor_phone")
      then (do
        t ← text_or part (codes "bad vendor_phone")
        ok (record form { vendor_phone = unless_blank t }))
      else if list_eq name (codes "vendor_display_name")
      then (do
        t ← text_or part (codes "bad vendor_display_name")
        ok (record form { vendor_display_name = some t }))
      else if list_eq name (codes "expires_in_hours")
      then (do
        t ← text_or part (codes "bad expires_in_hours")
        ok (record form { expires_in_hours = or_default 72 (parse_u32 t) }))
      else if list_eq name (codes "max_downloads")
      then (do
        t ← text_or part (codes "bad max_downloads")
        ok (record form { max_downloads = or_default 3 (parse_u32 t) }))
      else if list_eq name (codes "note")
      then (do t ← text_or part (codes "bad note"); ok (record form { note = unless_blank t }))
      else if list_eq name (codes "cui_attested")
      then ok (record form { cui_attested = attests part })
      else ok form

  unfoldable pub read_form : Multipart → ShareForm → Result E ShareForm
  unfolding fill
  read_form done form = ok form
  read_form malformed form = err (refuse (codes "malformed multipart"))
  read_form (next_field part rest) form = elim (fill part form) [
    | ok filled ↦ read_form rest filled
    | err e ↦ err e
    | panic ↦ panic
  ]

-- What the checks answer, in their order.
pub record Refusals (E : Type 0) : Type 0 where
  pub no_file : E
  pub empty_file : E
  pub no_email : E
  pub no_name : E
  pub unattested : E

unfoldable pub require : {E : Type 0} → E → Bool → Result E Unit
require e b = if b then ok tt else err e

module _ ⦃http : Http⦄ {E : Type 0} (refusals : Refusals E) where
  abbrev lowered : Option Text → Option Text
  lowered none = none
  lowered (some s) = some (http.to_lowercase (trim s))

  abbrev trimmed : Option Text → Option Text
  trimmed none = none
  trimmed (some s) = some (trim s)

  -- The checks after the loop, and the request that they lead to.
  unfoldable pub check_form : Bytes → Headers → ShareForm → Result E NewShareRequest
  unfolding require
  check_form created_by headers form = do
    filename ← ok_or refusals.no_file (non_empty form.filename)
    file_bytes ← ok_or refusals.empty_file (non_empty form.file_bytes)
    vendor_email ← ok_or refusals.no_email (non_empty (lowered form.vendor_email))
    vendor_display_name ← ok_or refusals.no_name (non_empty (trimmed form.vendor_display_name))
    require refusals.unattested form.cui_attested
    ok (record {
      print_filename = filename;
      print_bytes = file_bytes;
      vendor_email = vendor_email;
      vendor_phone = form.vendor_phone;
      vendor_display_name = vendor_display_name;
      expires_in_hours = form.expires_in_hours;
      max_downloads = form.max_downloads;
      note = form.note;
      cui_attested = form.cui_attested;
      created_by = created_by;
      ip = client_ip headers;
      user_agent = user_agent headers;
    })
