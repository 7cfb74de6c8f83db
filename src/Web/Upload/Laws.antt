-- ===== src/Web/Upload/Laws.antt =====
-- What a form that is accepted holds.
use fips_dropbox.Prelude.{
  ◌≡◌, ◌≢◌, refl, ◌⊎◌, inl, inr, Bool, true, false, ◌&&◌, ◌||◌, Option, none, some, List, [], ◌∷◌,
  codes, arith, list_eq, Bool-cases,
}
use fips_dropbox.Text.{Text, Bytes}
use fips_dropbox.Platform.{Platform}
use fips_dropbox.Result.{Result, ok, err, panic}
use fips_dropbox.Service.Create.{NewShareRequest}
use fips_dropbox.Web.Http.{Http, Headers}
use fips_dropbox.Web.Upload.{
  Part, Multipart, done, malformed, next_field, ShareForm, Refusals, ok_or, or_default, non_empty,
  empty_form, says_yes, fill, read_form, require, check_form,
}
use fips_dropbox.Web.Upload.Post.{
  bad, bad_request, browser_form, api_form, api_refusals, browser_refusals,
}

-- Some field of the body is named `cui_attested`, and attests.
abbrev pub is_attested : (Part → Bool) → Multipart → Bool
is_attested attests done = false
is_attested attests malformed = false
is_attested attests (next_field part rest) =
    (list_eq (or_default [] part.name) (codes "cui_attested") && attests part)
    || is_attested attests rest

module _ {E : Type 0} (refuse : Text → E) (attests : Part → Bool) where
  fill-attested :
      (part : Part) (form filled : ShareForm)
      → fill refuse attests part form ≡ ok filled
      → filled.cui_attested ≡ true
      → form.cui_attested
          || (list_eq (or_default [] part.name) (codes "cui_attested") && attests part)
        ≡ true
  unfolding fill
  fill-attested part form filled e stated = ground arith

  read_form-attested :
      (body : Multipart) (form filled : ShareForm)
      → read_form refuse attests body form ≡ ok filled
      → filled.cui_attested ≡ true
      → form.cui_attested || is_attested attests body ≡ true
  unfolding read_form
  read_form-attested done form filled e stated = ground arith
  read_form-attested malformed form filled e stated = cc
  read_form-attested (next_field part rest) form filled e stated =
      by_field (fill refuse attests part form) refl e
        (λ next after. read_form-attested rest next filled after stated)
    where
      later_or_here :
          (next : ShareForm)
          → fill refuse attests part form ≡ ok next
          → next.cui_attested || is_attested attests rest ≡ true
          → (next.cui_attested ≡ true) ⊎ (next.cui_attested ≡ false)
          → form.cui_attested || is_attested attests (next_field part rest) ≡ true
      later_or_here next this later (inl now) =
          ground (arith, fill-attested part form next this now)
      later_or_here next this later (inr not_now) = ground arith

      by_field :
          (r : Result E ShareForm)
          → fill refuse attests part form ≡ r
          → (elim r [
            | ok next ↦ read_form refuse attests rest next
            | err refusal ↦ err refusal
            | panic ↦ panic
          ])
            ≡ ok filled
          → ((next : ShareForm)
              → read_form refuse attests rest next ≡ ok filled
              → next.cui_attested || is_attested attests rest ≡ true)
          → form.cui_attested || is_attested attests (next_field part rest) ≡ true
      by_field (ok next) this rest_ok later =
          later_or_here next this (later next rest_ok) (Bool-cases next.cui_attested)
      by_field (err refusal) this rest_ok later = cc
      by_field panic this rest_ok later = cc

-- A request that may be sent to the service.
pub record IsComplete (created_by : Bytes) (req : NewShareRequest) : Type 0 where
  pub cui_attested : req.cui_attested ≡ true
  pub print_filename : req.print_filename ≢ []
  pub print_bytes : req.print_bytes ≢ []
  pub vendor_email : req.vendor_email ≢ []
  pub vendor_display_name : req.vendor_display_name ≢ []
  pub by : req.created_by ≡ created_by

non_empty-eq-ok :
    {A E : Type 0} (e : E) (o : Option (List A)) {xs : List A}
    → ok_or e (non_empty o) ≡ ok xs
    → xs ≢ []
non_empty-eq-ok e none h = λ empty. cc
non_empty-eq-ok e (some []) h = λ empty. cc
non_empty-eq-ok e (some (x ∷ xs)) h = λ empty. cc

require-eq-ok : {E : Type 0} (e : E) (b : Bool) → require e b ≡ ok tt → b ≡ true
unfolding require
require-eq-ok e true h = refl
require-eq-ok e false h = cc

module _ ⦃http : Http⦄ {E : Type 0} (refusals : Refusals E) (created_by : Bytes)
    (headers : Headers) where
  check_form-IsComplete :
      (form : ShareForm) {req : NewShareRequest}
      → check_form refusals created_by headers form ≡ ok req
      → IsComplete created_by req
  unfolding check_form
  check_form-IsComplete form {req} h = record {
    cui_attested = ground arith;
    print_filename = λ empty. ground arith;
    print_bytes = λ empty. ground arith;
    vendor_email = λ empty. ground arith;
    vendor_display_name = λ empty. ground arith;
    by = ground arith;
  }

  check_form-attested :
      (form : ShareForm) {req : NewShareRequest}
      → check_form refusals created_by headers form ≡ ok req
      → form.cui_attested ≡ true
  unfolding check_form
  check_form-attested form {req} h = ground arith

  -- What the loop and the checks together accept.
  accepted :
      (refuse : Text → E) (attests : Part → Bool) (body : Multipart) (r : Result E ShareForm)
      → read_form refuse attests body empty_form ≡ r
      → {req : NewShareRequest}
      → (elim r [
        | ok form ↦ check_form refusals created_by headers form
        | err refusal ↦ err refusal
        | panic ↦ panic
      ])
        ≡ ok req
      → (is_attested attests body ≡ true) × IsComplete created_by req
  accepted refuse attests body (ok form) read h = (
    read_form-attested refuse attests body empty_form form read (check_form-attested form h),
    check_form-IsComplete form h,
  )
  accepted refuse attests body (err refusal) read h = cc
  accepted refuse attests body panic read h = cc

module _ ⦃os : Platform⦄ ⦃http : Http⦄ (user_id : Bytes) (headers : Headers) (body : Multipart)
    {req : NewShareRequest} where
  -- A form of the browser that is accepted has a field `cui_attested`, and leads to a request that
  -- is attested, for the given user, with a file name, file bytes, an address and a name that are
  -- not empty.
  pub browser_form-IsComplete :
      browser_form user_id headers body ≡ ok req
      → (is_attested (λ part. true) body ≡ true) × IsComplete user_id req
  unfolding browser_form
  browser_form-IsComplete =
      accepted browser_refusals user_id headers (λ message. bad_request) (λ part. true) body _ refl

  -- The same of a form of the API, whose field `cui_attested` must say so too.
  pub api_form-IsComplete :
      api_form user_id headers body ≡ ok req
      → (is_attested says_yes body ≡ true) × IsComplete user_id req
  unfolding api_form
  api_form-IsComplete = accepted api_refusals user_id headers bad says_yes body _ refl
