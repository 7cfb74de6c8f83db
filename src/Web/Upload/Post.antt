-- ===== src/Web/Upload/Post.antt =====
-- The two handlers that create a share, crates/web/src/lib.rs.
use fips_dropbox.Prelude.{true, ◌&&◌, Option, none, some, codes, is_some}
use fips_dropbox.Text.{Text, Bytes}
use fips_dropbox.Result.{Result, ok, err, panic}
use fips_dropbox.Effect.{M, pure, fail, lift, ◌>>=◌}
use fips_dropbox.Event.{Value, null, str, obj, end, field}
use fips_dropbox.Platform.{Platform}
use fips_dropbox.World.{World}
use fips_dropbox.Service.{App}
use fips_dropbox.Service.Create.{NewShareRequest, ShareCreated, create_share}
use fips_dropbox.Web.Pages.{share_new_page, share_created_page}
use fips_dropbox.Web.Http.{Http, Headers, Response, created, Handler, respond, render}
use fips_dropbox.Web.Extract.{ApiError, api_caller, signed_in}
use fips_dropbox.Web.Upload.{Multipart, Refusals, empty_form, says_yes, read_form, check_form}

abbrev optional_str : Option Text → Value
optional_str none = null
optional_str (some s) = str s

-- What is wrong with the browser's form: the answer is the status 400, or the form with a message.
pub data FormRefusal : Type 0 where
  bad_request : FormRefusal
  shows : (message : Text) → FormRefusal

abbrev pub browser_refusals : Refusals FormRefusal
browser_refusals = record {
  no_file = shows (codes "No file selected.");
  empty_file = bad_request;
  no_email = bad_request;
  no_name = bad_request;
  unattested = shows (codes "You must attest that this file is correctly marked before sending.");
}

module _ ⦃os : Platform⦄ ⦃http : Http⦄ where
  unfoldable pub share_new_get : Headers → Handler
  share_new_get headers = signed_in headers λ user. render (share_new_page none)

  unfoldable pub refused_form : FormRefusal → Handler
  refused_form bad_request = fail 400
  refused_form (shows message) = render (share_new_page (some message))

  -- The request that the browser's form leads to, or what it is refused with.
  unfoldable pub browser_form : Bytes → Headers → Multipart → Result FormRefusal NewShareRequest
  unfolding read_form check_form
  browser_form user_id headers body =
      elim (read_form (λ message. bad_request) (λ part. true) body empty_form) [
        | ok form ↦ check_form browser_refusals user_id headers form
        | err refusal ↦ err refusal
        | panic ↦ panic
      ]

  unfoldable pub share_created_answer : App → NewShareRequest → ShareCreated → Handler
  share_created_answer app req made = render (
      share_created_page (record {
        vendor_email = made.vendor_email;
        vendor_phone = made.vendor_phone;
        share_url = made.share_url;
        access_code = made.access_code;
        notifications_sent = app.email_configured;
        sms_sent = is_some req.vendor_phone && app.sms_configured;
      }))

  unfoldable pub posted_form : App → Result FormRefusal NewShareRequest → Handler
  unfolding share_created_answer refused_form
  posted_form app (ok req) =
      respond (create_share app req) (share_created_answer app req) (λ e. fail 500)
  posted_form app (err refusal) = refused_form refusal
  posted_form app panic = lift panic

  unfoldable pub share_new_post : App → Headers → Multipart → Handler
  unfolding browser_form posted_form
  share_new_post app headers body =
      signed_in headers λ user. posted_form app (browser_form user.id headers body)

  abbrev pub bad : Text → ApiError
  bad message = record { status = 400; message = message }

  abbrev pub api_refusals : Refusals ApiError
  api_refusals = record {
    no_file = bad (codes "file is required");
    empty_file = bad (codes "file is empty");
    no_email = bad (codes "vendor_email is required");
    no_name = bad (codes "vendor_display_name is required");
    unattested = bad (codes "cui_attested must be true");
  }

  unfoldable pub api_form : Bytes → Headers → Multipart → Result ApiError NewShareRequest
  unfolding read_form check_form
  api_form user_id headers body = elim (read_form bad says_yes body empty_form) [
    | ok form ↦ check_form api_refusals user_id headers form
    | err e ↦ err e
    | panic ↦ panic
  ]

  unfoldable pub api_answer : ShareCreated → Response
  api_answer made = created (
      obj (
        field (codes "share_id") (str (os.uuid_to_string made.share_id)) (
          field (codes "share_url") (str made.share_url) (
            field (codes "access_code") (str made.access_code) (
              field (codes "vendor_email") (str made.vendor_email)
                (field (codes "vendor_phone") (optional_str made.vendor_phone) end))))))

  unfoldable pub api_shares_post : App → Headers → Multipart → M World ApiError Response
  unfolding api_form api_answer
  api_shares_post app headers body = do
    caller ← api_caller headers
    req ← lift (api_form caller.user.id headers body)
    respond (create_share app req) (λ made. pure (api_answer made))
        (λ e. fail (record { status = 500; message = codes "create_share failed" }))
