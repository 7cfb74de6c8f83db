-- ===== src/Web/Sharing.antt =====
-- The list of shares, their revocation and the vendor's redemption, crates/web/src/lib.rs.
use fips_dropbox.Prelude.{◌+◌, ◌/◌, none, some, List, [], ◌∷◌, ◌++◌, codes}
use fips_dropbox.Text.{Text, trim}
use fips_dropbox.Time.{Instant}
use fips_dropbox.Effect.{M, pure, fail, maybe, ◌>>=◌}
use fips_dropbox.Errors.{ServiceError, not_found, invalid_credentials, share_unavailable}
use fips_dropbox.Platform.{Platform}
use fips_dropbox.World.{World, now_utc}
use fips_dropbox.Storage.Records.{ShareListItem}
use fips_dropbox.Storage.Shares.Status.{is_active, status_label}
use fips_dropbox.Service.{App}
use fips_dropbox.Service.Create.{revoke_share}
use fips_dropbox.Service.View.{list_recent_shares}
use fips_dropbox.Service.Redeem.{RedeemRequest, redeem_share}
use fips_dropbox.Web.Strings.{sanitize_filename}
use fips_dropbox.Web.Pages.{ShareRow, shares_page, redeem_prompt_page}
use fips_dropbox.Web.Http.{Http, Headers, Status, redirect, Handler, respond, render, attach}
use fips_dropbox.Web.Cookies.{client_ip, user_agent}
use fips_dropbox.Web.Extract.{signed_in}

unfoldable pub format_dt : ⦃http : Http⦄ → Instant → Text
format_dt ⦃http⦄ dt = elim (http.format_minutes dt) [ none ↦ codes "?" | some text ↦ text ]

module _ ⦃os : Platform⦄ ⦃http : Http⦄ where
  -- One row; `is_active` and `status_label` read the clock on their own.
  unfoldable pub share_row : ShareListItem → M World Status ShareRow
  unfolding format_dt
  share_row s = do
    now ← now_utc
    later ← now_utc
    pure (record {
      id = os.uuid_to_string s.id;
      vendor_name = s.vendor_name;
      vendor_email = s.vendor_email;
      filename = s.filename;
      size_kb = (s.size_bytes + 1023) / 1024;
      created = format_dt s.created_at;
      expires = format_dt s.expires_at;
      max_downloads = s.max_downloads;
      download_count = s.download_count;
      status = status_label later s;
      is_active = is_active now s;
      note = s.sender_note;
    })

  unfoldable pub share_rows : List ShareListItem → M World Status (List ShareRow)
  unfolding share_row
  share_rows [] = pure []
  share_rows (s ∷ list) = do row ← share_row s; rows ← share_rows list; pure (row ∷ rows)

  unfoldable pub shares_list_get : Headers → Handler
  unfolding share_rows
  shares_list_get headers = signed_in headers λ user.
      respond (list_recent_shares 100)
        (λ list. do rows ← share_rows list; render (shares_page rows)) (λ e. fail 500)

  -- A refused revocation is only logged.
  unfoldable pub share_revoke : Headers → Text → Handler
  share_revoke headers id = signed_in headers λ user.
      maybe (http.uuid_parse id) (fail 400) λ share_id.
        respond (revoke_share share_id user.id (client_ip headers) (user_agent headers))
          (λ u. pure (redirect (codes "/shares"))) (λ e. pure (redirect (codes "/shares")))

  unfoldable pub redeem_get : Text → Handler
  redeem_get token = render (redeem_prompt_page token none)

  unfoldable pub redeem_request_of : Headers → Text → Text → RedeemRequest
  redeem_request_of headers token access_code = record {
    token = token;
    access_code = trim access_code;
    ip = client_ip headers;
    user_agent = user_agent headers;
  }

  abbrev pub redeem_refused : Text → ServiceError → Handler
  redeem_refused token invalid_credentials = render (
      redeem_prompt_page token
        (some (codes "That access code is not correct. Check the SMS and try again.")))
  redeem_refused token share_unavailable = render (
      redeem_prompt_page token
        (some (codes "This share has expired, been revoked, or reached its download limit.")))
  redeem_refused token not_found =
      render (redeem_prompt_page token (some (codes "This share link is not valid.")))
  redeem_refused token _ = fail 500

  unfoldable pub redeem_post : App → Headers → Text → Text → Handler
  unfolding redeem_request_of
  redeem_post app headers token access_code =
      respond (redeem_share app (redeem_request_of headers token access_code))
        (λ resp.
          let filename = sanitize_filename resp.filename in
          pure (
            attach (codes "application/octet-stream")
              (codes "attachment; filename=\"" ++ (filename ++ b'"' ∷ [])) resp.content))
        (redeem_refused token)
