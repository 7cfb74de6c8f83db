-- ===== src/Web/Minting.antt =====
-- The management of API tokens, crates/web/src/lib.rs.
use fips_dropbox.Prelude.{Option, none, some, map, codes, is_empty, is_some, if◌then◌else◌}
use fips_dropbox.Text.{Text, trim}
use fips_dropbox.Time.{Instant}
use fips_dropbox.Effect.{pure, fail, maybe}
use fips_dropbox.Platform.{Platform}
use fips_dropbox.Storage.Records.{ApiToken}
use fips_dropbox.Service.Tokens.{mint_api_token, list_api_tokens, revoke_api_token}
use fips_dropbox.Web.Pages.{TokenRow, tokens_page, token_created_page}
use fips_dropbox.Web.Http.{Http, Headers, redirect, Handler, respond, render}
use fips_dropbox.Web.Cookies.{client_ip, user_agent}
use fips_dropbox.Web.Extract.{signed_in}
use fips_dropbox.Web.Sharing.{format_dt}

unfoldable pub last_seen : ⦃http : Http⦄ → Option Instant → Text
unfolding format_dt
last_seen none = codes "never"
last_seen (some dt) = format_dt dt

module _ ⦃os : Platform⦄ ⦃http : Http⦄ where
  unfoldable pub token_row : ApiToken → TokenRow
  unfolding last_seen
  token_row t = record {
    id = os.uuid_to_string t.id;
    label = t.label;
    created = format_dt t.created_at;
    last_seen = last_seen t.last_seen_at;
    revoked = is_some t.revoked_at;
  }

  unfoldable pub tokens_get : Headers → Handler
  unfolding token_row
  tokens_get headers = signed_in headers λ user.
      respond (list_api_tokens user.id) (λ list. render (tokens_page (map token_row list)))
        (λ e. fail 500)

  unfoldable pub tokens_post : Headers → Text → Handler
  tokens_post headers form_label = signed_in headers λ user.
      let label = trim form_label in
      if is_empty label
      then pure (redirect (codes "/tokens"))
      else respond (mint_api_token user.id label (client_ip headers) (user_agent headers))
          (λ issued. render (token_created_page label issued.raw_token)) (λ e. fail 500)

  -- A refused revocation is only logged.
  unfoldable pub token_revoke : Headers → Text → Handler
  token_revoke headers id = signed_in headers λ user.
      maybe (http.uuid_parse id) (fail 400) λ token_id.
        respond (revoke_api_token token_id user.id (client_ip headers) (user_agent headers))
          (λ u. pure (redirect (codes "/tokens"))) (λ e. pure (redirect (codes "/tokens")))
