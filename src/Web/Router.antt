-- ===== src/Web/Router.antt =====
-- `router` of crates/web/src/lib.rs: a request goes to the handler of its route. That axum matches
-- the path, cuts an upload at its limit, and reads the query or the form before the handler runs, is its own.
pub mod Keeping
pub mod History
pub mod Delivery
pub mod Access
use fips_dropbox.Prelude.{ℕ, ◌*◌, Option, none, some, List, [], ◌∷◌, codes}
use fips_dropbox.Text.{Text}
use fips_dropbox.Result.{Result, ok, err, panic}
use fips_dropbox.Effect.{M, pure}
use fips_dropbox.Platform.{Platform}
use fips_dropbox.World.{World}
use fips_dropbox.Service.{App}
use fips_dropbox.Web.Http.{Http, Headers, Status, Response, text, failed, status, Handler, respond}
use fips_dropbox.Web.Extract.{ApiError}
use fips_dropbox.Web.SignIn.{LoginForm, dashboard, login_get, login_post, logout_post}
use fips_dropbox.Web.AuditLog.{audit_get, audit_csv}
use fips_dropbox.Web.Sharing.{shares_list_get, share_revoke, redeem_get, redeem_post}
use fips_dropbox.Web.Minting.{tokens_get, tokens_post, token_revoke}
use fips_dropbox.Web.Upload.{Multipart}
use fips_dropbox.Web.Upload.Post.{share_new_get, share_new_post, api_shares_post}

-- The routes, with what axum extracts of the path, the query or the form.
pub data Route : Type 0 where
  at_dashboard : Route
  at_login : Route
  posts_login : LoginForm → Route
  posts_logout : Route
  at_share_new : Route
  posts_share_new : Multipart → Route
  at_shares : Route
  posts_share_revoke : Text → Route
  at_audit : Text → Route
  at_audit_csv : Text → Route
  at_tokens : Route
  posts_tokens : Text → Route
  posts_token_revoke : Text → Route
  posts_api_shares : Multipart → Route
  at_redeem : Text → Route
  posts_redeem : Text → Text → Route
  at_health : Route

module _ ⦃os : Platform⦄ ⦃http : Http⦄ (app : App) (headers : Headers) where
  -- An `ApiError` is answered as JSON with its status.
  api_answered : M World ApiError Response → Handler
  api_answered call = respond call pure (λ e. pure (failed e.status e.message))

  unfoldable pub handle : Route → Handler
  unfolding api_answered
  handle at_dashboard = dashboard app headers
  handle at_login = login_get headers
  handle (posts_login form) = login_post headers form
  handle posts_logout = logout_post headers
  handle at_share_new = share_new_get headers
  handle (posts_share_new body) = share_new_post app headers body
  handle at_shares = shares_list_get headers
  handle (posts_share_revoke id) = share_revoke headers id
  handle (at_audit filter) = audit_get headers filter
  handle (at_audit_csv filter) = audit_csv headers filter
  handle at_tokens = tokens_get headers
  handle (posts_tokens label) = tokens_post headers label
  handle (posts_token_revoke id) = token_revoke headers id
  handle (posts_api_shares body) = api_answered (api_shares_post app headers body)
  handle (at_redeem token) = redeem_get token
  handle (posts_redeem token access_code) = redeem_post app headers token access_code
  handle at_health = pure (text (codes "ok"))

-- An error status is the answer.
unfoldable pub answer_of : Result Status Response → Option Response
answer_of (ok response) = some response
answer_of (err s) = some (status s)
answer_of panic = none
