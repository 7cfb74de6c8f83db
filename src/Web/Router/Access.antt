-- ===== src/Web/Router/Access.antt =====
-- What a request is answered whose sender is not known.
use fips_dropbox.Prelude.{◌≡◌, refl, Bool, true, false, none, codes}
use fips_dropbox.Result.{ok, err}
use fips_dropbox.Effect.{◌>>=◌}
use fips_dropbox.Platform.{Platform}
use fips_dropbox.World.{World}
use fips_dropbox.Storage.Records.{User}
use fips_dropbox.Service.{App}
use fips_dropbox.Web.Http.{Http, Headers, redirect, failed, Handler, respond}
use fips_dropbox.Web.Extract.{ApiError, current_user, signed_in, api_caller}
use fips_dropbox.Web.Upload.{Multipart}
use fips_dropbox.Web.SignIn
use fips_dropbox.Web.AuditLog
use fips_dropbox.Web.Sharing
use fips_dropbox.Web.Minting
use fips_dropbox.Web.Upload.Post
use fips_dropbox.Web.Router.{
  Route, at_dashboard, at_login, posts_login, posts_logout, at_share_new, posts_share_new,
  at_shares, posts_share_revoke, at_audit, at_audit_csv, at_tokens, posts_tokens,
  posts_token_revoke, posts_api_shares, at_redeem, posts_redeem, at_health, api_answered, handle,
}

-- The pages of the internal users, and the forms on them.
abbrev pub is_internal : Route → Bool
is_internal at_dashboard = true
is_internal at_share_new = true
is_internal (posts_share_new body) = true
is_internal at_shares = true
is_internal (posts_share_revoke id) = true
is_internal (at_audit filter) = true
is_internal (at_audit_csv filter) = true
is_internal at_tokens = true
is_internal (posts_tokens label) = true
is_internal (posts_token_revoke id) = true
is_internal _ = false

module _ ⦃os : Platform⦄ (headers : Headers) (w : World) where
  -- A handler that takes the user is not run without one.
  signed_in-none :
      (handler : User → Handler)
      → (current_user headers w).0 ≡ ok none
      → signed_in headers handler w ≡ (ok (redirect (codes "/login")), (current_user headers w).1)
  unfolding signed_in ◌>>=◌
  signed_in-none handler absent = rw absent refl

module _ ⦃os : Platform⦄ ⦃http : Http⦄ (app : App) (headers : Headers) (w : World) where
  -- Where no user is signed in, an internal route answers a redirection to the log-in, and nothing
  -- happens but the look-up of the user: whatever the route, its form and its identifiers.
  pub handle-redirects :
      (route : Route)
      → is_internal route ≡ true
      → (current_user headers w).0 ≡ ok none
      → handle app headers route w ≡ (ok (redirect (codes "/login")), (current_user headers w).1)
  unfolding handle SignIn.dashboard Post.share_new_get Post.share_new_post Sharing.shares_list_get
      Sharing.share_revoke AuditLog.audit_get AuditLog.audit_csv Minting.tokens_get
      Minting.tokens_post Minting.token_revoke
  handle-redirects at_dashboard inside absent = signed_in-none headers w _ absent
  handle-redirects at_share_new inside absent = signed_in-none headers w _ absent
  handle-redirects (posts_share_new body) inside absent = signed_in-none headers w _ absent
  handle-redirects at_shares inside absent = signed_in-none headers w _ absent
  handle-redirects (posts_share_revoke id) inside absent = signed_in-none headers w _ absent
  handle-redirects (at_audit filter) inside absent = signed_in-none headers w _ absent
  handle-redirects (at_audit_csv filter) inside absent = signed_in-none headers w _ absent
  handle-redirects at_tokens inside absent = signed_in-none headers w _ absent
  handle-redirects (posts_tokens label) inside absent = signed_in-none headers w _ absent
  handle-redirects (posts_token_revoke id) inside absent = signed_in-none headers w _ absent
  handle-redirects at_login inside absent = cc
  handle-redirects (posts_login form) inside absent = cc
  handle-redirects posts_logout inside absent = cc
  handle-redirects (posts_api_shares body) inside absent = cc
  handle-redirects (at_redeem token) inside absent = cc
  handle-redirects (posts_redeem token access_code) inside absent = cc
  handle-redirects at_health inside absent = cc

  -- Where the bearer token of a request is refused, `POST /api/shares` answers the status and the
  -- message of the refusal, and nothing happens but the look-up of the token.
  handle-fails_unauthorized :
      (body : Multipart) (e : ApiError)
      → (api_caller headers w).0 ≡ err e
      → handle app headers (posts_api_shares body) w
        ≡ (ok (failed e.status e.message), (api_caller headers w).1)
  unfolding handle api_answered Post.api_shares_post respond ◌>>=◌
  handle-fails_unauthorized body e refused = rw refused refl
