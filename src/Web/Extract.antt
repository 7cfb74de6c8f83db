-- ===== src/Web/Extract.antt =====
-- crates/web/src/auth.rs: who sends a request.
use fips_dropbox.Prelude.{Option, none, some, codes}
use fips_dropbox.Text.{Text}
use fips_dropbox.Effect.{M, pure, fail, maybe, ◌>>=◌}
use fips_dropbox.Platform.{Platform}
use fips_dropbox.World.{World}
use fips_dropbox.Storage.Records.{Session, User, ApiToken}
use fips_dropbox.Service.Auth.{find_authenticated}
use fips_dropbox.Service.Tokens.{verify_api_token}
use fips_dropbox.Web.Strings.{strip_prefix}
use fips_dropbox.Web.Http.{Headers, Status, redirect, Handler, respond}
use fips_dropbox.Web.Cookies.{session_cookie, cookie_value}

pub record ApiCaller : Type 0 where
  pub user : User
  pub token : ApiToken

pub record ApiError : Type 0 where
  pub status : Status
  pub message : Text

module _ ⦃os : Platform⦄ where
  abbrev user_of : Option (Session × User) → Option User
  user_of none = none
  user_of (some (sess, user)) = some user

  unfoldable pub resolve_user : Headers → M World Status (Option User)
  resolve_user headers =
      maybe (cookie_value headers session_cookie) (pure none)
        λ token. respond (find_authenticated token) (λ found. pure (user_of found)) (λ e. fail 500)

  -- `CurrentUser`: an error of the look-up redirects too.
  unfoldable pub current_user : Headers → M World Status (Option User)
  unfolding resolve_user
  current_user headers = respond (resolve_user headers) pure (λ e. pure none)

  -- A handler that takes a `CurrentUser`.
  unfoldable pub signed_in : Headers → (User → Handler) → Handler
  unfolding current_user
  signed_in headers handler = do
    user ← current_user headers
    maybe user (pure (redirect (codes "/login"))) handler

  unauthorized : Text → ApiError
  unauthorized message = record { status = 401; message = message }

  unfoldable pub api_caller : Headers → M World ApiError ApiCaller
  unfolding unauthorized
  api_caller headers =
      maybe (headers (codes "authorization"))
        (fail (unauthorized (codes "missing Authorization header")))
        λ auth.
          maybe (strip_prefix (codes "Bearer ") auth)
            (fail (unauthorized (codes "Authorization must be a Bearer token")))
            λ raw_token.
              respond (verify_api_token raw_token)
                (λ found.
                  maybe found (fail (unauthorized (codes "invalid or revoked token")))
                    λ (token, user). pure (record { user = user; token = token }))
                (λ e. fail (record { status = 500; message = codes "internal error" }))
