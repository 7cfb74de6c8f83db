-- ===== src/Web/SignIn.antt =====
-- The dashboard, the log-in and the log-out of crates/web/src/lib.rs.
use fips_dropbox.Prelude.{Option, none, some, [], codes, is_empty, is_some, if◌then◌else◌}
use fips_dropbox.Text.{Text, trim}
use fips_dropbox.Effect.{pure, fail, or_panic, ◌>>=◌}
use fips_dropbox.Errors.{ServiceError, invalid_credentials}
use fips_dropbox.Platform.{Platform}
use fips_dropbox.World.{now_utc}
use fips_dropbox.Service.{App}
use fips_dropbox.Service.Auth.{LoginRequest, login, logout}
use fips_dropbox.Web.Pages.{login_page, dashboard_page}
use fips_dropbox.Web.Http.{Http, Headers, redirect, redirect_with_cookie, Handler, respond, render}
use fips_dropbox.Web.Cookies.{
  session_cookie, cookie_value, build_session_cookie, clear_session_cookie, client_ip, user_agent,
}
use fips_dropbox.Web.Extract.{current_user, signed_in}

pub record LoginForm : Type 0 where
  pub email : Text
  pub password : Text

-- A cookie that is no header text is the panic of `unwrap`.
unfoldable pub checked_cookie : ⦃http : Http⦄ → Text → Option Text
checked_cookie ⦃http⦄ cookie = if http.is_header_text cookie then some cookie else none

module _ ⦃os : Platform⦄ ⦃http : Http⦄ where
  unfoldable pub dashboard : App → Headers → Handler
  dashboard app headers = signed_in headers λ user. render (
      dashboard_page user.email
        (if app.fips_mode_enabled then codes "enabled" else codes "DISABLED (dev mode)"))

  unfoldable pub login_get : Headers → Handler
  login_get headers = do
    user ← current_user headers
    if is_some user then pure (redirect (codes "/")) else render (login_page none)

  unfoldable pub login_request_of : Headers → LoginForm → LoginRequest
  login_request_of headers form = record {
    email = http.to_lowercase (trim form.email);
    password = form.password;
    ip = client_ip headers;
    user_agent = user_agent headers;
  }

  abbrev pub login_refused : ServiceError → Handler
  login_refused invalid_credentials =
      render (login_page (some (codes "Incorrect email or password.")))
  login_refused _ = fail 500

  unfoldable pub login_post : Headers → LoginForm → Handler
  unfolding checked_cookie login_request_of
  login_post headers form =
      respond (login (login_request_of headers form))
        (λ issued. do
          now ← now_utc
          cookie ←
              or_panic (
                checked_cookie
                  (build_session_cookie issued.raw_token issued.session.expires_at now))
          pure (redirect_with_cookie (codes "/") cookie))
        login_refused

  abbrev session_token : Option Text → Text
  session_token none = []
  session_token (some token) = token

  unfoldable pub logout_post : Headers → Handler
  unfolding checked_cookie
  logout_post headers =
      let token = session_token (cookie_value headers session_cookie) in
      let answer : Handler = do
        cookie ← or_panic (checked_cookie clear_session_cookie)
        pure (redirect_with_cookie (codes "/login") cookie)
      in if is_empty token
        then answer
        else respond (logout token (client_ip headers) (user_agent headers)) (λ u. answer)
            (λ e. answer)
