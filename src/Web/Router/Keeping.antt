-- ===== src/Web/Router/Keeping.antt =====
-- Every handler of crates/web keeps every property that the methods of `App` keep.
use fips_dropbox.Prelude.{List, [], ◌∷◌}
use fips_dropbox.Text.{Text}
use fips_dropbox.Result.{Result, ok, err, panic}
use fips_dropbox.Effect.{M}
use fips_dropbox.Effect.Keeps.{Keeps, keeps_rules, Keeps-fail, Keeps-bind, Keeps-pure}
use fips_dropbox.Errors.{ServiceError, invalid_credentials, share_unavailable, not_found}
use fips_dropbox.Platform.{Platform}
use fips_dropbox.World.{World}
use fips_dropbox.Storage.Records.{User, ShareListItem}
use fips_dropbox.Storage.Stable.{IsFramed}
use fips_dropbox.Storage.Stable.Kept.{IsKept}
use fips_dropbox.Service.{App}
use fips_dropbox.Service.Create.{NewShareRequest}
use fips_dropbox.Service.History.Operations.{
  operation_rules, redeem_share-Keeps, create_share-Keeps, list_recent_shares-Keeps, revoke-Keeps,
}
use fips_dropbox.Web.Pages.{Page}
use fips_dropbox.Web.Http.{Http, Headers, Handler, on_result, respond, render}
use fips_dropbox.Web.Extract
use fips_dropbox.Web.SignIn
use fips_dropbox.Web.SignIn.{LoginForm}
use fips_dropbox.Web.AuditLog
use fips_dropbox.Web.Sharing
use fips_dropbox.Web.Minting
use fips_dropbox.Web.Upload.{Multipart}
use fips_dropbox.Web.Upload.Post
use fips_dropbox.Web.Upload.Post.{FormRefusal, bad_request, shows}
use fips_dropbox.Web.Router.{
  Route, at_dashboard, at_login, posts_login, posts_logout, at_share_new, posts_share_new,
  at_shares, posts_share_revoke, at_audit, at_audit_csv, at_tokens, posts_tokens,
  posts_token_revoke, posts_api_shares, at_redeem, posts_redeem, at_health, api_answered, handle,
}

module _ {I : World → Type 0} where
  after_call :
      {E A B F : Type 0} (r : Result E A) (f : A → M World F B) (g : E → M World F B) (w : World)
      → ((a : A) → Keeps I (f a))
      → ((e : E) → Keeps I (g e))
      → I w
      → I (on_result r f g w).1
  after_call (ok a) f g w kf kg h = (kf a).at w h
  after_call (err e) f g w kf kg h = (kg e).at w h
  after_call panic f g w kf kg h = h

  Keeps-respond :
      {E A B F : Type 0} (call : M World E A) (f : A → M World F B) (g : E → M World F B)
      → Keeps I call
      → ((a : A) → Keeps I (f a))
      → ((e : E) → Keeps I (g e))
      → Keeps I (respond call f g)
  unfolding respond
  Keeps-respond call f g k kf kg = record {
    at = λ w h. after_call (call w).0 f g (call w).1 kf kg (k.at w h);
  }

  Keeps-render : ⦃http : Http⦄ → (p : Page) → Keeps I (render p)
  unfolding render
  Keeps-render p = search keeps_rules

ruleset web_rules = (operation_rules, Keeps-respond, Keeps-render)

module _ ⦃os : Platform⦄ {I : World → Type 0} (framed : IsFramed I) where
  resolve_user-Keeps : (headers : Headers) → Keeps I (Extract.resolve_user headers)
  unfolding Extract.resolve_user
  resolve_user-Keeps headers = search web_rules depth 10

  current_user-Keeps : (headers : Headers) → Keeps I (Extract.current_user headers)
  unfolding Extract.current_user
  current_user-Keeps headers = search (web_rules, resolve_user-Keeps)

  signed_in-Keeps :
      (headers : Headers) (handler : User → Handler)
      → ((user : User) → Keeps I (handler user))
      → Keeps I (Extract.signed_in headers handler)
  unfolding Extract.signed_in
  signed_in-Keeps headers handler k = search (web_rules, current_user-Keeps, k)

  api_caller-Keeps : (headers : Headers) → Keeps I (Extract.api_caller headers)
  unfolding Extract.api_caller
  api_caller-Keeps headers = search web_rules depth 12

module _ ⦃os : Platform⦄ ⦃http : Http⦄ {I : World → Type 0} (framed : IsFramed I) where
  dashboard-Keeps : (app : App) (headers : Headers) → Keeps I (SignIn.dashboard app headers)
  unfolding SignIn.dashboard
  dashboard-Keeps app headers = search (web_rules, signed_in-Keeps)

  login_get-Keeps : (headers : Headers) → Keeps I (SignIn.login_get headers)
  unfolding SignIn.login_get
  login_get-Keeps headers = search (web_rules, current_user-Keeps)

  refused_log_in-Keeps : (e : ServiceError) → Keeps I (SignIn.login_refused e)
  refused_log_in-Keeps invalid_credentials = search web_rules
  refused_log_in-Keeps _ = Keeps-fail 500

  login_post-Keeps :
      (headers : Headers) (form : LoginForm) → Keeps I (SignIn.login_post headers form)
  unfolding SignIn.login_post
  login_post-Keeps headers form = search (web_rules, refused_log_in-Keeps) depth 10

  logout_post-Keeps : (headers : Headers) → Keeps I (SignIn.logout_post headers)
  unfolding SignIn.logout_post
  logout_post-Keeps headers = search web_rules depth 10

  audit_get-Keeps :
      (headers : Headers) (filter : Text) → Keeps I (AuditLog.audit_get headers filter)
  unfolding AuditLog.audit_get
  audit_get-Keeps headers filter = search (web_rules, signed_in-Keeps) depth 10

  audit_csv-Keeps :
      (headers : Headers) (filter : Text) → Keeps I (AuditLog.audit_csv headers filter)
  unfolding AuditLog.audit_csv
  audit_csv-Keeps headers filter = search (web_rules, signed_in-Keeps) depth 10

  share_row-Keeps : (s : ShareListItem) → Keeps I (Sharing.share_row s)
  unfolding Sharing.share_row
  share_row-Keeps s = search web_rules depth 10

  share_rows-Keeps : (list : List ShareListItem) → Keeps I (Sharing.share_rows list)
  unfolding Sharing.share_rows
  share_rows-Keeps [] = search web_rules
  share_rows-Keeps (s ∷ list) = Keeps-bind (Sharing.share_row s) _ (share_row-Keeps s) λ row.
      Keeps-bind (Sharing.share_rows list) _ (share_rows-Keeps list) λ rows. Keeps-pure (row ∷ rows)

  redeem_refused-Keeps :
      (token : Text) (e : ServiceError) → Keeps I (Sharing.redeem_refused token e)
  redeem_refused-Keeps token invalid_credentials = search web_rules
  redeem_refused-Keeps token share_unavailable = search web_rules
  redeem_refused-Keeps token not_found = search web_rules
  redeem_refused-Keeps token _ = Keeps-fail 500

  tokens_get-Keeps : (headers : Headers) → Keeps I (Minting.tokens_get headers)
  unfolding Minting.tokens_get
  tokens_get-Keeps headers = search (web_rules, signed_in-Keeps) depth 10

  tokens_post-Keeps :
      (headers : Headers) (label : Text) → Keeps I (Minting.tokens_post headers label)
  unfolding Minting.tokens_post
  tokens_post-Keeps headers label = search (web_rules, signed_in-Keeps) depth 10

  token_revoke-Keeps : (headers : Headers) (id : Text) → Keeps I (Minting.token_revoke headers id)
  unfolding Minting.token_revoke
  token_revoke-Keeps headers id = search (web_rules, signed_in-Keeps) depth 10

  share_new_get-Keeps : (headers : Headers) → Keeps I (Post.share_new_get headers)
  unfolding Post.share_new_get
  share_new_get-Keeps headers = search (web_rules, signed_in-Keeps)

  refused_form-Keeps : (refusal : FormRefusal) → Keeps I (Post.refused_form refusal)
  unfolding Post.refused_form
  refused_form-Keeps bad_request = Keeps-fail 400
  refused_form-Keeps (shows message) = search web_rules

  Keeps-redeem_get : (token : Text) → Keeps I (Sharing.redeem_get token)
  unfolding Sharing.redeem_get
  Keeps-redeem_get token = search web_rules

module _ ⦃os : Platform⦄ ⦃http : Http⦄ {I : World → Type 0} (kept : IsKept I) where
  shares_list_get-Keeps : (headers : Headers) → Keeps I (Sharing.shares_list_get headers)
  unfolding Sharing.shares_list_get
  shares_list_get-Keeps headers =
      search (web_rules, kept.framed, signed_in-Keeps, list_recent_shares-Keeps, share_rows-Keeps)
        depth 10

  share_revoke-Keeps : (headers : Headers) (id : Text) → Keeps I (Sharing.share_revoke headers id)
  unfolding Sharing.share_revoke
  share_revoke-Keeps headers id =
      search (web_rules, kept.framed, signed_in-Keeps, revoke-Keeps) depth 10

  redeem_post-Keeps :
      (app : App) (headers : Headers) (token access_code : Text)
      → Keeps I (Sharing.redeem_post app headers token access_code)
  unfolding Sharing.redeem_post
  redeem_post-Keeps app headers token access_code =
      search (web_rules, redeem_share-Keeps, redeem_refused-Keeps kept.framed token) depth 10

  posted_form-Keeps :
      (app : App) (r : Result FormRefusal NewShareRequest) → Keeps I (Post.posted_form app r)
  unfolding Post.posted_form Post.share_created_answer
  posted_form-Keeps app (ok req) = search (web_rules, create_share-Keeps) depth 10
  posted_form-Keeps app (err refusal) = refused_form-Keeps kept.framed refusal
  posted_form-Keeps app panic = search web_rules

  share_new_post-Keeps :
      (app : App) (headers : Headers) (body : Multipart)
      → Keeps I (Post.share_new_post app headers body)
  unfolding Post.share_new_post
  share_new_post-Keeps app headers body =
      search (web_rules, kept.framed, signed_in-Keeps, posted_form-Keeps) depth 10

  api_shares_post-Keeps :
      (app : App) (headers : Headers) (body : Multipart)
      → Keeps I (Post.api_shares_post app headers body)
  unfolding Post.api_shares_post
  api_shares_post-Keeps app headers body =
      search (web_rules, kept.framed, api_caller-Keeps, create_share-Keeps) depth 10

  -- A property that the requests keep is kept by every route, whoever sends it.
  pub handle-Keeps :
      (app : App) (headers : Headers) (route : Route) → Keeps I (handle app headers route)
  unfolding handle api_answered
  handle-Keeps app headers at_dashboard = dashboard-Keeps kept.framed app headers
  handle-Keeps app headers at_login = login_get-Keeps kept.framed headers
  handle-Keeps app headers (posts_login form) = login_post-Keeps kept.framed headers form
  handle-Keeps app headers posts_logout = logout_post-Keeps kept.framed headers
  handle-Keeps app headers at_share_new = share_new_get-Keeps kept.framed headers
  handle-Keeps app headers (posts_share_new body) = share_new_post-Keeps app headers body
  handle-Keeps app headers at_shares = shares_list_get-Keeps headers
  handle-Keeps app headers (posts_share_revoke id) = share_revoke-Keeps headers id
  handle-Keeps app headers (at_audit filter) = audit_get-Keeps kept.framed headers filter
  handle-Keeps app headers (at_audit_csv filter) = audit_csv-Keeps kept.framed headers filter
  handle-Keeps app headers at_tokens = tokens_get-Keeps kept.framed headers
  handle-Keeps app headers (posts_tokens label) = tokens_post-Keeps kept.framed headers label
  handle-Keeps app headers (posts_token_revoke id) = token_revoke-Keeps kept.framed headers id
  handle-Keeps app headers (posts_api_shares body) =
      search (web_rules, api_shares_post-Keeps app headers body)
  handle-Keeps app headers (at_redeem token) = Keeps-redeem_get kept.framed token
  handle-Keeps app headers (posts_redeem token access_code) =
      redeem_post-Keeps app headers token access_code
  handle-Keeps app headers at_health = search web_rules
