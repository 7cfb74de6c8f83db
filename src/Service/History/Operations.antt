-- ===== src/Service/History/Operations.antt =====
-- Every method of `App` keeps every stable property of the shares, and so does any sequence of
-- them.
use fips_dropbox.Prelude.{ℕ, Option, List, [], ◌∷◌}
use fips_dropbox.Text.{Text, Bytes}
use fips_dropbox.Effect.Keeps.{Keeps}
use fips_dropbox.Errors.{ServiceError}
use fips_dropbox.Platform.{Platform}
use fips_dropbox.World.{World}
use fips_dropbox.Storage.Records.{Share, User, Vendor, Print}
use fips_dropbox.Storage.Stable.{IsFramed}
use fips_dropbox.Storage.Stable.Kept.{IsKept}
use fips_dropbox.Service.{App}
use fips_dropbox.Service.Auth
use fips_dropbox.Service.Auth.{LoginRequest}
use fips_dropbox.Service.Create
use fips_dropbox.Service.Create.{NewShareRequest}
use fips_dropbox.Service.Redeem
use fips_dropbox.Service.Redeem.{RedeemRequest}
use fips_dropbox.Service.View
use fips_dropbox.Service.Tokens
use fips_dropbox.Service.History.{
  Request, logs_in, logs_out, authenticates, creates, redeems, lists_audit, mints_token,
  lists_tokens, revokes_token, verifies_token, lists_shares, revokes_share, step, serve,
}
use fips_dropbox.Service.History.Keeping.{
  service_rules, find_share-Keeps, list_recent-Keeps, create-Keeps, try_consume-Keeps,
  revoke_share-Keeps,
}

module _ ⦃os : Platform⦄ {I : World → Type 0} (framed : IsFramed I) where
  pub login_denied-Keeps : (req : LoginRequest) → Keeps I (Auth.login_denied req)
  unfolding Auth.login_denied
  login_denied-Keeps req = search service_rules depth 10

  pub login_accepted-Keeps :
      (req : LoginRequest) (user : User) → Keeps I (Auth.login_accepted req user)
  unfolding Auth.login_accepted
  login_accepted-Keeps req user = search service_rules depth 10

  pub login-Keeps : (req : LoginRequest) → Keeps I (Auth.login req)
  unfolding Auth.login
  login-Keeps req = search (service_rules, login_denied-Keeps, login_accepted-Keeps) depth 10

  pub logout-Keeps : (token ip ua : Text) → Keeps I (Auth.logout token ip ua)
  unfolding Auth.logout
  logout-Keeps token ip ua = search service_rules depth 10

  pub find_authenticated-Keeps : (token : Text) → Keeps I (Auth.find_authenticated token)
  unfolding Auth.find_authenticated
  find_authenticated-Keeps token = search service_rules depth 12

  pub list_audit_events-Keeps :
      (prefix : Option Text) (limit : ℕ) → Keeps I (View.list_audit_events prefix limit)
  unfolding View.list_audit_events
  list_audit_events-Keeps prefix limit = search service_rules depth 10

  pub mint_api_token-Keeps :
      (by : Bytes) (label ip ua : Text) → Keeps I (Tokens.mint_api_token by label ip ua)
  unfolding Tokens.mint_api_token
  mint_api_token-Keeps by label ip ua = search service_rules depth 10

  pub list_api_tokens-Keeps : (user : Bytes) → Keeps I (Tokens.list_api_tokens user)
  unfolding Tokens.list_api_tokens
  list_api_tokens-Keeps user = search service_rules depth 10

  pub revoke_api_token-Keeps :
      (id by : Bytes) (ip ua : Text) → Keeps I (Tokens.revoke_api_token id by ip ua)
  unfolding Tokens.revoke_api_token
  revoke_api_token-Keeps id by ip ua = search service_rules depth 10

  pub verify_api_token-Keeps : (token : Text) → Keeps I (Tokens.verify_api_token token)
  unfolding Tokens.verify_api_token
  verify_api_token-Keeps token = search service_rules depth 12

  pub denied-Keeps :
      {A : Type 0} (req : RedeemRequest) (share : Share) (reason : Text) (e : ServiceError)
      → Keeps I (Redeem.denied {A = A} req share reason e)
  unfolding Redeem.denied
  denied-Keeps req share reason e = search service_rules depth 10

  pub unknown_token-Keeps :
      {A : Type 0} (req : RedeemRequest) → Keeps I (Redeem.unknown_token {A = A} req)
  unfolding Redeem.unknown_token
  unknown_token-Keeps req = search service_rules depth 10

  pub deliver-Keeps :
      (app : App) (req : RedeemRequest) (share : Share) → Keeps I (Redeem.deliver app req share)
  unfolding Redeem.deliver
  deliver-Keeps app req share = search service_rules depth 12

  pub find_or_create_vendor-Keeps :
      (req : NewShareRequest) → Keeps I (Create.find_or_create_vendor req)
  unfolding Create.find_or_create_vendor
  find_or_create_vendor-Keeps req = search service_rules depth 10

module _ ⦃os : Platform⦄ {I : World → Type 0} (kept : IsKept I) where
  pub redeem_found-Keeps :
      (app : App) (req : RedeemRequest) (share : Share)
      → Keeps I (Redeem.redeem_found app req share)
  unfolding Redeem.redeem_found
  redeem_found-Keeps app req share =
      search (service_rules, kept.framed, denied-Keeps, deliver-Keeps, try_consume-Keeps) depth 10

  pub redeem_share-Keeps : (app : App) (req : RedeemRequest) → Keeps I (Redeem.redeem_share app req)
  unfolding Redeem.redeem_share
  redeem_share-Keeps app req =
      search (service_rules, kept.framed, find_share-Keeps, unknown_token-Keeps, redeem_found-Keeps)
        depth 12

  pub share_print-Keeps :
      (req : NewShareRequest) (vendor : Vendor) (print : Print)
      → Keeps I (Create.share_print req vendor print)
  unfolding Create.share_print
  share_print-Keeps req vendor print = search (service_rules, kept.framed, create-Keeps) depth 12

  pub store_share-Keeps : (app : App) (req : NewShareRequest) → Keeps I (Create.store_share app req)
  unfolding Create.store_share
  store_share-Keeps app req = search (
    service_rules, kept.framed, kept.insert_print, find_or_create_vendor-Keeps, share_print-Keeps,
  )

  pub create_share-Keeps :
      (app : App) (req : NewShareRequest) → Keeps I (Create.create_share app req)
  unfolding Create.create_share
  create_share-Keeps app req = search (service_rules, kept.framed, store_share-Keeps) depth 10

  pub list_recent_shares-Keeps : (limit : ℕ) → Keeps I (View.list_recent_shares limit)
  unfolding View.list_recent_shares
  list_recent_shares-Keeps limit = search (service_rules, list_recent-Keeps, kept.framed)

  pub revoke-Keeps : (id by : Bytes) (ip ua : Text) → Keeps I (Create.revoke_share id by ip ua)
  unfolding Create.revoke_share
  revoke-Keeps id by ip ua = search (service_rules, kept.framed, revoke_share-Keeps) depth 10

  pub step-Keeps : (app : App) (r : Request) (w : World) → I w → I (step app r w)
  unfolding step
  step-Keeps app (logs_in req) w h = (login-Keeps kept.framed req).at w h
  step-Keeps app (logs_out token ip ua) w h = (logout-Keeps kept.framed token ip ua).at w h
  step-Keeps app (authenticates token) w h = (find_authenticated-Keeps kept.framed token).at w h
  step-Keeps app (creates req) w h = (create_share-Keeps app req).at w h
  step-Keeps app (redeems req) w h = (redeem_share-Keeps app req).at w h
  step-Keeps app (lists_audit prefix limit) w h =
      (list_audit_events-Keeps kept.framed prefix limit).at w h
  step-Keeps app (mints_token by label ip ua) w h =
      (mint_api_token-Keeps kept.framed by label ip ua).at w h
  step-Keeps app (lists_tokens user) w h = (list_api_tokens-Keeps kept.framed user).at w h
  step-Keeps app (revokes_token id by ip ua) w h =
      (revoke_api_token-Keeps kept.framed id by ip ua).at w h
  step-Keeps app (verifies_token token) w h = (verify_api_token-Keeps kept.framed token).at w h
  step-Keeps app (lists_shares limit) w h = (list_recent_shares-Keeps limit).at w h
  step-Keeps app (revokes_share id by ip ua) w h = (revoke-Keeps id by ip ua).at w h

  -- A stable property of the shares holds after any requests.
  pub serve-Keeps :
      (app : App) (requests : List Request) (w : World) → I w → I (serve app w requests)
  unfolding serve
  serve-Keeps app [] w h = h
  serve-Keeps app (r ∷ requests) w h =
      serve-Keeps app requests (step app r w) (step-Keeps app r w h)

-- The operations that leave the shares alone.
pub ruleset operation_rules = (
  service_rules, login-Keeps, logout-Keeps, find_authenticated-Keeps, list_audit_events-Keeps,
  mint_api_token-Keeps, list_api_tokens-Keeps, revoke_api_token-Keeps, verify_api_token-Keeps,
)
