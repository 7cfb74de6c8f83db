-- ===== src/Service/History.antt =====
-- Any sequence of requests, whoever sends them and however they end, and what it keeps of the
-- shares.
pub mod Keeping
pub mod Operations
pub mod Shares
use fips_dropbox.Prelude.{ℕ, Option, List, [], ◌∷◌}
use fips_dropbox.Text.{Text, Bytes}
use fips_dropbox.Platform.{Platform}
use fips_dropbox.World.{World}
use fips_dropbox.Service.{App}
use fips_dropbox.Service.Auth.{LoginRequest, login, logout, find_authenticated}
use fips_dropbox.Service.Create.{NewShareRequest, create_share, revoke_share}
use fips_dropbox.Service.Redeem.{RedeemRequest, redeem_share}
use fips_dropbox.Service.View.{list_audit_events, list_recent_shares}
use fips_dropbox.Service.Tokens.{
  mint_api_token, list_api_tokens, revoke_api_token, verify_api_token,
}

-- The methods of `App`, with their arguments.
pub data Request : Type 0 where
  logs_in : LoginRequest → Request
  logs_out : Text → Text → Text → Request
  authenticates : Text → Request
  creates : NewShareRequest → Request
  redeems : RedeemRequest → Request
  lists_audit : Option Text → ℕ → Request
  mints_token : Bytes → Text → Text → Text → Request
  lists_tokens : Bytes → Request
  revokes_token : Bytes → Bytes → Text → Text → Request
  verifies_token : Text → Request
  lists_shares : ℕ → Request
  revokes_share : Bytes → Bytes → Text → Text → Request

module _ ⦃os : Platform⦄ (app : App) where
  -- The world after a request.
  unfoldable pub step : Request → World → World
  step (logs_in req) w = (login req w).1
  step (logs_out token ip ua) w = (logout token ip ua w).1
  step (authenticates token) w = (find_authenticated token w).1
  step (creates req) w = (create_share app req w).1
  step (redeems req) w = (redeem_share app req w).1
  step (lists_audit prefix limit) w = (list_audit_events prefix limit w).1
  step (mints_token by label ip ua) w = (mint_api_token by label ip ua w).1
  step (lists_tokens user) w = (list_api_tokens user w).1
  step (revokes_token id by ip ua) w = (revoke_api_token id by ip ua w).1
  step (verifies_token token) w = (verify_api_token token w).1
  step (lists_shares limit) w = (list_recent_shares limit w).1
  step (revokes_share id by ip ua) w = (revoke_share id by ip ua w).1

  unfoldable pub serve : World → List Request → World
  serve w [] = w
  serve w (r ∷ requests) = serve (step r w) requests
