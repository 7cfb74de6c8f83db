-- ===== src/Storage/Stable/Functions.antt =====
-- The storage functions that requests run, all but those on shares, keep every property of the
-- shares.
use fips_dropbox.Prelude.{ℕ, Option}
use fips_dropbox.Text.{Text, Bytes}
use fips_dropbox.Effect.Keeps.{Keeps}
use fips_dropbox.Platform.{Platform}
use fips_dropbox.World.{World}
use fips_dropbox.Storage.Users
use fips_dropbox.Storage.Vendors
use fips_dropbox.Storage.Prints
use fips_dropbox.Storage.Sessions
use fips_dropbox.Storage.ApiTokens
use fips_dropbox.Storage.Stable.{IsFramed}
use fips_dropbox.Storage.Stable.Steps.{crypto_rules}

module _ ⦃os : Platform⦄ {I : World → Type 0} (framed : IsFramed I) where
  pub verify_password-Keeps :
      (email password : Text) → Keeps I (Users.verify_password email password)
  unfolding Users.verify_password
  verify_password-Keeps email password = search crypto_rules

  pub find_user-Keeps : (id : Bytes) → Keeps I (Users.find_by_id id)
  unfolding Users.find_by_id
  find_user-Keeps id = search crypto_rules

  pub create_session-Keeps :
      (user_id : Bytes) (ip ua : Text) (ttl_hours : ℕ)
      → Keeps I (Sessions.create user_id ip ua ttl_hours)
  unfolding Sessions.create
  create_session-Keeps user_id ip ua ttl_hours = search crypto_rules depth 12

  pub find_session-Keeps : (raw_token : Text) → Keeps I (Sessions.find_valid raw_token)
  unfolding Sessions.find_valid
  find_session-Keeps raw_token = search crypto_rules depth 12

  pub revoke_session-Keeps : (raw_token : Text) → Keeps I (Sessions.revoke raw_token)
  unfolding Sessions.revoke
  revoke_session-Keeps raw_token = search crypto_rules

  pub create_token-Keeps :
      (user_id : Bytes) (label : Text) → Keeps I (ApiTokens.create user_id label)
  unfolding ApiTokens.create
  create_token-Keeps user_id label = search crypto_rules depth 12

  pub find_token-Keeps : (raw_token : Text) → Keeps I (ApiTokens.find_valid_by_raw raw_token)
  unfolding ApiTokens.find_valid_by_raw
  find_token-Keeps raw_token = search crypto_rules depth 12

  pub list_tokens-Keeps : (user_id : Bytes) → Keeps I (ApiTokens.list_for_user user_id)
  unfolding ApiTokens.list_for_user
  list_tokens-Keeps user_id = search crypto_rules

  pub revoke_token-Keeps : (id : Bytes) → Keeps I (ApiTokens.revoke id)
  unfolding ApiTokens.revoke
  revoke_token-Keeps id = search crypto_rules

  pub find_vendor-Keeps : (email : Text) → Keeps I (Vendors.find_by_email email)
  unfolding Vendors.find_by_email
  find_vendor-Keeps email = search crypto_rules

  pub create_vendor-Keeps :
      (display_name email : Text) (phone : Option Text) (created_by : Bytes)
      → Keeps I (Vendors.create display_name email phone created_by)
  unfolding Vendors.create
  create_vendor-Keeps display_name email phone created_by = search crypto_rules depth 12

  pub find_print-Keeps : (id : Bytes) → Keeps I (Prints.find id)
  unfolding Prints.find
  find_print-Keeps id = search crypto_rules

  pub read_blob-Keeps : (kek id : Bytes) → Keeps I (Prints.read_blob kek id)
  unfolding Prints.read_blob
  read_blob-Keeps kek id = search crypto_rules depth 12

pub ruleset storage_rules = (
  crypto_rules, verify_password-Keeps, find_user-Keeps, create_session-Keeps, find_session-Keeps,
  revoke_session-Keeps, create_token-Keeps, find_token-Keeps, list_tokens-Keeps, revoke_token-Keeps,
  find_vendor-Keeps, create_vendor-Keeps, find_print-Keeps, read_blob-Keeps,
)
