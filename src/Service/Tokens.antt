-- ===== src/Service/Tokens.antt =====
-- The API token operations of crates/service/src/lib.rs.
use fips_dropbox.Prelude.{Option, none, some, List, codes, is_some, if◌then◌else◌}
use fips_dropbox.Text.{Text, Bytes}
use fips_dropbox.Effect.{M, pure, within, maybe, ◌>>=◌, ◌>>◌}
use fips_dropbox.Errors.{ServiceError, storage}
use fips_dropbox.Platform.{Platform}
use fips_dropbox.Event.{Outcome}
use fips_dropbox.World.{World}
use fips_dropbox.Storage.Records.{User, ApiToken, IssuedApiToken}
use fips_dropbox.Storage.Users
use fips_dropbox.Storage.ApiTokens
use fips_dropbox.Service.{
  with_store, with_audit, spawn_blocking, json_field, json_empty, write_event,
}

module _ ⦃os : Platform⦄ where
  unfoldable pub mint_api_token : Bytes → Text → Text → Text → M World ServiceError IssuedApiToken
  mint_api_token by label ip ua = spawn_blocking (
      with_store (do
        issued ← within storage (ApiTokens.create by label)
        with_audit (do
          write_event (codes "api_token.created") Outcome.success (some by) ip ua
              (json_field (codes "token_id") (os.uuid_to_string issued.token.id))
              (json_field (codes "label") label)
          pure issued)))

  unfoldable pub list_api_tokens : Bytes → M World ServiceError (List ApiToken)
  list_api_tokens user_id =
      spawn_blocking (with_store (within storage (ApiTokens.list_for_user user_id)))

  unfoldable pub revoke_api_token : Bytes → Bytes → Text → Text → M World ServiceError Unit
  revoke_api_token token_id by ip ua = spawn_blocking (
      with_store (do
        within storage (ApiTokens.revoke token_id)
        with_audit (
            write_event (codes "api_token.revoked") Outcome.success (some by) ip ua
              (json_field (codes "token_id") (os.uuid_to_string token_id)) json_empty)))

  unfoldable pub verify_api_token : Text → M World ServiceError (Option (ApiToken × User))
  verify_api_token raw_token = spawn_blocking (
      with_store (do
        found ← within storage (ApiTokens.find_valid_by_raw raw_token)
        maybe found (pure none) λ token. do
          owner ← within storage (Users.find_by_id token.user_id)
          maybe owner (pure none)
              λ user. pure (if is_some user.disabled_at then none else some (token, user))))
