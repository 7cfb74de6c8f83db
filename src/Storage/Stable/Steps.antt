-- ===== src/Storage/Stable/Steps.antt =====
-- The statements and the storage functions that requests run keep every stable property of the
-- shares.
use fips_dropbox.Prelude.{ℕ, refl, Bool, true, false, if◌then◌else◌}
use fips_dropbox.Text.{Bytes}
use fips_dropbox.Result.{ok, err}
use fips_dropbox.Effect.Keeps.{Keeps, keeps_rules}
use fips_dropbox.Errors.{constraint_violation}
use fips_dropbox.Platform.{Platform}
use fips_dropbox.World.{World}
use fips_dropbox.Crypto
use fips_dropbox.Crypto.Kek.{wrap_dek}
use fips_dropbox.Crypto.Token.{url_token, access_code}
use fips_dropbox.Storage.Rows.{VendorRow, SessionRow, ApiTokenRow, Db}
use fips_dropbox.Storage.Queries.{affected_some}
use fips_dropbox.Storage.Vendors
use fips_dropbox.Storage.Sessions
use fips_dropbox.Storage.ApiTokens
use fips_dropbox.Storage.Stable.{IsStable, IsFramed, After, StatementKeeps, world_rules}

pub After-insert :
    (I : World → Type 0) (clash : Bool) (w : World) (db : Db)
    → I (record w { db = db })
    → After I w (if clash then err constraint_violation else ok (tt, db))
After-insert I true w db h = tt
After-insert I false w db h = h

module _ {I : World → Type 0} (framed : IsFramed I) where
  pub insert_vendor-Keeps : (row : VendorRow) → StatementKeeps I (Vendors.insert_vendor row)
  unfolding Vendors.insert_vendor
  insert_vendor-Keeps row = record {
    at = λ w h. After-insert I _ w _ (framed.tables w _ refl refl h);
  }

  pub insert_session-Keeps : (row : SessionRow) → StatementKeeps I (Sessions.insert_session row)
  unfolding Sessions.insert_session
  insert_session-Keeps row = record {
    at = λ w h. After-insert I _ w _ (framed.tables w _ refl refl h);
  }

  pub insert_token-Keeps : (row : ApiTokenRow) → StatementKeeps I (ApiTokens.insert_token row)
  unfolding ApiTokens.insert_token
  insert_token-Keeps row = record {
    at = λ w h. After-insert I _ w _ (framed.tables w _ refl refl h);
  }

  pub touch_session-Keeps :
      (id : Bytes) (now : ℕ) → StatementKeeps I (Sessions.touch_statement id now)
  unfolding Sessions.touch_statement
  touch_session-Keeps id now = record { at = λ w h. framed.tables w _ refl refl h }

  pub delete_session-Keeps :
      (hit : SessionRow → Bool) → StatementKeeps I (Sessions.delete_statement hit)
  unfolding Sessions.delete_statement
  delete_session-Keeps hit = record { at = λ w h. framed.tables w _ refl refl h }

  pub touch_token-Keeps :
      (id : Bytes) (now : ℕ) → StatementKeeps I (ApiTokens.touch_statement id now)
  unfolding ApiTokens.touch_statement
  touch_token-Keeps id now = record { at = λ w h. framed.tables w _ refl refl h }

  pub revoke_token-Keeps :
      (id : Bytes) (now : ℕ) → StatementKeeps I (ApiTokens.revoke_statement id now)
  unfolding ApiTokens.revoke_statement
  revoke_token-Keeps id now = record { at = λ w h. framed.tables w _ refl refl h }

  pub affected_some-Keeps : (n : ℕ) → Keeps I (affected_some n)
  unfolding affected_some
  affected_some-Keeps n = search keeps_rules

pub ruleset statement_rules = (
  world_rules, insert_vendor-Keeps, insert_session-Keeps, insert_token-Keeps, touch_session-Keeps,
  delete_session-Keeps, touch_token-Keeps, revoke_token-Keeps, affected_some-Keeps,
)

module _ ⦃os : Platform⦄ {I : World → Type 0} (framed : IsFramed I) where
  pub bytes-Keeps : (n : ℕ) → Keeps I (Crypto.bytes n)
  unfolding Crypto.bytes
  bytes-Keeps n = search world_rules

  pub nonce_12-Keeps : Keeps I Crypto.nonce_12
  unfolding Crypto.nonce_12
  nonce_12-Keeps = search world_rules

  pub generate-Keeps : Keeps I Crypto.generate
  unfolding Crypto.generate
  generate-Keeps = search world_rules

  pub seal-Keeps : (key aad plaintext : Bytes) → Keeps I (Crypto.seal key aad plaintext)
  unfolding Crypto.seal
  seal-Keeps key aad plaintext = search world_rules

  pub wrap_dek-Keeps : (kek dek : Bytes) → Keeps I (wrap_dek kek dek)
  unfolding wrap_dek
  wrap_dek-Keeps kek dek = search world_rules

  pub url_token-Keeps : Keeps I url_token
  unfolding url_token
  url_token-Keeps = search world_rules

  pub access_code-Keeps : Keeps I access_code
  unfolding access_code
  access_code-Keeps = search world_rules

pub ruleset crypto_rules = (
  statement_rules, bytes-Keeps, nonce_12-Keeps, generate-Keeps, seal-Keeps, wrap_dek-Keeps,
  url_token-Keeps, access_code-Keeps,
)
