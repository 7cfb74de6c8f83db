-- ===== src/Tests/Requests.antt =====
-- Requests against the store of the sample.
use fips_dropbox.Prelude.{true, ◌++◌, replicate, ◌≡◌, refl, [], ◌∷◌, none, codes}
use fips_dropbox.Result.{ok, err}
use fips_dropbox.World.{World}
use fips_dropbox.Prelude.Table
use fips_dropbox.Prelude.{list_eq}
use fips_dropbox.Text
use fips_dropbox.Time
use fips_dropbox.Effect.{◌>>=◌}
use fips_dropbox.Cng
use fips_dropbox.Crypto
use fips_dropbox.Crypto.Compare
use fips_dropbox.Crypto.Kek
use fips_dropbox.World
use fips_dropbox.Audit
use fips_dropbox.Storage.Decode
use fips_dropbox.Storage.Queries
use fips_dropbox.Storage.Shares
use fips_dropbox.Storage.Prints
use fips_dropbox.Service
use fips_dropbox.Service.Redeem
use fips_dropbox.Storage.Rows.{ShareRow, UserRow}
use fips_dropbox.Service.Redeem.{RedeemRequest, RedeemResponse, short_token, redeem_share}
use fips_dropbox.Service.Redeem.Refused.{redeem_share-refused}
use fips_dropbox.Service.Redeem.Success.{Redeemed, redeem_share-Redeemed}
use fips_dropbox.Service.Auth
use fips_dropbox.Service.Auth.{login}
use fips_dropbox.Service.Poison.{redeem_share-poisons, serve-poisoned}
use fips_dropbox.Service.History.{redeems, lists_audit, serve}
use fips_dropbox.Storage.Users
use fips_dropbox.Storage.Sessions
use fips_dropbox.Storage.Records
use fips_dropbox.Storage.Records.{IssuedSession}
use fips_dropbox.Errors.{join_error, invalid_credentials}
use fips_dropbox.Service.Auth.Accepted.{Accepts, login-Accepts}
use fips_dropbox.Tests.Sample.{os, world, app, redeem_request, login_request, padded, uuid}

abbrev response : RedeemResponse
response = record {
  filename = codes "p.pdf";
  content = codes "hi";
  sha256 = padded 32 (codes "hi");
}

redeems_once :
    redeem_share ⦃os = os⦄ app redeem_request world
    ≡ (ok response, (redeem_share ⦃os = os⦄ app redeem_request world).1)
unfolding redeem_share Service.spawn_blocking Service.with_store ◌>>=◌ Crypto.sha256 Cng.sha256
    Shares.find_by_token_hash World.execute Queries.select Table.find list_eq Text.as_bytes
    Decode.row_to_share Shares.verify_access_code Compare.constant_time_eq
    Shares.try_consume_download World.now_utc Table.count Audit.append_line Audit.clear_hash
    Audit.digest_text Audit.event_hash Audit.ok_or_serde Audit.open_append Audit.write
    Cng.aes_256_gcm_decrypt Cng.check Kek.kek_of_raw Kek.unwrap_dek Crypto.open_sealed Table.update
    Redeem.deliver Redeem.denied Redeem.redeem_found Redeem.short_token Redeem.unknown_token
    Service.with_audit Service.write_event Decode.bytes_of Decode.optional Decode.row_to_print
    Prints.check_digest Prints.find Prints.has_id Prints.read_blob Shares.consume_statement
    Shares.count_download Shares.has_id Shares.usable Text.encode_char Text.len Text.slice_to
    Text.utf8_len Time.dt_to_millis Time.millis_to_dt World.execute_with World.io World.read_blob
redeems_once = refl

redeem_share-Redeemed_example :
    (s : ShareRow) × Redeemed ⦃os = os⦄ redeem_request world
      (redeem_share ⦃os = os⦄ app redeem_request world).1
      s
redeem_share-Redeemed_example =
    redeem_share-Redeemed ⦃os = os⦄ app redeem_request world (tt, tt) redeems_once

abbrev wrong_request : RedeemRequest
wrong_request = record redeem_request { access_code = codes "edoc" }

wrong_code : (redeem_share ⦃os = os⦄ app wrong_request world).0 ≡ err invalid_credentials
unfolding redeem_share Service.spawn_blocking Service.with_store ◌>>=◌ Crypto.sha256 Cng.sha256
    Shares.find_by_token_hash World.execute Queries.select Table.find list_eq Text.as_bytes
    Decode.row_to_share Shares.verify_access_code Compare.constant_time_eq
    Shares.try_consume_download World.now_utc Table.count Audit.append_line Audit.clear_hash
    Audit.digest_text Audit.event_hash Audit.ok_or_serde Audit.open_append Audit.write
    Cng.aes_256_gcm_decrypt Cng.check Kek.kek_of_raw Kek.unwrap_dek Crypto.open_sealed Table.update
    Redeem.deliver Redeem.denied Redeem.redeem_found Redeem.short_token Redeem.unknown_token
    Service.with_audit Service.write_event Decode.bytes_of Decode.optional Decode.row_to_print
    Prints.check_digest Prints.find Prints.has_id Prints.read_blob Shares.consume_statement
    Shares.count_download Shares.has_id Shares.usable Text.encode_char Text.len Text.slice_to
    Text.utf8_len Time.dt_to_millis Time.millis_to_dt World.execute_with World.io World.read_blob
wrong_code = refl

redeem_share-refused_example :
    (redeem_share ⦃os = os⦄ app wrong_request world).1.db.shares ≡ world.db.shares
redeem_share-refused_example = redeem_share-refused ⦃os = os⦄ app wrong_request world wrong_code

-- The twelve hours of a session begin at the third call.
abbrev issued : IssuedSession
issued = record {
  session = record {
    id_hash = replicate 32 1;
    user_id = uuid 1;
    csrf_token = replicate 32 2;
    ip = [];
    user_agent = [];
    expires_at = 43203000000000;
    last_seen_at = 3000000000;
  };
  raw_token = replicate 32 1;
}

logs_in_once :
    login ⦃os = os⦄ login_request world ≡ (ok issued, (login ⦃os = os⦄ login_request world).1)
unfolding login Service.spawn_blocking Service.with_store ◌>>=◌ Crypto.sha256 Cng.sha256
    World.execute Queries.select Table.find list_eq Text.as_bytes Compare.constant_time_eq
    World.now_utc Audit.append_line Audit.clear_hash Audit.digest_text Audit.event_hash
    Audit.ok_or_serde Audit.open_append Audit.write Cng.check Service.with_audit Service.write_event
    Decode.bytes_of Decode.optional Text.encode_char Time.dt_to_millis Time.millis_to_dt
    World.execute_with World.io Decode.row_to_user Users.verify_password Users.find_by_email
    Users.check_password Users.has_email Crypto.derive_key_from_password Cng.pbkdf2_hmac_sha256
    Records.parse_role Sessions.create Auth.login_accepted Auth.login_denied Crypto.bytes
    World.random_bytes Cng.random_bytes Time.add_hours Sessions.insert_session
logs_in_once = refl

login-Accepts_example : (r : UserRow) × Accepts ⦃os = os⦄ (codes "a@b") (codes "pw") world r
login-Accepts_example = login-Accepts ⦃os = os⦄ login_request world logs_in_once

-- Seven bytes, the sixth inside a character.
abbrev odd_request : RedeemRequest
odd_request = record { token = codes "aaaa€"; access_code = []; ip = []; user_agent = [] }

cut_inside : short_token odd_request.token ≡ none
unfolding short_token Text.len Text.slice_to Text.utf8_len
cut_inside = refl

hashed :
    Crypto.sha256 ⦃os = os⦄ (Text.as_bytes odd_request.token)
    ≡ ok (padded 32 (codes "aaaa" ++ 0xe2 ∷ 0x82 ∷ 0xac ∷ []))
unfolding Crypto.sha256 Cng.sha256 Cng.check Text.as_bytes Text.encode_char
hashed = refl

unknown :
    Table.find
      (λ s. list_eq s.token_hash (padded 32 (codes "aaaa" ++ 0xe2 ∷ 0x82 ∷ 0xac ∷ [])))
      world.db.shares
    ≡ none
unfolding Table.find list_eq
unknown = refl

redeem_share-poisons_example :
    redeem_share ⦃os = os⦄ app odd_request world
    ≡ (err join_error, record world { calls = 1; audit_poisoned = true; store_poisoned = true })
redeem_share-poisons_example =
    redeem_share-poisons ⦃os = os⦄ app odd_request world refl refl hashed refl unknown cut_inside

abbrev poisoned : World
poisoned = record world { audit_poisoned = true; store_poisoned = true }

serve-poisoned_example :
    serve ⦃os = os⦄ app poisoned (redeems redeem_request ∷ lists_audit none 10 ∷ []) ≡ poisoned
serve-poisoned_example =
    serve-poisoned ⦃os = os⦄ app poisoned (redeems redeem_request ∷ lists_audit none 10 ∷ []) refl
      refl
