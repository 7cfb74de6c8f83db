-- ===== src/Tests/Delivery.antt =====
-- A file from its upload to its download.
use fips_dropbox.Prelude.{
  ◌≡◌, refl, ◌++◌, arith, length-append, length-take, length-replicate, true, none, [], ◌∷◌, codes,
  replicate, list_eq,
}
use fips_dropbox.Prelude.Table
use fips_dropbox.Text
use fips_dropbox.Text.{Bytes}
use fips_dropbox.Time
use fips_dropbox.Result.{ok}
use fips_dropbox.Effect.{◌>>=◌}
use fips_dropbox.Cng
use fips_dropbox.Crypto
use fips_dropbox.Crypto.Compare
use fips_dropbox.Crypto.Kek
use fips_dropbox.Crypto.Token
use fips_dropbox.Crypto.Filled.{IsFilled}
use fips_dropbox.World
use fips_dropbox.World.{World}
use fips_dropbox.Audit
use fips_dropbox.Storage.Decode
use fips_dropbox.Storage.Queries
use fips_dropbox.Storage.Records.{Print}
use fips_dropbox.Storage.Shares
use fips_dropbox.Storage.Vendors
use fips_dropbox.Storage.Prints
use fips_dropbox.Storage.Prints.Paths.{IsUnique}
use fips_dropbox.Storage.Prints.Stored.{read_blob-insert}
use fips_dropbox.Service
use fips_dropbox.Service.Create
use fips_dropbox.Service.Create.{NewShareRequest, ShareCreated, create_share, share_url}
use fips_dropbox.Service.Create.Offered.{IsOffered, create_share-IsOffered}
use fips_dropbox.Service.Redeem
use fips_dropbox.Service.Redeem.{RedeemRequest, RedeemResponse, redeem_share}
use fips_dropbox.Web.Router.{at_health, handle}
use fips_dropbox.Web.Router.History.{browse}
use fips_dropbox.Web.Router.Delivery.{redeem_share-create_share}
use fips_dropbox.Tests.Sample.{os, os-IsGcm, http, world, app, padded, uuid}

pub os-IsFilled : IsFilled os
os-IsFilled = record {
  random = λ call n. length-replicate n call;
  sha256 = λ text.
      length-take 32 (text ++ replicate 32 0) (omega (arith, length-append text (replicate 32 0)));
  uuid = λ call. refl;
}

pub os-IsUnique : IsUnique os
os-IsUnique = record { ids = λ c d e. cc; texts = λ a b ha hb e. e }

abbrev before : World
before = record world { calls = 100 }

abbrev upload : NewShareRequest
upload = record {
  print_filename = codes "q.pdf";
  print_bytes = codes "ho";
  vendor_email = codes "v@s";
  vendor_phone = none;
  vendor_display_name = codes "Shop";
  expires_in_hours = 1;
  max_downloads = 1;
  note = none;
  cui_attested = true;
  created_by = uuid 1;
  ip = [];
  user_agent = [];
}

abbrev created : ShareCreated
created = record {
  share_id = uuid 110;
  share_url = codes "https://x/r/oooooooooooooooo";
  access_code = codes "NNN-NNN-NNN-NNN-NNN";
  vendor_email = codes "v@s";
  vendor_phone = none;
}

abbrev after : World
after = (create_share ⦃os = os⦄ app upload before).1

creates : create_share ⦃os = os⦄ app upload before ≡ (ok created, after)
unfolding create_share Service.spawn_blocking Service.with_store ◌>>=◌ Crypto.sha256 Cng.sha256
    Shares.find_by_token_hash World.execute Queries.select Table.find list_eq Text.as_bytes
    Decode.row_to_share Shares.verify_access_code Compare.constant_time_eq
    Shares.try_consume_download World.now_utc Table.count Audit.append_line Audit.clear_hash
    Audit.digest_text Audit.event_hash Audit.ok_or_serde Audit.open_append Audit.write
    Cng.aes_256_gcm_decrypt Cng.check Kek.kek_of_raw Kek.unwrap_dek Crypto.open_sealed Table.update
    Redeem.deliver Redeem.denied Redeem.redeem_found Redeem.short_token Redeem.unknown_token
    Service.with_audit Service.write_event Decode.bytes_of Decode.optional Decode.row_to_print
    Prints.check_digest Prints.find Prints.has_id Prints.read_blob Shares.consume_statement
    Shares.count_download Shares.has_id Shares.usable Text.encode_char Text.len Text.slice_to
    Text.utf8_len Time.dt_to_millis Time.millis_to_dt World.execute_with World.io World.read_blob
    Create.store_share Create.share_print Create.find_or_create_vendor Create.share_url Create.post
    Create.email_body Create.sms_body Vendors.find_by_email Decode.row_to_vendor Prints.insert
    Crypto.generate Crypto.seal Crypto.nonce_12 Crypto.bytes Kek.wrap_dek World.now_v7
    World.random_bytes Cng.random_bytes Cng.aes_256_gcm_encrypt World.io_write World.write_blob
    Prints.rel_blob_path Prints.blob_prefix Prints.attempt Prints.insert_print Prints.settle
    Shares.create Crypto.Token.url_token Crypto.Token.access_code Crypto.Token.code_chars
    Shares.insert_share Shares.share_violates Time.add_hours Vendors.is_enabled
    Text.trim_end_matches
creates = refl

abbrev opening : RedeemRequest
opening = record {
  token = codes "oooooooooooooooo";
  access_code = codes "NNN-NNN-NNN-NNN-NNN";
  ip = [];
  user_agent = [];
}

abbrev served : World
served = browse ⦃os = os⦄ ⦃http = http⦄ app after ((λ name. none, at_health) ∷ [])

abbrev file : RedeemResponse
file = record { filename = codes "q.pdf"; content = codes "ho"; sha256 = padded 32 (codes "ho") }

opens :
    redeem_share ⦃os = os⦄ app opening served
    ≡ (ok file, (redeem_share ⦃os = os⦄ app opening served).1)
unfolding redeem_share create_share browse Service.spawn_blocking Service.with_store ◌>>=◌
    Crypto.sha256 Cng.sha256 Shares.find_by_token_hash World.execute Queries.select Table.find
    list_eq Text.as_bytes Decode.row_to_share Shares.verify_access_code Compare.constant_time_eq
    Shares.try_consume_download World.now_utc Table.count Audit.append_line Audit.clear_hash
    Audit.digest_text Audit.event_hash Audit.ok_or_serde Audit.open_append Audit.write
    Cng.aes_256_gcm_decrypt Cng.check Kek.kek_of_raw Kek.unwrap_dek Crypto.open_sealed Table.update
    Redeem.deliver Redeem.denied Redeem.redeem_found Redeem.short_token Redeem.unknown_token
    Service.with_audit Service.write_event Decode.bytes_of Decode.optional Decode.row_to_print
    Prints.check_digest Prints.find Prints.has_id Prints.read_blob Shares.consume_statement
    Shares.count_download Shares.has_id Shares.usable Text.encode_char Text.len Text.slice_to
    Text.utf8_len Time.dt_to_millis Time.millis_to_dt World.execute_with World.io World.read_blob
    Create.store_share Create.share_print Create.find_or_create_vendor Create.share_url Create.post
    Create.email_body Create.sms_body Vendors.find_by_email Decode.row_to_vendor Prints.insert
    Crypto.generate Crypto.seal Crypto.nonce_12 Crypto.bytes Kek.wrap_dek World.now_v7
    World.random_bytes Cng.random_bytes Cng.aes_256_gcm_encrypt World.io_write World.write_blob
    Prints.rel_blob_path Prints.blob_prefix Prints.attempt Prints.insert_print Prints.settle
    Shares.create Crypto.Token.url_token Crypto.Token.access_code Crypto.Token.code_chars
    Shares.insert_share Shares.share_violates Time.add_hours handle Vendors.is_enabled
opens = refl

redeem_share-create_share_example :
    (file.content ≡ upload.print_bytes) × (file.filename ≡ upload.print_filename)
unfolding share_url Text.trim_end_matches
redeem_share-create_share_example =
    redeem_share-create_share ⦃os = os⦄ ⦃http = http⦄ app upload opening
      ((λ name. none, at_health) ∷ []) before os-IsGcm os-IsFilled os-IsUnique refl (tt, tt) creates
      refl opens

create_share-IsOffered_example :
    (token : Bytes) × (created.share_url ≡ share_url app token)
    × IsOffered ⦃os = os⦄ app.kek token created.access_code upload created.share_id after
create_share-IsOffered_example =
    create_share-IsOffered ⦃os = os⦄ os-IsGcm os-IsFilled os-IsUnique app upload before refl creates

abbrev print : Print
print = record {
  id = uuid 100;
  filename = codes "q.pdf";
  size_bytes = 2;
  sha256_plaintext = padded 32 (codes "ho");
  blob_path = codes "64/dddddddddddddddd.enc";
  dek_wrapped = replicate 12 103 ++ (replicate 16 7 ++ replicate 32 101);
  nonce = replicate 12 102;
  tag = replicate 16 7;
  uploaded_by = uuid 1;
  uploaded_at = 106000000000;
  cui_attested = true;
}

abbrev stored : World
stored = (Prints.insert ⦃os = os⦄ app.kek (codes "q.pdf") (codes "ho") (uuid 1) true before).1

inserts :
    Prints.insert ⦃os = os⦄ app.kek (codes "q.pdf") (codes "ho") (uuid 1) true before
    ≡ (ok print, stored)
unfolding Prints.insert Prints.insert_print Crypto.generate Crypto.seal Crypto.nonce_12 Crypto.bytes
    Kek.wrap_dek World.now_v7 World.random_bytes Cng.random_bytes Cng.aes_256_gcm_encrypt World.io
    World.io_write World.write_blob Prints.rel_blob_path Prints.blob_prefix Prints.attempt
    Prints.settle ◌>>=◌ Crypto.sha256 Cng.sha256 Cng.check World.now_utc World.execute
    World.execute_with Time.dt_to_millis Prints.has_id list_eq Table.delete
inserts = refl

read_blob-insert_example :
    Prints.read_blob ⦃os = os⦄ app.kek (uuid 100) stored
    ≡ (ok (codes "ho"), World.called (World.called stored))
read_blob-insert_example =
    read_blob-insert ⦃os = os⦄ app.kek (codes "q.pdf") (codes "ho") (uuid 1) true before os-IsGcm
      os-IsFilled refl inserts refl refl
