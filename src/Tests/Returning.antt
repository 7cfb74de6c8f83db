-- ===== src/Tests/Returning.antt =====
-- A redemption where nothing fails.
use fips_dropbox.Prelude.{refl, true, none, [], ◌∷◌, ◌++◌, codes, replicate, list_eq, arith}
use fips_dropbox.Prelude.Table
use fips_dropbox.Text
use fips_dropbox.Text.{Text}
use fips_dropbox.Time
use fips_dropbox.Cng
use fips_dropbox.Crypto
use fips_dropbox.Crypto.Kek
use fips_dropbox.World
use fips_dropbox.World.{World}
use fips_dropbox.Audit.Succeeding.{IsSound}
use fips_dropbox.Storage.Decode
use fips_dropbox.Storage.Records.{Share, Print}
use fips_dropbox.Storage.Rows.{PrintRow}
use fips_dropbox.Storage.Prints
use fips_dropbox.Storage.Prints.Readable.{IsReadable}
use fips_dropbox.Storage.Shares
use fips_dropbox.Service.Create.Offered.{Offers}
use fips_dropbox.Service.Redeem.{redeem_share}
use fips_dropbox.Service.Redeem.Succeeding.{Returns, redeem_share-Returns}
use fips_dropbox.Tests.Sample.{
  os, world, db, app, padded, uuid, print_row, share_row, redeem_request,
}
use fips_dropbox.Tests.Delivery.{os-IsFilled, os-IsUnique}

os-IsSound : IsSound os
unfolding Crypto.sha256 Cng.sha256 Cng.check
os-IsSound = record {
  healthy = record { io = λ call. refl; sqlite = λ call. refl };
  digests = λ text. (padded 32 text, refl);
  prints = λ ev. (codes "{}", refl);
}

abbrev path : Text
path = codes "03/" ++ (replicate 16 3 ++ codes ".enc")

abbrev placed_row : PrintRow
placed_row = record print_row { blob_path = path }

abbrev placed_world : World
placed_world = record world {
  calls = 10;
  db = record db { prints = placed_row ∷ [] };
  blobs = (path, codes "hi") ∷ [];
}

abbrev print : Print
print = record {
  id = uuid 3;
  filename = codes "p.pdf";
  size_bytes = 2;
  sha256_plaintext = padded 32 (codes "hi");
  blob_path = path;
  dek_wrapped = replicate 60 5;
  nonce = replicate 12 6;
  tag = replicate 16 7;
  uploaded_by = uuid 1;
  uploaded_at = 0;
  cui_attested = true;
}

abbrev share : Share
share = record {
  id = uuid 4;
  print_id = uuid 3;
  vendor_id = uuid 2;
  token_hash = padded 32 (codes "tok");
  access_code_hash = padded 32 (codes "code");
  expires_at = 1000000000000;
  max_downloads = 2;
  download_count = 1;
  sender_note = none;
  created_by = uuid 1;
  created_at = 0;
  revoked_at = none;
}

readable : IsReadable ⦃os = os⦄ app.kek (uuid 3) (codes "hi") (codes "p.pdf") placed_world
unfolding Table.find Prints.has_id list_eq Decode.row_to_print Decode.bytes_of Time.millis_to_dt
    Prints.rel_blob_path Prints.blob_prefix World.read_blob Kek.unwrap_dek Kek.kek_of_raw
    Cng.aes_256_gcm_decrypt Cng.check Crypto.open_sealed Crypto.sha256 Cng.sha256
readable = record {
  row = placed_row;
  print = print;
  ct = codes "hi";
  dek = replicate 32 5;
  stored = refl;
  decoded = refl;
  named = refl;
  placed = refl;
  blob = refl;
  unwrapped = refl;
  opened = refl;
  digest = refl;
}

offers :
    Offers ⦃os = os⦄ app.kek
      (codes "tok")
      (codes "code")
      (codes "hi")
      (codes "p.pdf")
      share_row
      placed_world
unfolding Crypto.sha256 Cng.sha256 Cng.check Text.as_bytes Text.encode_char
offers = record {
  call = 3;
  file = record { since = omega arith; readable = readable };
  print = refl;
  token_hash = refl;
  code_hash = refl;
}

redeem_share-Returns_example :
    Returns (redeem_share ⦃os = os⦄ app redeem_request) placed_world (codes "hi") (codes "p.pdf")
unfolding Table.find Shares.has_id list_eq Decode.row_to_share Decode.bytes_of Time.millis_to_dt
    Shares.usable Time.dt_to_millis
redeem_share-Returns_example =
    redeem_share-Returns ⦃os = os⦄ os-IsSound app redeem_request share_row share placed_world
      os-IsFilled os-IsUnique refl refl (tt, tt) refl refl offers refl
