-- ===== src/Tests/Units.antt =====
-- Single functions on concrete inputs.
use fips_dropbox.Prelude.{◌≡◌, ◌↔◌, refl, true, some, [], ◌++◌, codes, length, list_eq, replicate}
use fips_dropbox.Prelude.Table
use fips_dropbox.Prelude.Table.Laws.{All}
use fips_dropbox.Time
use fips_dropbox.Result.{ok}
use fips_dropbox.Effect.{◌>>=◌}
use fips_dropbox.World
use fips_dropbox.Cng
use fips_dropbox.Crypto
use fips_dropbox.Crypto.Compare.{constant_time_eq, constant_time_eq_iff}
use fips_dropbox.Crypto.Kek
use fips_dropbox.Crypto.Token
use fips_dropbox.Crypto.Token.Shape.{IsCodeChar, access_code-shape}
use fips_dropbox.Storage.Rows.{PrintRow}
use fips_dropbox.Storage.Decode
use fips_dropbox.Storage.Queries
use fips_dropbox.Storage.Prints
use fips_dropbox.Storage.Prints.Digest.{read_blob-digest}
use fips_dropbox.Tests.Sample.{os, world, app, uuid}

constant_time_eq_iff_example :
    (constant_time_eq (codes "ab") (codes "ac") ≡ true) ↔ (codes "ab" ≡ codes "ac")
constant_time_eq_iff_example = constant_time_eq_iff (codes "ab") (codes "ac")

sealed_once :
    Cng.aes_256_gcm_encrypt ⦃os = os⦄ (replicate 32 9) (replicate 12 0) [] (codes "hi")
    ≡ ok (codes "hi", replicate 16 7)
unfolding Cng.aes_256_gcm_encrypt Cng.check
sealed_once = refl

wrapped_once :
    Kek.wrap_dek ⦃os = os⦄ app.kek (replicate 32 8) world
    ≡ (ok (replicate 12 0 ++ (replicate 16 7 ++ replicate 32 8)), record world { calls = 1 })
unfolding Kek.wrap_dek Crypto.nonce_12 Crypto.bytes World.random_bytes Cng.random_bytes
    Cng.aes_256_gcm_encrypt Cng.check ◌>>=◌
wrapped_once = refl

read_once :
    Prints.read_blob ⦃os = os⦄ app.kek (uuid 3) world
    ≡ (ok (codes "hi"), record world { calls = 2 })
unfolding Prints.read_blob Prints.find Prints.has_id Prints.check_digest World.execute
    World.execute_with World.io World.read_blob Queries.select Table.find list_eq
    Decode.row_to_print Decode.bytes_of Decode.optional Time.millis_to_dt Kek.unwrap_dek
    Kek.kek_of_raw Crypto.open_sealed Crypto.sha256 Cng.sha256 Cng.aes_256_gcm_decrypt Cng.check
    ◌>>=◌
read_once = refl

read_blob-digest_example :
    (p : PrintRow) × (Table.find (Prints.has_id (uuid 3)) world.db.prints ≡ some p)
    × (Crypto.sha256 ⦃os = os⦄ (codes "hi") ≡ ok p.sha256_plaintext)
read_blob-digest_example = read_blob-digest ⦃os = os⦄ app.kek (uuid 3) world read_once

drawn_once :
    Token.access_code ⦃os = os⦄ world
    ≡ (ok (codes "222-222-222-222-222"), record world { calls = 1 })
unfolding Token.access_code Token.code_chars Crypto.bytes World.random_bytes Cng.random_bytes
    Cng.check ◌>>=◌
drawn_once = refl

access_code-shape_example :
    (length (codes "222-222-222-222-222") ≡ 19) × All IsCodeChar (codes "222-222-222-222-222")
access_code-shape_example = access_code-shape ⦃os = os⦄ world refl drawn_once
