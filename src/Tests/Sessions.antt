-- ===== src/Tests/Sessions.antt =====
-- A session of crates/storage/src/sessions.rs from its creation to its revocation.
use fips_dropbox.Prelude.{◌≡◌, refl, [], ◌∷◌, none, some, codes, replicate, arith, list_eq}
use fips_dropbox.Text.{as_bytes}
use fips_dropbox.Prelude.Table
use fips_dropbox.Time
use fips_dropbox.Result.{ok}
use fips_dropbox.Effect.{◌>>=◌}
use fips_dropbox.Cng
use fips_dropbox.Crypto
use fips_dropbox.World
use fips_dropbox.World.{World}
use fips_dropbox.Storage.Records.{IssuedSession}
use fips_dropbox.Storage.Sessions
use fips_dropbox.Storage.Sessions.{create, find_valid, revoke}
use fips_dropbox.Storage.Sessions.Issued.{find_valid-create, stored_session, row_of}
use fips_dropbox.Storage.Sessions.Revoked.{find_valid-revoke}
use fips_dropbox.Tests.Sample.{os, world, db, uuid}
use fips_dropbox.Tests.Delivery.{os-IsFilled}

abbrev issued : IssuedSession
issued = record {
  session = record {
    id_hash = replicate 32 0;
    user_id = uuid 1;
    csrf_token = replicate 32 1;
    ip = codes "ip";
    user_agent = codes "ua";
    expires_at = 3602000000000;
    last_seen_at = 2000000000;
  };
  raw_token = replicate 32 0;
}

abbrev signed_in : World
signed_in = record world { calls = 4; db = record db { sessions = row_of issued.session ∷ [] } }

created : create ⦃os = os⦄ (uuid 1) (codes "ip") (codes "ua") 1 world ≡ (ok issued, signed_in)
unfolding create ◌>>=◌ Crypto.bytes Crypto.sha256 Cng.sha256 Cng.random_bytes Cng.check
    World.random_bytes World.now_utc World.execute World.execute_with Sessions.insert_session
    Sessions.has_id Time.add_hours list_eq as_bytes
created = refl

find_valid-create_example :
    (find_valid ⦃os = os⦄ issued.raw_token signed_in).0 ≡ ok (some (stored_session issued.session))
unfolding Time.dt_to_millis
find_valid-create_example =
    find_valid-create ⦃os = os⦄ (uuid 1) (codes "ip") (codes "ua") 1 world os-IsFilled refl created
      (omega arith) refl refl

abbrev signed_out : World
signed_out = record world { calls = 5 }

revoked : revoke ⦃os = os⦄ issued.raw_token signed_in ≡ (ok tt, signed_out)
unfolding revoke ◌>>=◌ Crypto.sha256 Cng.sha256 Cng.check World.execute World.execute_with
    Sessions.delete_statement Sessions.has_id Table.delete Table.count list_eq as_bytes
revoked = refl

find_valid-revoke_example :
    find_valid ⦃os = os⦄ issued.raw_token signed_out
    ≡ (ok none, World.called (World.called signed_out))
find_valid-revoke_example = find_valid-revoke ⦃os = os⦄ issued.raw_token signed_in revoked refl
