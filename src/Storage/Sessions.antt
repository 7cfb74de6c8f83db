-- ===== src/Storage/Sessions.antt =====
-- crates/storage/src/sessions.rs: admin sessions, stored under the hash of their cookie.
pub mod Issued
pub mod Revoked
use fips_dropbox.Prelude.{
  ℕ, Bool, not, ◌&&◌, ◌||◌, Option, none, some, [], ◌∷◌, ◌++◌, any, list_eq, ltb, if◌then◌else◌,
}
use fips_dropbox.Prelude.Table
use fips_dropbox.Text.{Text, Bytes, as_bytes}
use fips_dropbox.Time.{dt_to_millis, add_hours}
use fips_dropbox.Result.{ok, err, convert}
use fips_dropbox.Effect.{M, pure, lift, or_panic, within, maybe, ◌>>=◌, ◌>>◌}
use fips_dropbox.Errors.{constraint_violation, StorageError, crypto}
use fips_dropbox.Platform.{Platform}
use fips_dropbox.World.{World, Statement, now_utc}
use fips_dropbox.Crypto
use fips_dropbox.Storage.Rows.{SessionRow}
use fips_dropbox.Storage.Records.{Session, IssuedSession}
use fips_dropbox.Storage.Decode.{row_to_session}
use fips_dropbox.Storage.Queries.{select, run}

abbrev pub default_ttl_hours : ℕ
default_ttl_hours = 12

unfoldable pub has_id : Bytes → SessionRow → Bool
has_id id s = list_eq s.id id

unfoldable pub insert_session : SessionRow → Statement Unit
unfolding has_id
insert_session row db =
    if any (has_id row.id) db.sessions || not (any (λ u. list_eq u.id row.user_id) db.users)
    then err constraint_violation
    else ok (tt, record db { sessions = db.sessions ++ row ∷ [] })

-- The WHERE clause of `find_valid`.
unfoldable pub live : Bytes → ℕ → SessionRow → Bool
unfolding has_id
live id now s = has_id id s && ltb now s.expires_at

unfoldable pub touch_statement : Bytes → ℕ → Statement Unit
unfolding has_id
touch_statement id now db = ok (
  tt,
  record db {
    sessions = Table.update (has_id id) (λ s. record s { last_seen_at = now }) db.sessions;
  },
)

unfoldable pub delete_statement : (SessionRow → Bool) → Statement ℕ
delete_statement hit db =
    ok (Table.count hit db.sessions, record db { sessions = Table.delete hit db.sessions })

module _ ⦃os : Platform⦄ where
  unfoldable pub create : Bytes → Text → Text → ℕ → M World StorageError IssuedSession
  create user_id ip ua ttl_hours = do
    raw_bytes ← within crypto (Crypto.bytes 32)
    let raw_token = os.base64_url raw_bytes
    id_hash ← lift (convert crypto (Crypto.sha256 (as_bytes raw_token)))
    csrf ← within crypto (Crypto.bytes 32)
    now ← now_utc
    expires_at ← or_panic (add_hours now ttl_hours)
    run (
        insert_session (record {
          id = id_hash;
          user_id = user_id;
          csrf_token = csrf;
          ip = ip;
          user_agent = ua;
          expires_at = dt_to_millis expires_at;
          last_seen_at = dt_to_millis now;
        }))
    pure (record {
      session = record {
        id_hash = id_hash;
        user_id = user_id;
        csrf_token = csrf;
        ip = ip;
        user_agent = ua;
        expires_at = expires_at;
        last_seen_at = now;
      };
      raw_token = raw_token;
    })

  -- The session is returned as it was read, before the update.
  unfoldable pub find_valid : Text → M World StorageError (Option Session)
  unfolding live touch_statement
  find_valid raw_token = do
    id_hash ← lift (convert crypto (Crypto.sha256 (as_bytes raw_token)))
    now ← now_utc
    session ←
        run (select (λ db. Table.find (live id_hash (dt_to_millis now)) db.sessions) row_to_session)
    maybe session (pure none)
        λ s. do run (touch_statement s.id_hash (dt_to_millis now)); pure (some s)

  unfoldable pub revoke : Text → M World StorageError Unit
  unfolding delete_statement
  revoke raw_token = do
    id_hash ← lift (convert crypto (Crypto.sha256 (as_bytes raw_token)))
    affected ← run (delete_statement (has_id id_hash))
    pure tt

  unfoldable pub revoke_all_for_user : Bytes → M World StorageError ℕ
  unfolding delete_statement
  revoke_all_for_user user_id = run (delete_statement (λ s. list_eq s.user_id user_id))

  unfoldable pub purge_expired : M World StorageError ℕ
  unfolding delete_statement
  purge_expired = do
    now ← now_utc
    run (delete_statement (λ s. ltb s.expires_at (dt_to_millis now)))
