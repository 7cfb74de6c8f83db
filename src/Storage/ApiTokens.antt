-- ===== src/Storage/ApiTokens.antt =====
-- crates/storage/src/api_tokens.rs: bearer tokens of the workstations, stored under their hash.
use fips_dropbox.Prelude.{
  ℕ, Bool, not, ◌&&◌, ◌||◌, Option, none, some, List, [], ◌∷◌, ◌++◌, any, list_eq, ltb, is_some,
  codes, filter_by, if◌then◌else◌,
}
use fips_dropbox.Prelude.Table
use fips_dropbox.Text.{Text, Bytes, as_bytes, starts_with}
use fips_dropbox.Time.{dt_to_millis}
use fips_dropbox.Result.{ok, err, convert}
use fips_dropbox.Effect.{M, pure, lift, within, maybe, ◌>>=◌, ◌>>◌}
use fips_dropbox.Errors.{constraint_violation, StorageError, crypto}
use fips_dropbox.Platform.{Platform}
use fips_dropbox.World.{World, Statement, now_utc, now_v7}
use fips_dropbox.Crypto
use fips_dropbox.Storage.Rows.{ApiTokenRow}
use fips_dropbox.Storage.Records.{ApiToken, IssuedApiToken}
use fips_dropbox.Storage.Decode.{row_to_token}
use fips_dropbox.Storage.Queries.{select, select_all, run, affected_some}

abbrev pub token_prefix : Text
token_prefix = codes "fdbx_"

unfoldable pub has_id : Bytes → ApiTokenRow → Bool
has_id id t = list_eq t.id id

unfoldable pub insert_token : ApiTokenRow → Statement Unit
unfolding has_id
insert_token row db =
    if any (λ t. has_id row.id t || list_eq t.token_hash row.token_hash) db.api_tokens
      || not (any (λ u. list_eq u.id row.user_id) db.users)
    then err constraint_violation
    else ok (tt, record db { api_tokens = db.api_tokens ++ row ∷ [] })

-- The WHERE clause of `find_valid_by_raw`.
unfoldable pub valid : Bytes → ApiTokenRow → Bool
valid token_hash t = list_eq t.token_hash token_hash && not (is_some t.revoked_at)

unfoldable pub touch_statement : Bytes → ℕ → Statement Unit
unfolding has_id
touch_statement id now db = ok (
  tt,
  record db {
    api_tokens = Table.update (has_id id) (λ t. record t { last_seen_at = some now }) db.api_tokens;
  },
)

unfoldable pub revocable : Bytes → ApiTokenRow → Bool
unfolding has_id
revocable id t = has_id id t && not (is_some t.revoked_at)

unfoldable pub mark_revoked : ℕ → ApiTokenRow → ApiTokenRow
mark_revoked now t = record t { revoked_at = some now }

unfoldable pub revoke_statement : Bytes → ℕ → Statement ℕ
unfolding revocable mark_revoked
revoke_statement id now db = ok (
  Table.count (revocable id) db.api_tokens,
  record db { api_tokens = Table.update (revocable id) (mark_revoked now) db.api_tokens },
)

insert_newest : ApiTokenRow → List ApiTokenRow → List ApiTokenRow
insert_newest s [] = s ∷ []
insert_newest s (t ∷ rest) =
    let later = t ∷ insert_newest s rest in
    if ltb s.created_at t.created_at then later else s ∷ t ∷ rest

unfoldable pub newest_first : List ApiTokenRow → List ApiTokenRow
unfolding insert_newest
newest_first [] = []
newest_first (s ∷ rest) = insert_newest s (newest_first rest)

module _ ⦃os : Platform⦄ where
  unfoldable pub create : Bytes → Text → M World StorageError IssuedApiToken
  create user_id label = do
    raw_bytes ← within crypto (Crypto.bytes 32)
    let raw_token = token_prefix ++ os.base64_url raw_bytes
    token_hash ← lift (convert crypto (Crypto.sha256 (as_bytes raw_token)))
    id ← now_v7
    now ← now_utc
    run (
        insert_token (record {
          id = id;
          user_id = user_id;
          label = label;
          token_hash = token_hash;
          created_at = dt_to_millis now;
          last_seen_at = none;
          revoked_at = none;
        }))
    pure (record {
      token = record {
        id = id;
        user_id = user_id;
        label = label;
        token_hash = token_hash;
        created_at = now;
        last_seen_at = none;
        revoked_at = none;
      };
      raw_token = raw_token;
    })

  -- The token is returned as it was read, before the update.
  unfoldable pub find_valid_by_raw : Text → M World StorageError (Option ApiToken)
  unfolding valid touch_statement
  find_valid_by_raw raw_token = if not (starts_with raw_token token_prefix) then pure none else do
    token_hash ← lift (convert crypto (Crypto.sha256 (as_bytes raw_token)))
    now ← now_utc
    found ← run (select (λ db. Table.find (valid token_hash) db.api_tokens) row_to_token)
    maybe found (pure none) λ t. do run (touch_statement t.id (dt_to_millis now)); pure (some t)

  unfoldable pub list_for_user : Bytes → M World StorageError (List ApiToken)
  list_for_user user_id = run (
      select_all (λ db. newest_first (filter_by (λ t. list_eq t.user_id user_id) db.api_tokens))
        row_to_token)

  unfoldable pub revoke : Bytes → M World StorageError Unit
  unfolding revoke_statement affected_some
  revoke id = do
    now ← now_utc
    affected ← run (revoke_statement id (dt_to_millis now))
    affected_some affected
