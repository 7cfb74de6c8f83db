-- ===== src/Storage/Shares.antt =====
-- crates/storage/src/shares.rs: one row for each file sent to one vendor.
pub mod Status
pub mod Created
use fips_dropbox.Prelude.{
  ℕ, suc, ◌+◌, ◌-◌, ◌*◌, ◌^◌, ◌≡◌, Bool, true, false, not, ◌&&◌, ◌||◌, Option, none, some, List, [],
  ◌∷◌, ◌++◌, any, ltb, leb, ◌==◌, list_eq, is_some, filter_by, take, if◌then◌else◌,
}
use mathlib.Core.List.{filter_map}
use mathlib.Core.Option
use fips_dropbox.Prelude.Table
use fips_dropbox.Text.{Text, Bytes, as_bytes}
use fips_dropbox.Time.{Instant, dt_to_millis, millis_to_dt, end_of_time, seconds_before_epoch}
use fips_dropbox.Result
use fips_dropbox.Result.{Result, ok, err, convert}
use fips_dropbox.Effect.{M, pure, lift, or_panic, within, ◌>>=◌, ◌>>◌}
use fips_dropbox.Errors.{SqliteError, constraint_violation, StorageError, crypto}
use fips_dropbox.Platform.{Platform}
use fips_dropbox.World.{World, Statement, now_utc, now_v7}
use fips_dropbox.Crypto
use fips_dropbox.Crypto.Compare.{constant_time_eq}
use fips_dropbox.Crypto.Token.{url_token, access_code}
use fips_dropbox.Storage.Rows.{ShareRow, VendorRow, PrintRow, Db}
use fips_dropbox.Storage.Records.{Share, ShareSecrets, ShareListItem}
use fips_dropbox.Storage.Decode.{as_u32, bytes_of, row_to_share}
use fips_dropbox.Storage.Queries.{select, select_all, run, affected_some}

-- The keys and references that the schema declares.
unfoldable pub share_violates : ShareRow → Db → Bool
share_violates row db =
    any (λ s. list_eq s.id row.id || list_eq s.token_hash row.token_hash) db.shares
    || not (any (λ p. list_eq p.id row.print_id) db.prints)
    || not (any (λ v. list_eq v.id row.vendor_id) db.vendors)
    || not (any (λ u. list_eq u.id row.created_by) db.users)

unfoldable pub insert_share : ShareRow → Statement Unit
unfolding share_violates
insert_share row db =
    if share_violates row db
    then err constraint_violation
    else ok (tt, record db { shares = db.shares ++ row ∷ [] })

unfoldable pub has_id : Bytes → ShareRow → Bool
has_id id s = list_eq s.id id

-- The WHERE clause of `try_consume_download`.
unfoldable pub usable : Bytes → ℕ → ShareRow → Bool
unfolding has_id
usable id now s =
    has_id id s
    && not (is_some s.revoked_at)
    && ltb now s.expires_at
    && ltb s.download_count s.max_downloads

unfoldable pub count_download : ShareRow → ShareRow
count_download s = record s { download_count = s.download_count + 1 }

unfoldable pub consume_statement : Bytes → ℕ → Statement ℕ
unfolding usable count_download
consume_statement id now db = ok (
  Table.count (usable id now) db.shares,
  record db { shares = Table.update (usable id now) count_download db.shares },
)

-- The WHERE clause of `revoke`.
unfoldable pub revocable : Bytes → ShareRow → Bool
unfolding has_id
revocable id s = has_id id s && not (is_some s.revoked_at)

unfoldable pub mark_revoked : ℕ → ShareRow → ShareRow
mark_revoked now s = record s { revoked_at = some now }

unfoldable pub revoke_statement : Bytes → ℕ → Statement ℕ
unfolding revocable mark_revoked
revoke_statement id now db = ok (
  Table.count (revocable id) db.shares,
  record db { shares = Table.update (revocable id) (mark_revoked now) db.shares },
)

unfoldable pub purge_statement : ℕ → Statement ℕ
purge_statement cutoff db = ok (
  Table.count (λ s. ltb s.expires_at cutoff) db.shares,
  record db { shares = Table.delete (λ s. ltb s.expires_at cutoff) db.shares },
)

-- `now - Duration::seconds(grace as i64)` in milliseconds: a grace of 2^63 or more is negative as
-- an `i64`. A cut-off before the epoch is 0, below which no row lies either.
unfoldable pub cutoff_millis : Instant → ℕ → Option ℕ
cutoff_millis now grace =
    let later = now + (2 ^ 64 - grace) * 1000000000 in
    if ltb grace (2 ^ 63)
    then (if leb (grace * 1000000000) (now + seconds_before_epoch * 1000000000)
        then some (dt_to_millis (now - grace * 1000000000))
        else none)
    else (if ltb later end_of_time then some (dt_to_millis later) else none)

-- `ORDER BY created_at DESC`
insert_newest : ShareRow → List ShareRow → List ShareRow
insert_newest s [] = s ∷ []
insert_newest s (t ∷ rest) =
    let later = t ∷ insert_newest s rest in
    if ltb s.created_at t.created_at then later else s ∷ t ∷ rest

unfoldable pub newest_first : List ShareRow → List ShareRow
unfolding insert_newest
newest_first [] = []
newest_first (s ∷ rest) = insert_newest s (newest_first rest)

abbrev pub Joined : Type 0
Joined = ShareRow × VendorRow × PrintRow

-- `JOIN vendors … JOIN prints …`, of one share: identifiers are keys, so at most one row of each.
unfoldable pub join : List VendorRow → List PrintRow → ShareRow → Option Joined
join vendors prints s = elim (Table.find (λ v. list_eq v.id s.vendor_id) vendors) [
  | none ↦ none
  | some v ↦ elim (Table.find (λ p. list_eq p.id s.print_id) prints) [
    | none ↦ none
    | some p ↦ some (s, v, p)
  ]
]

unfoldable pub recent : List VendorRow → List PrintRow → List ShareRow → List Joined
unfolding join newest_first
recent vendors prints shares = filter_map (join vendors prints) (newest_first shares)

unfoldable pub row_to_list_item : Joined → Result SqliteError ShareListItem
row_to_list_item (s, v, p) = Result.◌>>=◌ (bytes_of 16 0 s.id) λ id. ok (record {
  id = id;
  vendor_name = v.display_name;
  vendor_email = v.primary_email;
  filename = p.filename;
  size_bytes = p.size_bytes;
  created_at = millis_to_dt s.created_at;
  expires_at = millis_to_dt s.expires_at;
  max_downloads = as_u32 s.max_downloads;
  download_count = as_u32 s.download_count;
  revoked_at = Option.map millis_to_dt s.revoked_at;
  sender_note = s.sender_note;
})

module _ ⦃os : Platform⦄ where
  unfoldable pub create :
      Bytes
      → Bytes
      → Instant
      → ℕ
      → Option Text
      → Bytes
      → M World StorageError (Share × ShareSecrets)
  create print_id vendor_id expires_at max_downloads sender_note created_by = do
    id ← now_v7
    token ← within crypto url_token
    code ← within crypto access_code
    token_hash ← lift (convert crypto (Crypto.sha256 (as_bytes token)))
    access_code_hash ← lift (convert crypto (Crypto.sha256 (as_bytes code)))
    now ← now_utc
    run (
        insert_share (record {
          id = id;
          print_id = print_id;
          vendor_id = vendor_id;
          token_hash = token_hash;
          access_code_hash = access_code_hash;
          expires_at = dt_to_millis expires_at;
          max_downloads = max_downloads;
          download_count = 0;
          sender_note = sender_note;
          created_by = created_by;
          created_at = dt_to_millis now;
          revoked_at = none;
        }))
    pure (
      record {
        id = id;
        print_id = print_id;
        vendor_id = vendor_id;
        token_hash = token_hash;
        access_code_hash = access_code_hash;
        expires_at = expires_at;
        max_downloads = max_downloads;
        download_count = 0;
        sender_note = sender_note;
        created_by = created_by;
        created_at = now;
        revoked_at = none;
      },
      record { url_token = token; access_code = code },
    )

  unfoldable pub find_by_id : Bytes → M World StorageError (Option Share)
  find_by_id id = run (select (λ db. Table.find (has_id id) db.shares) row_to_share)

  unfoldable pub find_by_token_hash : Bytes → M World StorageError (Option Share)
  find_by_token_hash token_hash =
      run (select (λ db. Table.find (λ s. list_eq s.token_hash token_hash) db.shares) row_to_share)

  unfoldable pub verify_access_code : Share → Text → Result StorageError Bool
  verify_access_code share candidate =
      Result.◌>>=◌ (convert crypto (Crypto.sha256 (as_bytes candidate)))
        λ h. ok (constant_time_eq h share.access_code_hash)

  unfoldable pub try_consume_download : Bytes → M World StorageError Bool
  unfolding consume_statement
  try_consume_download share_id = do
    now ← now_utc
    affected ← run (consume_statement share_id (dt_to_millis now))
    pure (affected == 1)

  unfoldable pub revoke : Bytes → M World StorageError Unit
  unfolding revoke_statement affected_some
  revoke share_id = do
    now ← now_utc
    affected ← run (revoke_statement share_id (dt_to_millis now))
    affected_some affected

  unfoldable pub list_recent : ℕ → M World StorageError (List ShareListItem)
  unfolding recent
  list_recent limit =
      run (select_all (λ db. take limit (recent db.vendors db.prints db.shares)) row_to_list_item)

  unfoldable pub list_by_vendor : Bytes → M World StorageError (List Share)
  list_by_vendor vendor_id = run (
      select_all (λ db. newest_first (filter_by (λ s. list_eq s.vendor_id vendor_id) db.shares))
        row_to_share)

  unfoldable pub purge_expired : ℕ → M World StorageError ℕ
  unfolding purge_statement
  purge_expired grace_seconds = do
    now ← now_utc
    cutoff ← or_panic (cutoff_millis now grace_seconds)
    run (purge_statement cutoff)
