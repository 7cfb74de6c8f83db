-- ===== src/Storage/Decode.antt =====
-- The `row_to_…` functions of crates/storage/src: a row becomes a record, or its first column of a
-- wrong length is reported.
use fips_dropbox.Prelude.{
  ℕ, ◌%◌, ◌^◌, Option, none, some, List, [], ◌∷◌, length, ◌==◌, not, if◌then◌else◌,
}
use mathlib.Core.Option
use fips_dropbox.Text.{Bytes}
use fips_dropbox.Time.{millis_to_dt}
use fips_dropbox.Errors.{SqliteError, invalid_column}
use fips_dropbox.Result.{Result, ok, err, ◌>>=◌}
use fips_dropbox.Storage.Rows.{UserRow, VendorRow, PrintRow, ShareRow, SessionRow, ApiTokenRow}
use fips_dropbox.Storage.Records.{
  UserRole, parse_role, User, Vendor, Print, Share, Session, ApiToken,
}

abbrev pub as_u32 : ℕ → ℕ
as_u32 n = n % 2 ^ 32

-- A BLOB of a fixed length, at a column.
unfoldable pub bytes_of : ℕ → ℕ → Bytes → Result SqliteError Bytes
bytes_of n col b = if length b == n then ok b else err (invalid_column col)

-- `Uuid::from_slice`
abbrev pub uuid_from : ℕ → Bytes → Result SqliteError Bytes
uuid_from = bytes_of 16

abbrev pub bytes32 : ℕ → Bytes → Result SqliteError Bytes
bytes32 = bytes_of 32

optional_uuid_from : ℕ → Option Bytes → Result SqliteError (Option Bytes)
unfolding bytes_of
optional_uuid_from col none = ok none
optional_uuid_from col (some b) = do id ← uuid_from col b; ok (some id)

role_from : ℕ → Option UserRole → Result SqliteError UserRole
role_from col none = err (invalid_column col)
role_from col (some r) = ok r

unfoldable pub row_to_user : UserRow → Result SqliteError User
unfolding bytes_of role_from
row_to_user row = do
  id ← uuid_from 0 row.id
  role ← role_from 2 (parse_role row.role)
  ok (record {
    id = id;
    email = row.email;
    role = role;
    created_at = millis_to_dt row.created_at;
    disabled_at = Option.map millis_to_dt row.disabled_at;
    totp_secret_wrapped = row.totp_secret_wrapped;
    password_hash = row.password_hash;
    password_salt = row.password_salt;
    password_iters = row.password_iters;
  })

unfoldable pub row_to_vendor : VendorRow → Result SqliteError Vendor
unfolding bytes_of optional_uuid_from
row_to_vendor row = do
  id ← uuid_from 0 row.id
  primary_user_id ← optional_uuid_from 4 row.primary_user_id
  created_by ← uuid_from 5 row.created_by
  ok (record {
    id = id;
    display_name = row.display_name;
    primary_email = row.primary_email;
    primary_phone = row.primary_phone;
    primary_user_id = primary_user_id;
    created_by = created_by;
    created_at = millis_to_dt row.created_at;
    disabled_at = Option.map millis_to_dt row.disabled_at;
  })

unfoldable pub row_to_print : PrintRow → Result SqliteError Print
unfolding bytes_of
row_to_print row = do
  id ← uuid_from 0 row.id
  sha256 ← bytes32 3 row.sha256_plaintext
  nonce ← bytes_of 12 6 row.nonce
  tag ← bytes_of 16 7 row.tag
  uploaded_by ← uuid_from 8 row.uploaded_by
  ok (record {
    id = id;
    filename = row.filename;
    size_bytes = row.size_bytes;
    sha256_plaintext = sha256;
    blob_path = row.blob_path;
    dek_wrapped = row.dek_wrapped;
    nonce = nonce;
    tag = tag;
    uploaded_by = uploaded_by;
    uploaded_at = millis_to_dt row.uploaded_at;
    cui_attested = not (row.cui_attested == 0);
  })

unfoldable pub row_to_share : ShareRow → Result SqliteError Share
unfolding bytes_of
row_to_share row = do
  id ← uuid_from 0 row.id
  print_id ← uuid_from 1 row.print_id
  vendor_id ← uuid_from 2 row.vendor_id
  token_hash ← bytes32 3 row.token_hash
  access_code_hash ← bytes32 4 row.access_code_hash
  created_by ← uuid_from 9 row.created_by
  ok (record {
    id = id;
    print_id = print_id;
    vendor_id = vendor_id;
    token_hash = token_hash;
    access_code_hash = access_code_hash;
    expires_at = millis_to_dt row.expires_at;
    max_downloads = as_u32 row.max_downloads;
    download_count = as_u32 row.download_count;
    sender_note = row.sender_note;
    created_by = created_by;
    created_at = millis_to_dt row.created_at;
    revoked_at = Option.map millis_to_dt row.revoked_at;
  })

unfoldable pub row_to_session : SessionRow → Result SqliteError Session
unfolding bytes_of
row_to_session row = do
  id_hash ← bytes32 0 row.id
  user_id ← uuid_from 1 row.user_id
  csrf_token ← bytes32 2 row.csrf_token
  ok (record {
    id_hash = id_hash;
    user_id = user_id;
    csrf_token = csrf_token;
    ip = row.ip;
    user_agent = row.user_agent;
    expires_at = millis_to_dt row.expires_at;
    last_seen_at = millis_to_dt row.last_seen_at;
  })

unfoldable pub row_to_token : ApiTokenRow → Result SqliteError ApiToken
unfolding bytes_of
row_to_token row = do
  id ← uuid_from 0 row.id
  user_id ← uuid_from 1 row.user_id
  token_hash ← bytes32 3 row.token_hash
  ok (record {
    id = id;
    user_id = user_id;
    label = row.label;
    token_hash = token_hash;
    created_at = millis_to_dt row.created_at;
    last_seen_at = Option.map millis_to_dt row.last_seen_at;
    revoked_at = Option.map millis_to_dt row.revoked_at;
  })

-- `query_row(…).optional()`
unfoldable pub optional :
    {R A : Type 0} → (R → Result SqliteError A) → Option R → Result SqliteError (Option A)
optional decode none = ok none
optional decode (some r) = do a ← decode r; ok (some a)

-- `for r in rows { out.push(r?) }`
unfoldable pub decode_all :
    {R A : Type 0} → (R → Result SqliteError A) → List R → Result SqliteError (List A)
decode_all decode [] = ok []
decode_all decode (r ∷ rs) = do a ← decode r; out ← decode_all decode rs; ok (a ∷ out)
