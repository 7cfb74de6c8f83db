-- ===== src/Storage/Records.antt =====
-- The records that the storage functions hand to their callers: crates/storage/src/{users,
-- vendors, prints, shares, sessions, api_tokens}.rs.
use fips_dropbox.Prelude.{ℕ, Bool, Option, some, none, codes, list_eq, if◌then◌else◌}
use fips_dropbox.Text.{Text, Bytes}
use fips_dropbox.Time.{Instant}

pub data UserRole : Type 0 where
  admin vendor : UserRole

unfoldable pub as_str : UserRole → Text
as_str admin = codes "admin"
as_str vendor = codes "vendor"

unfoldable pub parse_role : Text → Option UserRole
parse_role s =
    if list_eq s (codes "admin")
    then some admin
    else if list_eq s (codes "vendor")
    then some vendor
    else none

pub record User : Type 0 where
  pub id : Bytes
  pub email : Text
  pub role : UserRole
  pub created_at : Instant
  pub disabled_at : Option Instant
  pub totp_secret_wrapped : Option Bytes
  pub password_hash : Bytes
  pub password_salt : Bytes
  pub password_iters : ℕ

pub record Vendor : Type 0 where
  pub id : Bytes
  pub display_name : Text
  pub primary_email : Text
  pub primary_phone : Option Text
  pub primary_user_id : Option Bytes
  pub created_by : Bytes
  pub created_at : Instant
  pub disabled_at : Option Instant

pub record Print : Type 0 where
  pub id : Bytes
  pub filename : Text
  pub size_bytes : ℕ
  pub sha256_plaintext : Bytes
  pub blob_path : Text
  pub dek_wrapped : Bytes
  pub nonce : Bytes
  pub tag : Bytes
  pub uploaded_by : Bytes
  pub uploaded_at : Instant
  pub cui_attested : Bool

pub record Share : Type 0 where
  pub id : Bytes
  pub print_id : Bytes
  pub vendor_id : Bytes
  pub token_hash : Bytes
  pub access_code_hash : Bytes
  pub expires_at : Instant
  pub max_downloads : ℕ
  pub download_count : ℕ
  pub sender_note : Option Text
  pub created_by : Bytes
  pub created_at : Instant
  pub revoked_at : Option Instant

pub record ShareSecrets : Type 0 where
  pub url_token : Text
  pub access_code : Text

pub record ShareListItem : Type 0 where
  pub id : Bytes
  pub vendor_name : Text
  pub vendor_email : Text
  pub filename : Text
  pub size_bytes : ℕ
  pub created_at : Instant
  pub expires_at : Instant
  pub max_downloads : ℕ
  pub download_count : ℕ
  pub revoked_at : Option Instant
  pub sender_note : Option Text

pub record Session : Type 0 where
  pub id_hash : Bytes
  pub user_id : Bytes
  pub csrf_token : Bytes
  pub ip : Text
  pub user_agent : Text
  pub expires_at : Instant
  pub last_seen_at : Instant

pub record IssuedSession : Type 0 where
  pub session : Session
  pub raw_token : Text

pub record ApiToken : Type 0 where
  pub id : Bytes
  pub user_id : Bytes
  pub label : Text
  pub token_hash : Bytes
  pub created_at : Instant
  pub last_seen_at : Option Instant
  pub revoked_at : Option Instant

pub record IssuedApiToken : Type 0 where
  pub token : ApiToken
  pub raw_token : Text
