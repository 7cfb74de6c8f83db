-- ===== src/Storage/Rows.antt =====
-- The tables of migrations/0001_initial.sql, as columns: identifiers, hashes and keys are BLOBs,
-- timestamps and counts are INTEGERs, and none of the latter is negative.
use fips_dropbox.Prelude.{ℕ, Option, List}
use fips_dropbox.Text.{Text, Bytes}

pub record UserRow : Type 0 where
  pub id : Bytes
  pub email : Text
  pub role : Text
  pub password_hash : Bytes
  pub password_salt : Bytes
  pub password_iters : ℕ
  pub totp_secret_wrapped : Option Bytes
  pub created_at : ℕ
  pub disabled_at : Option ℕ

pub record VendorRow : Type 0 where
  pub id : Bytes
  pub display_name : Text
  pub primary_email : Text
  pub primary_phone : Option Text
  pub primary_user_id : Option Bytes
  pub created_by : Bytes
  pub created_at : ℕ
  pub disabled_at : Option ℕ

pub record PrintRow : Type 0 where
  pub id : Bytes
  pub filename : Text
  pub size_bytes : ℕ
  pub sha256_plaintext : Bytes
  pub blob_path : Text
  pub dek_wrapped : Bytes
  pub nonce : Bytes
  pub tag : Bytes
  pub uploaded_by : Bytes
  pub uploaded_at : ℕ
  pub cui_attested : ℕ

pub record ShareRow : Type 0 where
  pub id : Bytes
  pub print_id : Bytes
  pub vendor_id : Bytes
  pub token_hash : Bytes
  pub access_code_hash : Bytes
  pub expires_at : ℕ
  pub max_downloads : ℕ
  pub download_count : ℕ
  pub sender_note : Option Text
  pub created_by : Bytes
  pub created_at : ℕ
  pub revoked_at : Option ℕ

pub record SessionRow : Type 0 where
  pub id : Bytes
  pub user_id : Bytes
  pub csrf_token : Bytes
  pub ip : Text
  pub user_agent : Text
  pub expires_at : ℕ
  pub last_seen_at : ℕ

pub record ApiTokenRow : Type 0 where
  pub id : Bytes
  pub user_id : Bytes
  pub label : Text
  pub token_hash : Bytes
  pub created_at : ℕ
  pub last_seen_at : Option ℕ
  pub revoked_at : Option ℕ

pub record Db : Type 0 where
  pub users : List UserRow
  pub vendors : List VendorRow
  pub prints : List PrintRow
  pub shares : List ShareRow
  pub sessions : List SessionRow
  pub api_tokens : List ApiTokenRow
