-- ===== src/Errors.antt =====
-- The error types: `CngError` of crates/cng, `CryptoError` of crates/crypto, `StorageError` of
-- crates/storage, `AuditError` of crates/audit, `ServiceError` of crates/service, and the part of
-- `rusqlite::Error` that the code tells apart.
use fips_dropbox.Prelude.{ℕ}

pub data CngError : Type 0 where
  status win_error : ℕ → CngError
  auth_tag_mismatch fips_mode_disabled : CngError
  unsupported_length : ℕ → ℕ → CngError

pub data CryptoError : Type 0 where
  cng : CngError → CryptoError
  io : ℕ → CryptoError
  invalid_key_length invalid_nonce_length kek_already_exists decryption_failed : CryptoError

-- `invalid_column c` is `InvalidColumnType` at column `c`; `failure` any other code.
pub data SqliteError : Type 0 where
  constraint_violation : SqliteError
  invalid_column failure : ℕ → SqliteError

pub data StorageError : Type 0 where
  sqlite : SqliteError → StorageError
  io : ℕ → StorageError
  crypto : CryptoError → StorageError
  not_found conflict : StorageError

pub data AuditError : Type 0 where
  io : ℕ → AuditError
  crypto : CryptoError → AuditError
  serde : AuditError

-- `mutex_poisoned` and `join_error` are the two texts of `Internal`.
pub data ServiceError : Type 0 where
  storage : StorageError → ServiceError
  crypto : CryptoError → ServiceError
  audit : AuditError → ServiceError
  invalid_credentials not_found share_unavailable mutex_poisoned join_error : ServiceError
