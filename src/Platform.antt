-- ===== src/Platform.antt =====
-- What the program takes from outside: Windows CNG and DPAPI, the clock, the generators of random
-- bytes and identifiers, the SQLite engine's and the file system's failures, and the encodings of
-- serde_json, hex, base64 and uuid.
use fips_dropbox.Prelude.{ℕ, Option}
use fips_dropbox.Text.{Text, Bytes}
use fips_dropbox.Time.{Instant}
use fips_dropbox.Event.{Event}

pub data HashAlgorithm : Type 0 where
  sha256_alg hmac_sha256_alg : HashAlgorithm

-- A status is an NTSTATUS as an unsigned 32-bit pattern. What depends on the moment of the call
-- takes the call's number; all else is a function of its input, which may fail on any.
pub record Platform : Type 0 where
  pub bcrypt_gen_random : ℕ → ℕ → ℕ × Bytes
  pub bcrypt_hash : HashAlgorithm → Bytes → Bytes → ℕ × Bytes
  pub bcrypt_open_algorithm_provider : ℕ
  pub bcrypt_set_chaining_mode_gcm : ℕ
  pub bcrypt_generate_symmetric_key : Bytes → ℕ
  pub bcrypt_encrypt : Bytes → Bytes → Bytes → Bytes → ℕ × Bytes × Bytes
  pub bcrypt_decrypt : Bytes → Bytes → Bytes → Bytes → Bytes → ℕ × Bytes
  pub bcrypt_derive_key_pbkdf2 : Bytes → Bytes → ℕ → ℕ → ℕ × Bytes
  pub bcrypt_get_fips_algorithm_mode : ℕ × ℕ
  pub crypt_protect_data : Bytes → Bytes → ℕ × Bytes
  pub crypt_unprotect_data : Bytes → Bytes → ℕ × Bytes
  pub get_last_error : ℕ
  pub now_utc : ℕ → Instant
  pub now_v7 : ℕ → Bytes
  pub sqlite_fault : ℕ → Option ℕ
  -- A failed append has written so many characters.
  pub io_fault : ℕ → Option ℕ
  pub base64_url : Bytes → Text
  pub hex_encode : Bytes → Text
  pub uuid_to_string : Bytes → Text
  pub event_to_json : Event → Option Text
  pub event_from_json : Text → Option Event
