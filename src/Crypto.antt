-- ===== src/Crypto.antt =====
-- crates/crypto/src: hashing, MACs, key derivation, authenticated encryption and tokens, all of
-- them calls of crates/cng.
pub mod Compare
pub mod Kek
pub mod Token
pub mod Filled
pub mod Seal
use fips_dropbox.Prelude.{ℕ, Bool, Option, none, some, [], ◌==◌, if◌then◌else◌}
use fips_dropbox.Text.{Text, Bytes, as_bytes}
use fips_dropbox.Result
use fips_dropbox.Result.{Result, ok, err, convert}
use fips_dropbox.Effect.{M, pure, lift, within, ◌>>=◌}
use fips_dropbox.Errors.{CryptoError, cng, invalid_key_length}
use fips_dropbox.Platform.{Platform}
use fips_dropbox.World.{World, random_bytes}
use fips_dropbox.Cng
use Compare.{constant_time_eq}

abbrev pub pbkdf2_min_iterations : ℕ
pbkdf2_min_iterations = 600000

pub record Sealed : Type 0 where
  pub nonce : Bytes
  pub ciphertext : Bytes
  pub tag : Bytes

module _ ⦃os : Platform⦄ where
  -- rand.rs: `fill` of a fresh buffer, `bytes`
  unfoldable pub bytes : ℕ → M World CryptoError Bytes
  bytes n = within cng (random_bytes n)

  unfoldable pub nonce_12 : M World CryptoError Bytes
  unfolding bytes
  nonce_12 = bytes 12

  unfoldable pub sha256 : Bytes → Result CryptoError Bytes
  sha256 text = convert cng (Cng.sha256 text)

  -- What the reader has to its end; `none` is a read that fails.
  unfoldable pub sha256_stream : Option Bytes → Result CryptoError Bytes
  unfolding sha256
  sha256_stream none = err invalid_key_length
  sha256_stream (some buf) = sha256 buf

  unfoldable pub hmac_sha256 : Bytes → Bytes → Result CryptoError Bytes
  hmac_sha256 key text = convert cng (Cng.hmac_sha256 key text)

  -- mac.rs `verify`
  unfoldable pub verify : Bytes → Bytes → Bytes → Result CryptoError Bool
  unfolding hmac_sha256
  verify key text tag =
      Result.◌>>=◌ (hmac_sha256 key text) (λ expected. ok (constant_time_eq expected tag))

  unfoldable pub derive_key_from_password : Text → Bytes → ℕ → Result CryptoError Bytes
  derive_key_from_password password salt iterations =
      convert cng (Cng.pbkdf2_hmac_sha256 (as_bytes password) salt iterations 32)

  -- `DataKey::generate`
  unfoldable pub generate : M World CryptoError Bytes
  generate = within cng (random_bytes 32)

  unfoldable pub seal : Bytes → Bytes → Bytes → M World CryptoError Sealed
  unfolding nonce_12
  seal key aad plaintext = do
    nonce ← nonce_12
    sealed ← lift (convert cng (Cng.aes_256_gcm_encrypt key nonce aad plaintext))
    pure (record { nonce = nonce; ciphertext = sealed.0; tag = sealed.1 })

  unfoldable pub open_sealed : Bytes → Bytes → Sealed → Result CryptoError Bytes
  open_sealed key aad s = convert cng (Cng.aes_256_gcm_decrypt key s.nonce aad s.ciphertext s.tag)

  unfoldable pub assert_fips_mode : Result CryptoError Unit
  assert_fips_mode = convert cng Cng.assert_fips_mode
