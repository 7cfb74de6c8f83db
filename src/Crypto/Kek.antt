-- ===== src/Crypto/Kek.antt =====
-- crates/crypto/src/kek.rs: the key encryption key, and the wrapped data keys.
pub mod RoundTrip
use fips_dropbox.Prelude.{
  ℕ, ◌+◌, Option, none, some, [], ◌++◌, codes, length, take, drop, ◌==◌, is_some, if◌then◌else◌,
}
use fips_dropbox.Text.{Bytes}
use fips_dropbox.Result
use fips_dropbox.Result.{Result, ok, err, convert}
use fips_dropbox.Effect.{M, pure, fail, lift, gets, maybe, ◌>>=◌, ◌>>◌}
use fips_dropbox.Errors.{CryptoError, cng, io, kek_already_exists, invalid_key_length}
use fips_dropbox.Platform.{Platform}
use fips_dropbox.World
use fips_dropbox.World.{World}
use fips_dropbox.Cng
use fips_dropbox.Crypto.{bytes, nonce_12}

abbrev pub kek_dpapi_entropy : Bytes
kek_dpapi_entropy = codes "fips-dropbox KEK v1"

module _ ⦃os : Platform⦄ where
  -- `KekManager::init`: the new key, which is also on disk.
  unfoldable pub init : M World CryptoError Bytes
  unfolding bytes
  init = do
    exists ← gets (λ w. is_some w.kek_file)
    if exists then fail kek_already_exists else do
      kek ← bytes 32
      wrapped ← lift (convert cng (Cng.dpapi_protect_machine kek kek_dpapi_entropy))
      World.io io
      World.io_write io (λ file w. record w { kek_file = some file }) wrapped
      pure kek

  -- The key of what DPAPI gave back, which must have 32 bytes.
  unfoldable pub kek_of_raw : Bytes → Result CryptoError Bytes
  kek_of_raw raw = if length raw == 32 then ok raw else err invalid_key_length

  -- `KekManager::load`; reading a file that is not there fails with code 2.
  unfoldable pub load : M World CryptoError Bytes
  unfolding kek_of_raw
  load = do
    World.io io
    file ← gets (λ w. w.kek_file)
    maybe file (fail (io 2)) λ wrapped. do
      raw ← lift (convert cng (Cng.dpapi_unprotect_machine wrapped kek_dpapi_entropy))
      lift (kek_of_raw raw)

  -- `[nonce(12) || tag(16) || ciphertext(32)]`
  unfoldable pub wrap_dek : Bytes → Bytes → M World CryptoError Bytes
  unfolding nonce_12
  wrap_dek kek dek = do
    nonce ← nonce_12
    sealed ← lift (convert cng (Cng.aes_256_gcm_encrypt kek nonce [] dek))
    pure (nonce ++ (sealed.1 ++ sealed.0))

  unfoldable pub unwrap_dek : Bytes → Bytes → Result CryptoError Bytes
  unfolding kek_of_raw
  unwrap_dek kek wrapped =
      if length wrapped == 12 + 16 + 32
      then Result.◌>>=◌
          (convert cng (
            Cng.aes_256_gcm_decrypt kek (take 12 wrapped) [] (take 32 (drop 28 wrapped))
              (take 16 (drop 12 wrapped))))
          kek_of_raw
      else err invalid_key_length
