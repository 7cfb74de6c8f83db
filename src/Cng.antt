-- ===== src/Cng.antt =====
-- crates/cng/src/lib.rs: the status checks round the calls of Windows CNG and DPAPI, on whole byte
-- strings. Handles has the buffers and their lengths, which are cast to `u32`; an upload has 100 MiB
-- at most, so no length is cut.
pub mod Gcm
pub mod Handles
use fips_dropbox.Prelude.{ℕ, ◌^◌, [], ltb, ◌==◌, if◌then◌else◌}
use fips_dropbox.Text.{Bytes}
use fips_dropbox.Result.{Result, ok, err, ◌>>◌}
use fips_dropbox.Errors.{CngError, status, win_error, auth_tag_mismatch, fips_mode_disabled}
use fips_dropbox.Platform.{Platform, sha256_alg, hmac_sha256_alg}

abbrev pub status_auth_tag_mismatch : ℕ
status_auth_tag_mismatch = 0xC000A002

-- `status >= 0` of the `i32` whose pattern this is.
unfoldable pub check : {A : Type 0} → ℕ → A → Result CngError A
check s a = if ltb s (2 ^ 31) then ok a else err (status s)

module _ ⦃os : Platform⦄ where
  unfoldable pub random_bytes : ℕ → ℕ → Result CngError Bytes
  unfolding check
  random_bytes call n = let (s, b) = os.bcrypt_gen_random call n in check s b

  unfoldable pub sha256 : Bytes → Result CngError Bytes
  unfolding check
  sha256 text = let (s, b) = os.bcrypt_hash sha256_alg [] text in check s b

  unfoldable pub hmac_sha256 : Bytes → Bytes → Result CngError Bytes
  unfolding check
  hmac_sha256 key text = let (s, b) = os.bcrypt_hash hmac_sha256_alg key text in check s b

  open_aes_gcm : Result CngError Unit
  unfolding check
  open_aes_gcm = do
    check os.bcrypt_open_algorithm_provider tt
    check os.bcrypt_set_chaining_mode_gcm tt

  generate_aes_key : Bytes → Result CngError Unit
  unfolding check
  generate_aes_key key = check (os.bcrypt_generate_symmetric_key key) tt

  unfoldable pub aes_256_gcm_encrypt :
      Bytes → Bytes → Bytes → Bytes → Result CngError (Bytes × Bytes)
  unfolding open_aes_gcm generate_aes_key
  aes_256_gcm_encrypt key nonce aad plaintext = do
    open_aes_gcm
    generate_aes_key key
    let sealed = os.bcrypt_encrypt key nonce aad plaintext
    check sealed.0 (sealed.1, sealed.2)

  unfoldable pub aes_256_gcm_decrypt : Bytes → Bytes → Bytes → Bytes → Bytes → Result CngError Bytes
  unfolding open_aes_gcm generate_aes_key
  aes_256_gcm_decrypt key nonce aad ciphertext tag = do
    open_aes_gcm
    generate_aes_key key
    let opened = os.bcrypt_decrypt key nonce aad ciphertext tag
    if opened.0 == status_auth_tag_mismatch then err auth_tag_mismatch else check opened.0 opened.1

  unfoldable pub pbkdf2_hmac_sha256 : Bytes → Bytes → ℕ → ℕ → Result CngError Bytes
  unfolding check
  pbkdf2_hmac_sha256 password salt iterations out_len =
      let (s, b) = os.bcrypt_derive_key_pbkdf2 password salt iterations out_len in check s b

  unfoldable pub assert_fips_mode : Result CngError Unit
  unfolding check
  assert_fips_mode = do
    check os.bcrypt_get_fips_algorithm_mode.0 tt
    if os.bcrypt_get_fips_algorithm_mode.1 == 0 then err fips_mode_disabled else ok tt

  unfoldable pub dpapi_protect_machine : Bytes → Bytes → Result CngError Bytes
  dpapi_protect_machine plaintext entropy =
      let (success, out) = os.crypt_protect_data plaintext entropy in
      if success == 0 then err (win_error os.get_last_error) else ok out

  unfoldable pub dpapi_unprotect_machine : Bytes → Bytes → Result CngError Bytes
  dpapi_unprotect_machine ciphertext entropy =
      let (success, out) = os.crypt_unprotect_data ciphertext entropy in
      if success == 0 then err (win_error os.get_last_error) else ok out
