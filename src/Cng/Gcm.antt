-- ===== src/Cng/Gcm.antt =====
-- AES-256-GCM of crates/cng/src/lib.rs, given what Windows documents of it.
use fips_dropbox.Prelude.{◌≡◌, sym, ap, ◌∙◌, length, arith}
use fips_dropbox.Text.{Bytes}
use fips_dropbox.Result.{ok}
use fips_dropbox.Platform.{Platform}
use fips_dropbox.Cng.{
  check, open_aes_gcm, generate_aes_key, aes_256_gcm_encrypt, aes_256_gcm_decrypt,
}

-- `BCryptEncrypt` and `BCryptDecrypt` in GCM mode: decrypting with the key, the nonce and the
-- associated data of the encryption gives the plaintext back; the cipher keeps the length.
pub record IsGcm (os : Platform) : Type 0 where
  pub opens :
      (key nonce aad plaintext : Bytes)
      → os.bcrypt_decrypt key nonce aad
          (os.bcrypt_encrypt key nonce aad plaintext).1
          (os.bcrypt_encrypt key nonce aad plaintext).2
        ≡ (0, plaintext)
  pub cipher_length :
      (key nonce aad plaintext : Bytes)
      → length (os.bcrypt_encrypt key nonce aad plaintext).1 ≡ length plaintext
  pub tag_length :
      (key nonce aad plaintext : Bytes) → length (os.bcrypt_encrypt key nonce aad plaintext).2 ≡ 16

module _ ⦃os : Platform⦄ (key nonce aad plaintext : Bytes) {ct tag : Bytes} where
  encrypted :
      aes_256_gcm_encrypt key nonce aad plaintext ≡ ok (ct, tag)
      → ((os.bcrypt_encrypt key nonce aad plaintext).1 ≡ ct)
        × ((os.bcrypt_encrypt key nonce aad plaintext).2 ≡ tag)
  unfolding aes_256_gcm_encrypt open_aes_gcm generate_aes_key check
  encrypted h = ground arith

  decrypts :
      aes_256_gcm_encrypt key nonce aad plaintext ≡ ok (ct, tag)
      → os.bcrypt_decrypt key nonce aad ct tag ≡ (0, plaintext)
      → aes_256_gcm_decrypt key nonce aad ct tag ≡ ok plaintext
  unfolding aes_256_gcm_encrypt aes_256_gcm_decrypt open_aes_gcm generate_aes_key check
  decrypts h opened = ground arith

  -- What `aes_256_gcm_encrypt` returns, `aes_256_gcm_decrypt` opens with the same key, nonce and
  -- associated data; the ciphertext is as long as the plaintext and the tag has 16 bytes.
  pub decrypt-encrypt :
      IsGcm os
      → aes_256_gcm_encrypt key nonce aad plaintext ≡ ok (ct, tag)
      → (aes_256_gcm_decrypt key nonce aad ct tag ≡ ok plaintext)
        × (length ct ≡ length plaintext)
        × (length tag ≡ 16)
  decrypt-encrypt gcm h =
      let (is_ct, is_tag) = encrypted h in
      (
        decrypts h (rw (sym is_ct, sym is_tag) (gcm.opens key nonce aad plaintext)),
        ap length (sym is_ct) ∙ gcm.cipher_length key nonce aad plaintext,
        ap length (sym is_tag) ∙ gcm.tag_length key nonce aad plaintext,
      )
