-- ===== src/Crypto/Seal.antt =====
-- crates/crypto/src/aead.rs: what `seal` encrypts, `open` decrypts.
use fips_dropbox.Prelude.{◌≡◌, ap, subst, length}
use fips_dropbox.Text.{Bytes}
use fips_dropbox.Result.{ok, convert, convert-eq-ok}
use fips_dropbox.Effect.{>>=-eq-ok, lift-value, pure-eq-ok}
use fips_dropbox.Errors.{cng}
use fips_dropbox.Platform.{Platform}
use fips_dropbox.World.{World}
use fips_dropbox.Cng
use fips_dropbox.Cng.Gcm.{IsGcm, decrypt-encrypt}
use fips_dropbox.Crypto.{Sealed, nonce_12, seal, open_sealed}
use fips_dropbox.Crypto.Filled.{IsFilled, length-nonce_12}

-- `sealed` opens to `plaintext`, and has a nonce and a tag of the lengths of AES-GCM.
pub record Opens ⦃os : Platform⦄ (key aad plaintext : Bytes) (sealed : Sealed) : Type 0 where
  pub opened : open_sealed key aad sealed ≡ ok plaintext
  pub nonce_length : length sealed.nonce ≡ 12
  pub tag_length : length sealed.tag ≡ 16

module _ ⦃os : Platform⦄ (key aad plaintext : Bytes) (w : World) where
  -- What `seal` returns opens to the plaintext under the same key and associated data, where AES-GCM
  -- is as documented and the random generator fills its buffers.
  pub seal-Opens :
      {sealed : Sealed} {t : World}
      → IsGcm os
      → IsFilled os
      → seal key aad plaintext w ≡ (ok sealed, t)
      → Opens key aad plaintext sealed
  unfolding seal open_sealed
  seal-Opens gcm filled h =
      let (nonce, drawn, rest) = >>=-eq-ok nonce_12 _ w h in
      let (parts, made, last) = >>=-eq-ok _ _ _ rest in
      let encrypted =
        convert-eq-ok cng (Cng.aes_256_gcm_encrypt key nonce aad plaintext) (lift-value _ _ made) in
      let (opened, ct_long, tag_long) = decrypt-encrypt key nonce aad plaintext gcm encrypted in
      subst (Opens key aad plaintext) (pure-eq-ok _ _ last) (record {
        opened = ap (convert cng) opened;
        nonce_length = length-nonce_12 filled w drawn;
        tag_length = tag_long;
      })
