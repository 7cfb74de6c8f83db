-- ===== src/Crypto/Kek/RoundTrip.antt =====
-- A wrapped data key is unwrapped again, and only by its own KEK's cipher.
use fips_dropbox.Prelude.{
  ◌≡◌, refl, sym, ap, ◌∙◌, [], ◌++◌, arith, length, length-append, take, drop, take-append_length,
  drop-append_length, take_all, append_assoc,
}
use fips_dropbox.Text.{Bytes}
use fips_dropbox.Result
use fips_dropbox.Result.{Result, ok, err, panic, convert, convert-eq-ok}
use fips_dropbox.Effect.{◌>>=◌, >>=-eq-ok, lift-value, pure-eq-ok}
use fips_dropbox.Errors.{cng}
use fips_dropbox.Platform.{Platform}
use fips_dropbox.World.{World, random_bytes}
use fips_dropbox.Cng
use fips_dropbox.Cng.Gcm.{IsGcm, decrypt-encrypt}
use fips_dropbox.Crypto.{bytes, nonce_12}
use fips_dropbox.Crypto.Kek.{wrap_dek, unwrap_dek, kek_of_raw}

-- The cuts of a wrapped key.
cuts :
    (nonce tag ct : Bytes)
    → length nonce ≡ 12
    → length tag ≡ 16
    → length ct ≡ 32
    → (length (nonce ++ (tag ++ ct)) ≡ 60)
      × (take 12 (nonce ++ (tag ++ ct)) ≡ nonce)
      × (take 16 (drop 12 (nonce ++ (tag ++ ct))) ≡ tag)
      × (take 32 (drop 28 (nonce ++ (tag ++ ct))) ≡ ct)
cuts nonce tag ct hn ht hc = (
  omega (arith, length-append nonce (tag ++ ct), length-append tag ct),
  take-append_length 12 nonce (tag ++ ct) hn,
  rw (drop-append_length 12 nonce (tag ++ ct) hn) (take-append_length 16 tag ct ht),
  ap (take 32) (
        ap (drop 28) (sym (append_assoc nonce tag ct))
        ∙ drop-append_length 28 (nonce ++ tag) ct (omega (arith, length-append nonce tag)))
      ∙ take_all 32 ct hc,
)

module _ ⦃os : Platform⦄ where
  -- Keys of another length than 60 are refused before any cipher is called.
  unwrap_parts :
      (kek nonce tag ct : Bytes)
      → length nonce ≡ 12
      → length tag ≡ 16
      → length ct ≡ 32
      → unwrap_dek kek (nonce ++ (tag ++ ct))
        ≡ Result.◌>>=◌ (convert cng (Cng.aes_256_gcm_decrypt kek nonce [] ct tag)) kek_of_raw
  unfolding unwrap_dek
  unwrap_parts kek nonce tag ct hn ht hc =
      let (long, is_nonce, is_tag, is_ct) = cuts nonce tag ct hn ht hc in
      rw (long, is_nonce, is_tag, is_ct) refl

  nonce_12-value :
      (w : World) {nonce : Bytes}
      → (nonce_12 w).0 ≡ ok nonce
      → (os.bcrypt_gen_random w.calls 12).1 ≡ nonce
  unfolding nonce_12 bytes random_bytes Cng.random_bytes Cng.check ◌>>=◌
  nonce_12-value w h = ground arith

  -- A wrapped data key of 32 bytes is unwrapped to itself under the same KEK, where AES-GCM is as
  -- documented and the random generator fills its buffer of 12 bytes.
  pub unwrap_dek-wrap_dek :
      (kek dek : Bytes) (w : World) {wrapped : Bytes} {t : World}
      → IsGcm os
      → length (os.bcrypt_gen_random w.calls 12).1 ≡ 12
      → length dek ≡ 32
      → wrap_dek kek dek w ≡ (ok wrapped, t)
      → unwrap_dek kek wrapped ≡ ok dek
  unfolding wrap_dek kek_of_raw
  unwrap_dek-wrap_dek kek dek w {wrapped} gcm filled long h =
      let (nonce, drawn, rest) = >>=-eq-ok nonce_12 _ w h in
      let (parts, made, last) = >>=-eq-ok _ _ _ rest in
      let is_sealed =
        convert-eq-ok cng (Cng.aes_256_gcm_encrypt kek nonce [] dek) (lift-value _ _ made) in
      let (opened, ct_long, tag_long) = decrypt-encrypt kek nonce [] dek gcm is_sealed in
      let its_nonce : length nonce ≡ 12 = ap length (sym (nonce_12-value w drawn)) ∙ filled in
      ap (unwrap_dek kek) (sym (pure-eq-ok (nonce ++ (parts.1 ++ parts.0)) _ last))
      ∙ unwrap_parts kek nonce parts.1 parts.0 its_nonce tag_long (ct_long ∙ long)
      ∙ rw opened (rw long refl)
