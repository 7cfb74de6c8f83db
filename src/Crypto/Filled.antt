-- ===== src/Crypto/Filled.antt =====
-- The lengths of what the platform fills in, and so of what crates/crypto returns.
use fips_dropbox.Prelude.{ℕ, ◌≡◌, [], length, arith}
use fips_dropbox.Text.{Bytes}
use fips_dropbox.Result.{ok}
use fips_dropbox.Effect.{◌>>=◌}
use fips_dropbox.Platform.{Platform, sha256_alg}
use fips_dropbox.World.{World, random_bytes}
use fips_dropbox.Cng
use fips_dropbox.Crypto
use fips_dropbox.Crypto.{bytes, generate, nonce_12}

-- `BCryptGenRandom` fills its buffer, SHA-256 has 32 bytes and an identifier 16.
pub record IsFilled (os : Platform) : Type 0 where
  pub random : (call n : ℕ) → length (os.bcrypt_gen_random call n).1 ≡ n
  pub sha256 : (text : Bytes) → length (os.bcrypt_hash sha256_alg [] text).1 ≡ 32
  pub uuid : (call : ℕ) → length (os.now_v7 call) ≡ 16

module _ ⦃os : Platform⦄ (filled : IsFilled os) where
  pub length-bytes : (n : ℕ) (w : World) {b : Bytes} → (bytes n w).0 ≡ ok b → length b ≡ n
  unfolding bytes random_bytes Cng.random_bytes Cng.check ◌>>=◌
  length-bytes n w h = ground (arith, filled.random w.calls n)

  pub length-nonce_12 : (w : World) {b : Bytes} → (nonce_12 w).0 ≡ ok b → length b ≡ 12
  unfolding nonce_12
  length-nonce_12 = length-bytes 12

  pub length-generate : (w : World) {b : Bytes} → (generate w).0 ≡ ok b → length b ≡ 32
  unfolding generate bytes
  length-generate = length-bytes 32

  pub length-sha256 : (text : Bytes) {b : Bytes} → Crypto.sha256 text ≡ ok b → length b ≡ 32
  unfolding Crypto.sha256 Cng.sha256 Cng.check
  length-sha256 text h = ground (arith, filled.sha256 text)
