-- ===== src/Crypto/Token.antt =====
-- crates/crypto/src/token.rs: URL tokens and access codes.
pub mod Shape
use fips_dropbox.Prelude.{
  ℕ, zero, suc, ◌%◌, ◌<◌, Bool, ◌&&◌, Option, none, some, List, [], ◌∷◌, ◌++◌, codes, length, ltb,
  ◌==◌, if◌then◌else◌, get_elem?,
}
use fips_dropbox.Text.{Text, Bytes}
use fips_dropbox.Effect.{M, pure, or_panic, ◌>>=◌}
use fips_dropbox.Errors.{CryptoError}
use fips_dropbox.Platform.{Platform}
use fips_dropbox.World.{World}
use fips_dropbox.Crypto.{bytes}

abbrev pub alphabet : Text
alphabet = codes "23456789ABCDEFGHJKMNPQRSTUVWXYZ"

-- The loop over the random bytes: a dash before every third but the first; `none` is an index out
-- of the alphabet.
unfoldable pub code_chars : ℕ → Bytes → Option Text
code_chars i [] = some []
code_chars i (b ∷ raw) = elim (get_elem? alphabet (b % length alphabet)) [
  | none ↦ none
  | some c ↦ elim (code_chars (suc i) raw) [
    | none ↦ none
    | some out ↦ some (if ltb 0 i && (i % 3 == 0) then b'-' ∷ c ∷ out else c ∷ out)
  ]
]

module _ ⦃os : Platform⦄ where
  unfoldable pub url_token : M World CryptoError Text
  unfolding bytes
  url_token = do raw ← bytes 16; pure (os.base64_url raw)

  unfoldable pub access_code : M World CryptoError Text
  unfolding bytes code_chars
  access_code = do raw ← bytes 15; or_panic (code_chars 0 raw)
