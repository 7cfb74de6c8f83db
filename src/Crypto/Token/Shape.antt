-- ===== src/Crypto/Token/Shape.antt =====
-- The shape of the codes that crates/crypto/src/token.rs makes.
use fips_dropbox.Prelude.{
  ℕ, zero, suc, ◌+◌, ◌%◌, ◌<◌, ◌≡◌, refl, sym, ap, ◌∙◌, Bool, true, false, ◌&&◌, ◌||◌, some, List,
  [], ◌∷◌, length, any, arith, ltb, ◌==◌, if◌then◌else◌, get_elem?,
}
use fips_dropbox.Prelude.Table.Laws.{All}
use fips_dropbox.Text.{Text, Bytes}
use fips_dropbox.Result.{ok}
use fips_dropbox.Effect.{or_panic, ◌>>=◌, >>=-eq-ok}
use fips_dropbox.Errors.{CryptoError}
use fips_dropbox.Platform.{Platform}
use fips_dropbox.World.{World, random_bytes}
use fips_dropbox.Cng
use fips_dropbox.Crypto
use fips_dropbox.Crypto.Token.{alphabet, code_chars, access_code}

-- The dashes among the characters `i`, …, `i + n - 1`.
unfoldable dashes : ℕ → ℕ → ℕ
dashes i zero = 0
dashes i (suc n) = (if ltb 0 i && (i % 3 == 0) then 1 else 0) + dashes (suc i) n

abbrev pub IsCodeChar : ℕ → Type 0
IsCodeChar c = (c == b'-' || any (λ a. a == c) alphabet) ≡ true

get_elem?-any :
    (xs : List ℕ) (n : ℕ)
    → n < length xs
    → (c : ℕ) × (get_elem? xs n ≡ some c) × (any (λ a. a == c) xs ≡ true)
get_elem?-any [] n h = absurd (omega arith)
get_elem?-any (x ∷ xs) zero h = (x, refl, ground arith)
get_elem?-any (x ∷ xs) (suc n) h =
    let (c, found, there) = get_elem?-any xs n (omega arith) in (c, found, ground arith)

next_char :
    (i b : ℕ) (raw : Bytes) (c : ℕ) (code : Text)
    → get_elem? alphabet (b % length alphabet) ≡ some c
    → code_chars (suc i) raw ≡ some code
    → code_chars i (b ∷ raw) ≡ some (if ltb 0 i && (i % 3 == 0) then b'-' ∷ c ∷ code else c ∷ code)
unfolding code_chars
next_char i b raw c code found rest = grind arith

-- The loop never indexes out of the alphabet.
code_chars-shape :
    (i : ℕ) (raw : Bytes)
    → (code : Text) × (code_chars i raw ≡ some code)
      × (length code ≡ length raw + dashes i (length raw))
      × All IsCodeChar code
unfolding code_chars dashes
code_chars-shape i [] = ([], refl, omega arith, tt)
code_chars-shape i (b ∷ raw) =
    let (c, found, there) = get_elem?-any alphabet (b % length alphabet) (omega arith) in
    let (code, rest, its_length, chars) = code_chars-shape (suc i) raw in
    (
      if ltb 0 i && (i % 3 == 0) then b'-' ∷ c ∷ code else c ∷ code,
      next_char i b raw c code found rest,
      longer (ltb 0 i && (i % 3 == 0)) c code _ _ its_length,
      more (ltb 0 i && (i % 3 == 0)) c code there chars,
    )
  where
    longer :
        (dash : Bool) (c : ℕ) (code : Text) (n d : ℕ)
        → length code ≡ n + d
        → length (if dash then b'-' ∷ c ∷ code else c ∷ code)
          ≡ suc n + ((if dash then 1 else 0) + d)
    longer true c code n d h = omega arith
    longer false c code n d h = omega arith

    more :
        (dash : Bool) (c : ℕ) (code : Text)
        → any (λ a. a == c) alphabet ≡ true
        → All IsCodeChar code
        → All IsCodeChar (if dash then b'-' ∷ c ∷ code else c ∷ code)
    more true c code h k = (refl, (ground arith, k))
    more false c code h k = (ground arith, k)

module _ ⦃os : Platform⦄ (w : World) where
  raw_bytes :
      {raw : Bytes} → (Crypto.bytes 15 w).0 ≡ ok raw → (os.bcrypt_gen_random w.calls 15).1 ≡ raw
  unfolding Crypto.bytes random_bytes Cng.random_bytes Cng.check ◌>>=◌
  raw_bytes h = ground arith

  drawn_code :
      (out : Text) (u : World) {code : Text} {t : World}
      → or_panic {E = CryptoError} (some out) u ≡ (ok code, t)
      → out ≡ code
  unfolding ◌>>=◌
  drawn_code out u h = cc

  -- An access code has 19 characters, each a dash or a character of the alphabet, where the random
  -- generator fills its buffer of 15 bytes.
  pub access_code-shape :
      {code : Text} {t : World}
      → length (os.bcrypt_gen_random w.calls 15).1 ≡ 15
      → access_code w ≡ (ok code, t)
      → (length code ≡ 19) × All IsCodeChar code
  unfolding access_code dashes
  access_code-shape {code} filled h =
      let (raw, drawn, rest) = >>=-eq-ok (Crypto.bytes 15) _ w h in
      let (out, made, its_length, chars) = code_chars-shape 0 raw in
      let fifteen : length raw ≡ 15 = ap length (sym (raw_bytes drawn)) ∙ filled in
      let same = drawn_code out (Crypto.bytes 15 w).1 (rw made at rest) in
      (rw (sym same) (its_length ∙ ap (λ n. n + dashes 0 n) fifteen), rw (sym same) chars)
