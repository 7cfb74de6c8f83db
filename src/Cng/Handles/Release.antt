-- ===== src/Cng/Handles/Release.antt =====
-- crates/cng/src/lib.rs: the handles that the calls open, and when they are closed.
use fips_dropbox.Prelude.{
  length, drop, take-append_length, refl, ℕ, ◌≡◌, ◌≢◌, ◌^◌, Bool, [], ◌∷◌, List, Option, none, some,
  ltb, ◌==◌, if◌then◌else◌, arith,
}
use fips_dropbox.Text.{Bytes}
use fips_dropbox.Result.{Result}
use fips_dropbox.Errors.{CngError}
use fips_dropbox.Platform.{Platform}
use fips_dropbox.Cng
use fips_dropbox.Cng.Handles

pub data Handle : Type 0 where
  alg key blob : ℕ → Handle

-- What a call does to the handles that are open, the latest first. It has none where the call is
-- given a handle that is not open, or closes one that is not the latest.
abbrev opened : Bool → Handle → List Handle → Option (List Handle)
opened succeeds h held = some (if succeeds then h ∷ held else held)

abbrev with_alg : ℕ → List Handle → Option (List Handle) → Option (List Handle)
with_alg h (alg a ∷ held) after = if h == a then after else none
with_alg h _ after = none

abbrev with_key : ℕ → List Handle → Option (List Handle) → Option (List Handle)
with_key h (key k ∷ held) after = if h == k then after else none
with_key h _ after = none

abbrev latest_freed : ℕ → List Handle → Option (List Handle)
latest_freed h (blob b ∷ held) = if h == b then some held else none
latest_freed h _ = none

abbrev rest : List Handle → List Handle
rest [] = []
rest (h ∷ held) = held

abbrev has_succeeded : ℕ → Bool
has_succeeded s = ltb s (2 ^ 31)

unfoldable pub after_call : Handles.Call → List Handle → Option (List Handle)
after_call (Handles.bcrypt_open_algorithm_provider s a) held = opened (has_succeeded s) (alg a) held
after_call (Handles.bcrypt_set_property a size) held = with_alg a held (some held)
after_call (Handles.bcrypt_generate_symmetric_key a secret s k) held =
    with_alg a held (opened (has_succeeded s) (key k) held)
after_call (Handles.bcrypt_encrypt k input info output) held = with_key k held (some held)
after_call (Handles.bcrypt_decrypt k input info output) held = with_key k held (some held)
after_call (Handles.bcrypt_destroy_key k) held = with_key k held (some (rest held))
after_call (Handles.bcrypt_close_algorithm_provider a) held = with_alg a held (some (rest held))
after_call (Handles.crypt_protect_data input entropy success out) held =
    some (if success == 0 then held else blob out ∷ held)
after_call (Handles.crypt_unprotect_data input entropy success out) held =
    some (if success == 0 then held else blob out ∷ held)
after_call (Handles.local_free out) held = latest_freed out held

unfoldable pub after_calls : List Handles.Call → List Handle → Option (List Handle)
unfolding after_call
after_calls [] held = some held
after_calls (call ∷ calls) held = elim (after_call call held) [
  | some left ↦ after_calls calls left
  | none ↦ none
]

-- The trace answers as the function does, uses open handles only, and closes each that it opens,
-- once, the latest first.
pub record IsReleased {A : Type 0} (run : Handles.Traced A) (answer : Result CngError A)
    : Type 0 where
  pub answers : run.0 ≡ answer
  pub closes : after_calls run.1 [] ≡ some []

truncated_all : (out bytes : Bytes) → Handles.truncated out bytes ≡ bytes
truncated_all out bytes = take-append_length (length bytes) bytes (drop (length bytes) out) refl

-- The DPAPI functions free the one buffer that they are given; their traces have no other handle.
module _ ⦃os : Platform⦄ ⦃windows : Handles.Windows⦄ where
  dpapi_protect-IsReleased :
      (text entropy : Bytes)
      → IsReleased
          (Handles.dpapi_protect_machine text entropy)
          (Cng.dpapi_protect_machine text entropy)
  unfolding Handles.dpapi_protect_machine Cng.dpapi_protect_machine after_calls after_call
  dpapi_protect-IsReleased text entropy = record { answers = ground arith; closes = ground arith }

  dpapi_unprotect-IsReleased :
      (text entropy : Bytes)
      → IsReleased
          (Handles.dpapi_unprotect_machine text entropy)
          (Cng.dpapi_unprotect_machine text entropy)
  unfolding Handles.dpapi_unprotect_machine Cng.dpapi_unprotect_machine after_calls after_call
  dpapi_unprotect-IsReleased text entropy = record { answers = ground arith; closes = ground arith }

-- The handles that Windows writes where it opens one are not null.
module _ ⦃os : Platform⦄ ⦃windows : Handles.Windows⦄ (alg≢0 : windows.alg_handle ≢ 0)
    (key≢0 : windows.key_handle ≢ 0) where
  encrypt-IsReleased :
      (k nonce aad plaintext : Bytes)
      → IsReleased
          (Handles.aes_256_gcm_encrypt k nonce aad plaintext)
          (Cng.aes_256_gcm_encrypt k nonce aad plaintext)
  unfolding Handles.aes_256_gcm_encrypt Handles.under_aes_key Handles.open_aes_gcm
      Handles.generate_aes_key Handles.encrypt_call Handles.drop_alg Handles.drop_key
      Cng.aes_256_gcm_encrypt Cng.check after_calls after_call
  encrypt-IsReleased k nonce aad plaintext = record {
    answers = ground (
      arith,
      truncated_all (Handles.zeros (length plaintext)) (os.bcrypt_encrypt k nonce aad plaintext).1,
    );
    closes = ground arith;
  }

  decrypt-IsReleased :
      (k nonce aad ciphertext tag : Bytes)
      → IsReleased
          (Handles.aes_256_gcm_decrypt k nonce aad ciphertext tag)
          (Cng.aes_256_gcm_decrypt k nonce aad ciphertext tag)
  unfolding Handles.aes_256_gcm_decrypt Handles.under_aes_key Handles.open_aes_gcm
      Handles.generate_aes_key Handles.decrypt_call Handles.drop_alg Handles.drop_key
      Cng.aes_256_gcm_decrypt Cng.check after_calls after_call
  decrypt-IsReleased k nonce aad ciphertext tag = record {
    answers = ground (
      arith,
      truncated_all (Handles.zeros (length ciphertext))
          (os.bcrypt_decrypt k nonce aad ciphertext tag).1,
    );
    closes = ground arith;
  }

  -- Where Windows opens no null handle, encryption, decryption and both DPAPI functions, whatever
  -- statuses their calls give, answer as Cng says, use a handle only while it is open, and close
  -- each that was opened, once, the key before its provider.
  pub native_calls-IsReleased :
      (k nonce aad text tag : Bytes)
      → IsReleased
          (Handles.aes_256_gcm_encrypt k nonce aad text)
          (Cng.aes_256_gcm_encrypt k nonce aad text)
        × IsReleased
            (Handles.aes_256_gcm_decrypt k nonce aad text tag)
            (Cng.aes_256_gcm_decrypt k nonce aad text tag)
        × IsReleased (Handles.dpapi_protect_machine text aad) (Cng.dpapi_protect_machine text aad)
        × IsReleased
            (Handles.dpapi_unprotect_machine text aad)
            (Cng.dpapi_unprotect_machine text aad)
  native_calls-IsReleased k nonce aad text tag = (
    encrypt-IsReleased k nonce aad text,
    decrypt-IsReleased k nonce aad text tag,
    dpapi_protect-IsReleased text aad,
    dpapi_unprotect-IsReleased text aad,
  )
