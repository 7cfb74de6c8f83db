-- ===== src/Cng/Handles.antt =====
-- crates/cng/src/lib.rs: the native calls that the functions make, with their buffers, the lengths
-- beside them, and the handles that are opened and that `Drop` closes, beside the answers of Cng.
pub mod Buffers
pub mod Release
use fips_dropbox.Prelude.{
  ℕ, suc, ◌+◌, ◌*◌, ◌^◌, ◌%◌, [], ◌∷◌, ◌++◌, List, Option, none, some, length, replicate, take,
  drop, ltb, ◌==◌, if◌then◌else◌,
}
use fips_dropbox.Text.{Bytes}
use fips_dropbox.Result.{Result, ok, err, panic}
use fips_dropbox.Errors.{CngError, win_error, auth_tag_mismatch}
use fips_dropbox.Platform.{Platform}
use fips_dropbox.Cng.{check, status_auth_tag_mismatch}

-- What Windows writes through the out-pointers, and the 16-bit units of `BCRYPT_CHAIN_MODE_GCM` up
-- to its NUL.
pub record Windows : Type 0 where
  pub alg_handle : ℕ
  pub key_handle : ℕ
  pub out_pointer : ℕ
  pub chain_mode_gcm : List ℕ

-- A pointer to bytes, or null, and the length beside it, an `u32`.
pub record Buffer : Type 0 where
  pub pointer : Option Bytes
  pub size : ℕ

abbrev pub pointer_or_null : Bytes → Option Bytes
pointer_or_null [] = none
pointer_or_null (b ∷ bytes) = some (b ∷ bytes)

abbrev pub buffer : Bytes → Buffer
buffer bytes = record { pointer = pointer_or_null bytes; size = length bytes % 2 ^ 32 }

-- `vec![0u8; n]`
abbrev pub zeros : ℕ → Bytes
zeros n = replicate n 0

-- What `truncate` leaves of an output buffer after a call has written these bytes to it.
abbrev pub truncated : Bytes → Bytes → Bytes
truncated out bytes = take (length bytes) (bytes ++ drop (length bytes) out)

-- `BCRYPT_AUTHENTICATED_CIPHER_MODE_INFO`: the fields that are neither null nor 0 on every call,
-- less `cbSize`. The arrays of the nonce and the tag are never empty; the tag is what its buffer
-- holds before the call.
pub record AuthModeInfo : Type 0 where
  pub info_version : ℕ
  pub nonce : Bytes
  pub nonce_size : ℕ
  pub auth_data : Buffer
  pub tag : Bytes
  pub tag_size : ℕ

abbrev pub bcrypt_init_auth_mode_info_version : ℕ
bcrypt_init_auth_mode_info_version = 1

unfoldable pub auth_mode_info : Bytes → Bytes → Bytes → AuthModeInfo
auth_mode_info nonce aad tag = record {
  info_version = bcrypt_init_auth_mode_info_version;
  nonce = nonce;
  nonce_size = length nonce % 2 ^ 32;
  auth_data = buffer aad;
  tag = tag;
  tag_size = length tag % 2 ^ 32;
}

-- The memory from a pointer on. Its end is not reached, by the `# Safety` clause of the function.
unfoldable pub units_to_nul : List ℕ → ℕ
units_to_nul [] = 0
units_to_nul (unit ∷ units) = let n = units_to_nul units in if unit == 0 then 0 else suc n

unfoldable pub wstrlen_bytes_incl_nul : List ℕ → ℕ
unfolding units_to_nul
wstrlen_bytes_incl_nul units = (units_to_nul units + 1) * 2 % 2 ^ 32

-- A call with the handle that it takes, the status that it gives, and the handle that it writes;
-- its input and its output buffer, as they are before the call.
pub data Call : Type 0 where
  bcrypt_open_algorithm_provider : (status alg : ℕ) → Call
  bcrypt_set_property : (alg size : ℕ) → Call
  bcrypt_generate_symmetric_key : (alg : ℕ) (secret : Buffer) (status key : ℕ) → Call
  bcrypt_encrypt bcrypt_decrypt :
      (key : ℕ) (input : Buffer) (info : AuthModeInfo) (output : Buffer) → Call
  bcrypt_destroy_key bcrypt_close_algorithm_provider : ℕ → Call
  crypt_protect_data crypt_unprotect_data : Buffer → Buffer → (success out : ℕ) → Call
  local_free : ℕ → Call

-- A result, with the calls made on the way to it.
abbrev pub Traced : Type 0 → Type 0
Traced A = Result CngError A × List Call

abbrev pub traced : {A : Type 0} → Call → Result CngError A → Traced A
traced call r = (r, call ∷ [])

infixl 5 ◌>>=◌
abbrev pub ◌>>=◌ : {A B : Type 0} → Traced A → (A → Traced B) → Traced B
(ok a, calls) >>= next = let (r, more) = next a in (r, calls ++ more)
(err e, calls) >>= next = (err e, calls)
(panic, calls) >>= next = (panic, calls)

-- A scope that drops a local at its end, however it ends; and one that moves it out where it
-- succeeds.
abbrev pub dropping : {A : Type 0} → List Call → Traced A → Traced A
dropping drop (r, calls) = (r, calls ++ drop)

abbrev pub moving : {A : Type 0} → List Call → Traced A → Traced A
moving drop (ok a, calls) = (ok a, calls)
moving drop (err e, calls) = (err e, calls ++ drop)
moving drop (panic, calls) = (panic, calls ++ drop)

unfoldable pub drop_alg : ℕ → List Call
drop_alg h = if h == 0 then [] else bcrypt_close_algorithm_provider h ∷ []

unfoldable pub drop_key : ℕ → List Call
drop_key h = if h == 0 then [] else bcrypt_destroy_key h ∷ []

module _ ⦃os : Platform⦄ ⦃windows : Windows⦄ where
  unfoldable pub open_aes_gcm : Traced ℕ
  unfolding wstrlen_bytes_incl_nul
  open_aes_gcm = do
    let s = os.bcrypt_open_algorithm_provider
    opened ← traced (bcrypt_open_algorithm_provider s windows.alg_handle) (check s tt)
    let handle = windows.alg_handle
    let len = wstrlen_bytes_incl_nul (windows.chain_mode_gcm ++ 0 ∷ [])
    moving (drop_alg handle)
        (traced (bcrypt_set_property handle len) (check os.bcrypt_set_chaining_mode_gcm handle))

  unfoldable pub generate_aes_key : ℕ → Bytes → Traced ℕ
  generate_aes_key alg key_bytes =
      let s = os.bcrypt_generate_symmetric_key key_bytes in
      traced (bcrypt_generate_symmetric_key alg (buffer key_bytes) s windows.key_handle)
        (check s windows.key_handle)

  unfoldable pub encrypt_call : Bytes → Bytes → Bytes → Bytes → ℕ → Traced (Bytes × Bytes)
  encrypt_call key nonce aad plaintext sym =
      let sealed = os.bcrypt_encrypt key nonce aad plaintext in
      let ciphertext = zeros (length plaintext) in
      traced
        (bcrypt_encrypt sym (buffer plaintext) (auth_mode_info nonce aad (zeros 16))
          (buffer ciphertext))
        (check sealed.0 (truncated ciphertext sealed.1, sealed.2))

  unfoldable pub decrypt_call : Bytes → Bytes → Bytes → Bytes → Bytes → ℕ → Traced Bytes
  decrypt_call key nonce aad ciphertext tag sym =
      let opened = os.bcrypt_decrypt key nonce aad ciphertext tag in
      let plaintext = zeros (length ciphertext) in
      traced
        (bcrypt_decrypt sym (buffer ciphertext) (auth_mode_info nonce aad tag) (buffer plaintext))
        (if opened.0 == status_auth_tag_mismatch
          then err auth_tag_mismatch
          else check opened.0 (truncated plaintext opened.1))

  -- The body under both handles, which are dropped in the reverse order.
  unfoldable pub under_aes_key : {A : Type 0} → Bytes → (ℕ → Traced A) → Traced A
  under_aes_key key body = do
    alg ← open_aes_gcm
    dropping (drop_alg alg) (do sym ← generate_aes_key alg key; dropping (drop_key sym) (body sym))

  unfoldable pub aes_256_gcm_encrypt : Bytes → Bytes → Bytes → Bytes → Traced (Bytes × Bytes)
  aes_256_gcm_encrypt key nonce aad plaintext =
      under_aes_key key (encrypt_call key nonce aad plaintext)

  unfoldable pub aes_256_gcm_decrypt : Bytes → Bytes → Bytes → Bytes → Bytes → Traced Bytes
  aes_256_gcm_decrypt key nonce aad ciphertext tag =
      under_aes_key key (decrypt_call key nonce aad ciphertext tag)

  unfoldable pub dpapi_protect_machine : Bytes → Bytes → Traced Bytes
  dpapi_protect_machine plaintext entropy =
      let (success, out) = os.crypt_protect_data plaintext entropy in
      let call =
        crypt_protect_data (buffer plaintext) (buffer entropy) success windows.out_pointer in
      if success == 0
      then traced call (err (win_error os.get_last_error))
      else dropping (local_free windows.out_pointer ∷ []) (traced call (ok out))

  unfoldable pub dpapi_unprotect_machine : Bytes → Bytes → Traced Bytes
  dpapi_unprotect_machine ciphertext entropy =
      let (success, out) = os.crypt_unprotect_data ciphertext entropy in
      let call =
        crypt_unprotect_data (buffer ciphertext) (buffer entropy) success windows.out_pointer in
      if success == 0
      then traced call (err (win_error os.get_last_error))
      else dropping (local_free windows.out_pointer ∷ []) (traced call (ok out))
