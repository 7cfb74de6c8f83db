-- ===== src/Tests/Native.antt =====
-- The native calls of crates/cng/src/lib.rs on concrete inputs.
use fips_dropbox.Prelude.{◌≡◌, refl, [], ◌∷◌, codes, replicate, arith}
use fips_dropbox.Cng
use fips_dropbox.Cng.Handles
use fips_dropbox.Cng.Handles.Release.{IsReleased, native_calls-IsReleased}
use fips_dropbox.Tests.Sample.{os}

abbrev windows : Handles.Windows
windows = record {
  alg_handle = 16;
  key_handle = 32;
  out_pointer = 48;
  chain_mode_gcm = codes "ChainingModeGCM";
}

encrypts :
    (Handles.aes_256_gcm_encrypt ⦃os = os⦄ ⦃windows = windows⦄
      (replicate 32 9)
      (replicate 12 0)
      []
      (codes "hi")).1
    ≡ Handles.bcrypt_open_algorithm_provider 0 16
      ∷ Handles.bcrypt_set_property 16 32
      ∷ Handles.bcrypt_generate_symmetric_key 16 (Handles.buffer (replicate 32 9)) 0 32
      ∷ Handles.bcrypt_encrypt 32
          (Handles.buffer (codes "hi"))
          (Handles.auth_mode_info (replicate 12 0) [] (replicate 16 0))
          (Handles.buffer (replicate 2 0))
      ∷ Handles.bcrypt_destroy_key 32
      ∷ Handles.bcrypt_close_algorithm_provider 16
      ∷ []
unfolding Handles.aes_256_gcm_encrypt Handles.under_aes_key Handles.open_aes_gcm
    Handles.generate_aes_key Handles.encrypt_call Handles.drop_alg Handles.drop_key
    Handles.wstrlen_bytes_incl_nul Handles.units_to_nul Cng.check
encrypts = refl

native_calls-IsReleased_example :
    IsReleased
      (Handles.aes_256_gcm_encrypt ⦃os = os⦄ ⦃windows = windows⦄
        (replicate 32 9)
        (replicate 12 0)
        []
        (codes "hi"))
      (Cng.aes_256_gcm_encrypt ⦃os = os⦄ (replicate 32 9) (replicate 12 0) [] (codes "hi"))
    × IsReleased
        (Handles.aes_256_gcm_decrypt ⦃os = os⦄ ⦃windows = windows⦄
          (replicate 32 9)
          (replicate 12 0)
          []
          (codes "hi")
          (replicate 16 7))
        (Cng.aes_256_gcm_decrypt ⦃os = os⦄
          (replicate 32 9)
          (replicate 12 0)
          []
          (codes "hi")
          (replicate 16 7))
    × IsReleased
        (Handles.dpapi_protect_machine ⦃os = os⦄ ⦃windows = windows⦄ (codes "hi") [])
        (Cng.dpapi_protect_machine ⦃os = os⦄ (codes "hi") [])
    × IsReleased
        (Handles.dpapi_unprotect_machine ⦃os = os⦄ ⦃windows = windows⦄ (codes "hi") [])
        (Cng.dpapi_unprotect_machine ⦃os = os⦄ (codes "hi") [])
native_calls-IsReleased_example =
    native_calls-IsReleased ⦃os = os⦄ ⦃windows = windows⦄ (omega arith) (omega arith)
      (replicate 32 9) (replicate 12 0) [] (codes "hi") (replicate 16 7)
