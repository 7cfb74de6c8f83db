-- ===== src/Cng/Handles/Buffers.antt =====
-- crates/cng/src/lib.rs: the lengths and pointers that the native calls are given.
use fips_dropbox.Prelude.{ℕ, ◌≡◌, ◌<◌, ◌+◌, ◌*◌, ◌^◌, [], List, none, some, length, take}
use fips_dropbox.Text.{Bytes}
use fips_dropbox.Platform.{Platform}
use fips_dropbox.Cng
use fips_dropbox.Cng.Handles

-- The bytes that a call reads at a pointer.
abbrev pub read : Handles.Buffer → Bytes
read buffer = elim (buffer.pointer) [ some bytes ↦ take buffer.size bytes | none ↦ [] ]

-- A length that an `u32` holds.
abbrev pub Fits : Bytes → Type 0
Fits bytes = length bytes < 2 ^ 32

-- What the native calls of a function with this key, text, associated data, nonce and tag ought to
-- be given; the calls that are left out take a handle at most. The tag of an encryption is an output
-- of 16 bytes.
abbrev pub IsExact : (units : List ℕ) (key text aad nonce tag : Bytes) → Handles.Call → Type 0
IsExact units key text aad nonce tag (Handles.bcrypt_set_property h size) =
    size ≡ (length units + 1) * 2
IsExact units key text aad nonce tag (Handles.bcrypt_generate_symmetric_key a secret s k) =
    read secret ≡ key
IsExact units key text aad nonce tag (Handles.bcrypt_encrypt h input info output) =
    (read input ≡ text)
    × (read info.auth_data ≡ aad)
    × (info.nonce ≡ nonce)
    × (info.nonce_size ≡ length nonce)
    × (info.tag_size ≡ 16)
    × (output.size ≡ length text)
IsExact units key text aad nonce tag (Handles.bcrypt_decrypt h input info output) =
    (read input ≡ text)
    × (read info.auth_data ≡ aad)
    × (info.nonce ≡ nonce)
    × (info.nonce_size ≡ length nonce)
    × (info.tag ≡ tag)
    × (info.tag_size ≡ length tag)
    × (output.size ≡ length text)
IsExact units key text aad nonce tag _ = Unit
