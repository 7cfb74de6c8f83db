-- ===== src/Tests/Sample.antt =====
-- A concrete platform, and a store with one link.
use fips_dropbox.Prelude.{
  ℕ, ◌*◌, refl, true, false, Option, none, some, [], ◌∷◌, ◌++◌, codes, take, replicate,
}
use fips_dropbox.Text.{Text, Bytes}
use fips_dropbox.Platform.{Platform}
use fips_dropbox.Event.{Event}
use fips_dropbox.World.{World}
use fips_dropbox.Cng.Gcm.{IsGcm}
use fips_dropbox.Storage.Rows.{UserRow, VendorRow, PrintRow, ShareRow, Db}
use fips_dropbox.Service.{App}
use fips_dropbox.Web.Http.{Http}
use fips_dropbox.Service.Auth.{LoginRequest}
use fips_dropbox.Service.Redeem.{RedeemRequest}

-- The first bytes of a text, filled up with zeros.
abbrev pub padded : ℕ → Bytes → Bytes
padded n text = take n (text ++ replicate n 0)

-- A platform whose ciphers and digests are readable, with given file faults and JSON.
abbrev pub platform_of :
    (ℕ → Option ℕ) → (Bytes → Text) → (Event → Option Text) → (Text → Option Event) → Platform
platform_of faults hex to_json from_json = record {
  bcrypt_gen_random = λ call n. (0, replicate n call);
  bcrypt_hash = λ alg key text. (0, padded 32 (key ++ text));
  bcrypt_open_algorithm_provider = 0;
  bcrypt_set_chaining_mode_gcm = 0;
  bcrypt_generate_symmetric_key = λ key. 0;
  bcrypt_encrypt = λ key nonce aad plaintext. (0, plaintext, replicate 16 7);
  bcrypt_decrypt = λ key nonce aad ciphertext tag. (0, ciphertext);
  bcrypt_derive_key_pbkdf2 = λ password salt iterations n. (0, padded n (password ++ salt));
  bcrypt_get_fips_algorithm_mode = (0, 1);
  crypt_protect_data = λ plaintext entropy. (1, plaintext);
  crypt_unprotect_data = λ ciphertext entropy. (1, ciphertext);
  get_last_error = 0;
  now_utc = λ call. call * 1000000000;
  now_v7 = λ call. replicate 16 call;
  sqlite_fault = λ call. none;
  io_fault = faults;
  base64_url = λ raw. raw;
  hex_encode = hex;
  uuid_to_string = λ id. id;
  event_to_json = to_json;
  event_from_json = from_json;
}

abbrev pub os : Platform
os = platform_of (λ call. none) (λ raw. raw) (λ ev. some (codes "{}")) (λ line. none)

pub os-IsGcm : IsGcm os
os-IsGcm = record {
  opens = λ key nonce aad plaintext. refl;
  cipher_length = λ key nonce aad plaintext. refl;
  tag_length = λ key nonce aad plaintext. refl;
}

abbrev pub uuid : ℕ → Bytes
uuid n = replicate 16 n

abbrev pub user_row : UserRow
user_row = record {
  id = uuid 1;
  email = codes "a@b";
  role = codes "admin";
  password_hash = padded 32 (codes "pw");
  password_salt = replicate 16 0;
  password_iters = 600000;
  totp_secret_wrapped = none;
  created_at = 0;
  disabled_at = none;
}

abbrev pub vendor_row : VendorRow
vendor_row = record {
  id = uuid 2;
  display_name = codes "Shop";
  primary_email = codes "v@s";
  primary_phone = none;
  primary_user_id = none;
  created_by = uuid 1;
  created_at = 0;
  disabled_at = none;
}

abbrev pub print_row : PrintRow
print_row = record {
  id = uuid 3;
  filename = codes "p.pdf";
  size_bytes = 2;
  sha256_plaintext = padded 32 (codes "hi");
  blob_path = codes "p.enc";
  dek_wrapped = replicate 60 5;
  nonce = replicate 12 6;
  tag = replicate 16 7;
  uploaded_by = uuid 1;
  uploaded_at = 0;
  cui_attested = 1;
}

abbrev pub share_row : ShareRow
share_row = record {
  id = uuid 4;
  print_id = uuid 3;
  vendor_id = uuid 2;
  token_hash = padded 32 (codes "tok");
  access_code_hash = padded 32 (codes "code");
  expires_at = 1000000;
  max_downloads = 2;
  download_count = 1;
  sender_note = none;
  created_by = uuid 1;
  created_at = 0;
  revoked_at = none;
}

abbrev pub db : Db
db = record {
  users = user_row ∷ [];
  vendors = vendor_row ∷ [];
  prints = print_row ∷ [];
  shares = share_row ∷ [];
  sessions = [];
  api_tokens = [];
}

abbrev pub world : World
world = record {
  calls = 0;
  db = db;
  blobs = (codes "p.enc", codes "hi") ∷ [];
  audit_file = none;
  log = record { prev_hash = [] };
  kek_file = none;
  store_poisoned = false;
  audit_poisoned = false;
  outbox = [];
}

abbrev pub app : App
app = record {
  kek = replicate 32 9;
  public_base_url = codes "https://x";
  fips_mode_enabled = true;
  email_configured = false;
  sms_configured = false;
}

abbrev pub redeem_request : RedeemRequest
redeem_request = record {
  token = codes "tok";
  access_code = codes "code";
  ip = [];
  user_agent = [];
}

abbrev pub login_request : LoginRequest
login_request = record { email = codes "a@b"; password = codes "pw"; ip = []; user_agent = [] }

-- The other crates of crates/web, with a given text for every JSON value.
abbrev pub http_of : Text → Http
http_of json = record {
  rfc3339 = λ at. some (codes "1970");
  format_minutes = λ at. some (codes "1970");
  format_stamp = λ at. some (codes "1970");
  json_to_string = λ v. json;
  uuid_parse = λ text. some text;
  to_lowercase = λ text. text;
  renders = λ page. true;
  is_header_text = λ text. true;
  is_header_value = λ text. true;
}

abbrev pub http : Http
http = http_of (codes "{\"a\":\"b\"}")
