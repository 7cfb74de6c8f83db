-- ===== src/Tests/Pages.antt =====
-- The texts of the pages and of the export.
use fips_dropbox.Prelude.{
  ◌≤◌, ◌≡◌, refl, false, some, take, if◌then◌else◌, [], ◌∷◌, ◌++◌, none, codes, arith, replicate,
  length, list_eq,
}
use fips_dropbox.Prelude.Table.Laws.{All}
use fips_dropbox.Text
use fips_dropbox.Prelude.Table
use fips_dropbox.Cng
use fips_dropbox.Crypto
use fips_dropbox.World
use fips_dropbox.Time
use fips_dropbox.Audit
use fips_dropbox.Audit.Lines
use fips_dropbox.Storage.Decode
use fips_dropbox.Storage.Queries
use fips_dropbox.Storage.Records
use fips_dropbox.Storage.Sessions
use fips_dropbox.Storage.Users
use fips_dropbox.Service
use fips_dropbox.Service.Auth
use fips_dropbox.Web.Http
use fips_dropbox.Web.Cookies
use fips_dropbox.Web.Extract
use fips_dropbox.Web.Strings
use fips_dropbox.Text.{Text, len, slice_to, utf8_len}
use fips_dropbox.Result.{ok, panic}
use fips_dropbox.Effect.{◌>>=◌}
use fips_dropbox.Platform.{Platform}
use fips_dropbox.World.{World}
use fips_dropbox.Storage.Rows.{SessionRow}
use fips_dropbox.Storage.Records.{User, admin}
use fips_dropbox.Service.View.{AuditView, list_audit_events}
use fips_dropbox.Web.Extract.{current_user}
use fips_dropbox.Event.{Event, success, obj, end}
use fips_dropbox.Web.Strings.{combined, sanitize_filename}
use fips_dropbox.Web.Strings.Laws.{IsSafe, Drops, sanitize_filename_lem}
use fips_dropbox.Web.Csv.{csv_header, csv_rows}
use fips_dropbox.Web.Csv.Reading.{Reads, header_record, oldest_first, csv-Reads}
use fips_dropbox.Web.AuditLog.{filter_of, audit_get}
use fips_dropbox.Web.AuditLog.Failing.{joined, audit_get-panics}
use fips_dropbox.Web.Http.{Http, Headers}
use fips_dropbox.Tests.Sample.{http, http_of, platform_of, world, db, user_row, uuid, padded}

abbrev event : Event
event = record {
  ts = 0;
  event = codes "auth.login";
  actor = record { user_id = none; ip = codes "unknown"; ua = codes "a,\"b\"\nc" };
  target = obj end;
  outcome = success;
  meta = obj end;
  prev_hash = codes "0";
  hash = codes "1";
}

sanitize_filename_example :
    ((rest : Text) × Drops (codes "a/b\".pdf") rest
      × (sanitize_filename (codes "a/b\".pdf") ≡ take 255 rest))
    × All IsSafe (sanitize_filename (codes "a/b\".pdf"))
    × (length (sanitize_filename (codes "a/b\".pdf")) ≤ 255)
    × (All IsSafe (codes "a/b\".pdf")
        → length (codes "a/b\".pdf") ≤ 255
        → sanitize_filename (codes "a/b\".pdf") ≡ codes "a/b\".pdf")
sanitize_filename_example = sanitize_filename_lem (codes "a/b\".pdf")

csv-Reads_example :
    Reads
      (csv_header ++ csv_rows ⦃http = http⦄ (event ∷ event ∷ []))
      (header_record ⦃http = http⦄ ∷ oldest_first ⦃http = http⦄ (event ∷ event ∷ []) [])
csv-Reads_example = csv-Reads ⦃http = http⦄ (event ∷ event ∷ [])

-- Every JSON text of this instance has 196 letters and a euro sign.
abbrev wide : Http
wide = http_of (replicate 196 97 ++ 0x20ac ∷ [])

abbrev signing_in : Headers
signing_in name = if list_eq name (codes "cookie") then some (codes "fips_session=k") else none

abbrev pub reader : Platform
reader = platform_of (λ call. none) (λ raw. raw) (λ ev. some (codes "{}")) (λ line. some event)

abbrev session_row : SessionRow
session_row = record {
  id = padded 32 (codes "k");
  user_id = uuid 1;
  csrf_token = replicate 32 0;
  ip = [];
  user_agent = [];
  expires_at = 1000000;
  last_seen_at = 0;
}

abbrev visited : World
visited = record world {
  db = record db { sessions = session_row ∷ [] };
  audit_file = some (codes "x\n");
}

abbrev known : User
known = record {
  id = uuid 1;
  email = codes "a@b";
  role = admin;
  created_at = 0;
  disabled_at = none;
  totp_secret_wrapped = none;
  password_hash = user_row.password_hash;
  password_salt = user_row.password_salt;
  password_iters = user_row.password_iters;
}

abbrev looked_up : World
looked_up = record visited { calls = 4 }

looks_up : current_user ⦃os = reader⦄ signing_in visited ≡ (ok (some known), looked_up)
unfolding current_user Http.respond Cookies.cookie_value list_eq Text.trim Auth.find_authenticated
    Service.spawn_blocking Service.with_store ◌>>=◌ Sessions.find_valid Crypto.sha256 Cng.sha256
    World.now_utc World.execute Queries.select Table.find Text.as_bytes Cng.check Table.update
    Decode.bytes_of Decode.optional Decode.row_to_session Decode.row_to_user Records.parse_role
    Sessions.has_id Sessions.live Sessions.touch_statement Users.find_by_id Users.has_id
    Text.encode_char Text.is_whitespace Text.trim_start Time.dt_to_millis Time.millis_to_dt
    Cookies.cookie_in Extract.resolve_user Strings.split Strings.split_once Strings.split_parts
    World.execute_with
looks_up = refl

abbrev view : AuditView
view = record {
  events = event ∷ [];
  verification = record { valid = false; break_at = some 0; events_checked = 0 };
  total_on_disk = 1;
}

abbrev read_log : World
read_log = record visited { calls = 5 }

lists : list_audit_events ⦃os = reader⦄ (filter_of []) 500 looked_up ≡ (ok view, read_log)
unfolding list_audit_events Service.spawn_blocking Service.with_audit ◌>>=◌ Audit.read_all World.io
    Lines.lines Text.trim Audit.verify_chain list_eq filter_of
lists = refl

long_text : len (joined ⦃http = wide⦄ event) ≡ 399
unfolding len utf8_len combined list_eq
long_text = refl

short_before : len (replicate 196 97) ≡ 196
unfolding len utf8_len
short_before = refl

wide_sign : utf8_len 0x20ac ≡ 3
unfolding utf8_len
wide_sign = refl

joined_text :
    joined ⦃http = wide⦄ event
    ≡ replicate 196 97 ++ 0x20ac ∷ (32 ∷ (replicate 196 97 ++ 0x20ac ∷ []))
unfolding combined list_eq
joined_text = refl

audit_get-panics_example :
    audit_get ⦃os = reader⦄ ⦃http = wide⦄ signing_in [] visited ≡ (panic, read_log)
audit_get-panics_example =
    audit_get-panics ⦃os = reader⦄ ⦃http = wide⦄ signing_in [] visited [] [] event
      (replicate 196 97) 0x20ac (32 ∷ (replicate 196 97 ++ 0x20ac ∷ [])) looks_up lists refl
      joined_text (omega (arith, long_text)) (omega (arith, short_before))
      (omega (arith, short_before, wide_sign))
