-- ===== src/Tests/Starting.antt =====
-- The arguments, the set-up and the start of the service, and its sender of mails.
use fips_dropbox.Prelude.{
  Option, ◌≡◌, ◌≢◌, ◌↔◌, refl, true, false, List, [], ◌∷◌, some, none, codes, replicate,
}
use fips_dropbox.Text.{Text}
use fips_dropbox.Result.{Result, ok, err, panic}
use fips_dropbox.World
use fips_dropbox.World.{World}
use fips_dropbox.Cng
use fips_dropbox.Crypto
use fips_dropbox.Crypto.Kek
use fips_dropbox.Audit
use fips_dropbox.Storage.Open
use fips_dropbox.Startup
use fips_dropbox.Service.{App}
use fips_dropbox.Storage.Records.{User}
use fips_dropbox.Notifier.{Lettre}
use fips_dropbox.Startup.{AppError, Config, Host, default_config}
use fips_dropbox.Startup.Args.{Sets, no_flags, parse_args, parse_args_iff}
use fips_dropbox.Startup.Init.{init_run}
use fips_dropbox.Startup.Init.Once.{IsSetUp, init_run-once}
use fips_dropbox.Audit.{genesis_hash}
use fips_dropbox.Startup.Run.{sender_of, run_service}
use fips_dropbox.World.Runs.{IsHealthy}
use fips_dropbox.Startup.Run.Starting.{IsReady, run_service-starts}
use fips_dropbox.Tests.Sample.{os, world, db}

abbrev host : Host
host = record {
  cuishare_config = none;
  exists = λ path. false;
  read_to_string = λ path. err 2;
  from_toml = λ text. err (codes "toml");
  parent = λ path. some (codes "C:");
  first_prompt = ok (codes "correct horse");
  second_prompt = ok (codes "correct horse");
  debug_assertions = false;
}

abbrev lettre : Lettre
lettre = record {
  parse_address = λ text. ok text;
  relay_error = λ tls relay. none;
  build_error = λ m. none;
  send_error = λ t m. none;
}

abbrev arguments : List Text
arguments = codes "--admin-email" ∷ codes "a@b" ∷ []

parse_args_iff_example :
    ((r : Result AppError (Text × Option Text)) × (parse_args arguments ≡ some r) × (r ≢ panic))
    × ((parse_args arguments ≡ some (ok (codes "a@b", none)))
        ↔ Sets arguments no_flags (record { email = some (codes "a@b"); password = none }))
parse_args_iff_example = parse_args_iff arguments (codes "a@b") none

abbrev set_up : World
set_up = record world { kek_file = some (replicate 32 9) }

init_run-once_example :
    ((user : User) → (init_run ⦃os = os⦄ ⦃host = host⦄ arguments set_up).0 ≢ ok user)
    × IsSetUp (replicate 32 9) db (init_run ⦃os = os⦄ ⦃host = host⦄ arguments set_up).1
init_run-once_example =
    init_run-once ⦃os = os⦄ ⦃host = host⦄ {file = replicate 32 9} {rows = db} arguments set_up refl
      refl

abbrev started : App
started = record {
  kek = replicate 32 9;
  public_base_url = codes "http://localhost:8080";
  fips_mode_enabled = true;
  email_configured = false;
  sms_configured = false;
}

healthy : IsHealthy os
healthy = record { io = λ call. refl; sqlite = λ call. refl }

ready : IsReady ⦃os = os⦄ (replicate 32 9) genesis_hash set_up
ready = record { kek_file = refl; audit_file = refl }

in_fips_mode : Crypto.assert_fips_mode ⦃os = os⦄ ≡ ok tt
unfolding Crypto.assert_fips_mode Cng.assert_fips_mode
in_fips_mode = refl

default_settings :
    Startup.load_config ⦃host = host⦄ (Startup.config_path ⦃host = host⦄) ≡ ok default_config
unfolding Startup.load_config
default_settings = refl

opens_kek :
    Cng.dpapi_unprotect_machine ⦃os = os⦄ (replicate 32 9) Kek.kek_dpapi_entropy
    ≡ ok (replicate 32 9)
unfolding Cng.dpapi_unprotect_machine
opens_kek = refl

no_smtp : sender_of ⦃lettre = lettre⦄ none ≡ ok none
unfolding sender_of
no_smtp = refl

run_service-starts_example :
    (run_service ⦃os = os⦄ ⦃host = host⦄ ⦃lettre = lettre⦄ set_up).0 ≡ ok (started, none)
run_service-starts_example =
    run_service-starts ⦃os = os⦄ ⦃host = host⦄ ⦃lettre = lettre⦄ healthy {file = replicate 32 9}
      {kek = replicate 32 9} {hash = genesis_hash} {cfg = default_config} {sender = none} set_up
      ready in_fips_mode default_settings opens_kek refl no_smtp
