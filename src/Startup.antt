-- ===== src/Startup.antt =====
-- crates/app: the binary. Its arguments, its settings, `init` and `run`.
pub mod Args
pub mod Init
pub mod Run
use fips_dropbox.Prelude.{ℕ, Bool, Option, none, some, codes, if◌then◌else◌}
use fips_dropbox.Text.{Text}
use fips_dropbox.Result
use fips_dropbox.Result.{Result, ok, err, convert}
use fips_dropbox.Errors.{CryptoError, StorageError, AuditError}
use fips_dropbox.Notifier.{SmtpConfig}

-- What `anyhow::Error` carries: a message, one that names the path of the KEK, or an error of a crate or of a call outside.
pub data AppError : Type 0 where
  message : Text → AppError
  kek_exists kek_missing : (path : Text) → AppError
  crypto : CryptoError → AppError
  storage : StorageError → AppError
  audit : AuditError → AppError
  io : ℕ → AppError
  toml : Text → AppError

pub record Config : Type 0 where
  pub bind_address : Text
  pub public_base_url : Text
  pub db_path : Text
  pub blobs_dir : Text
  pub audit_log_path : Text
  pub kek_path : Text
  pub smtp : Option SmtpConfig

abbrev pub default_config : Config
default_config = record {
  bind_address = codes "127.0.0.1:8080";
  public_base_url = codes "http://localhost:8080";
  db_path = codes "C:\\ProgramData\\FipsDropbox\\app.db";
  blobs_dir = codes "C:\\ProgramData\\FipsDropbox\\blobs";
  audit_log_path = codes "C:\\ProgramData\\FipsDropbox\\logs\\audit.jsonl";
  kek_path = codes "C:\\ProgramData\\FipsDropbox\\kek.bin";
  smtp = none;
}

-- What the process finds: the environment, the file of settings, the crate toml, the terminal, the
-- parents of paths, and how it was built.
pub record Host : Type 0 where
  pub cuishare_config : Option Text
  pub exists : Text → Bool
  pub read_to_string : Text → Result ℕ Text
  pub from_toml : Text → Result Text Config
  pub parent : Text → Option Text
  -- The answers to the two prompts.
  pub first_prompt : Result ℕ Text
  pub second_prompt : Result ℕ Text
  pub debug_assertions : Bool

abbrev pub failing : {A E : Type 0} → (E → AppError) → Result E A → Result AppError A
failing wrap = convert wrap

module _ ⦃host : Host⦄ where
  abbrev or_text : Option Text → Text → Text
  or_text none text = text
  or_text (some path) text = path

  unfoldable pub config_path : Text
  config_path = or_text host.cuishare_config (codes "C:\\ProgramData\\FipsDropbox\\config.toml")

  -- Without a file the settings are the default ones.
  unfoldable pub load_config : Text → Result AppError Config
  load_config path =
      if host.exists path
      then Result.◌>>=◌ (failing io (host.read_to_string path))
          (λ text. failing toml (host.from_toml text))
      else ok default_config
