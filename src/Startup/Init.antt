-- ===== src/Startup/Init.antt =====
-- `cuishare init`: crates/app/src/init_cmd.rs.
pub mod Once
use fips_dropbox.Prelude.{ℕ, Option, none, some, List, codes, is_some, ltb, list_eq, if◌then◌else◌}
use fips_dropbox.Text.{Text, len}
use fips_dropbox.Result
use fips_dropbox.Result.{Result, ok, err, panic}
use fips_dropbox.Effect.{M, pure, fail, lift, gets, or_panic, within, maybe, ◌>>=◌, ◌>>◌}
use fips_dropbox.Platform.{Platform}
use fips_dropbox.World
use fips_dropbox.World.{World}
use fips_dropbox.Crypto.Kek
use fips_dropbox.Storage.Records.{User, admin}
use fips_dropbox.Storage.Users
use fips_dropbox.Storage.Open.{open_store}
use fips_dropbox.Startup.{
  AppError, message, kek_exists, crypto, storage, io, Config, Host, failing, config_path,
  load_config,
}
use fips_dropbox.Startup.Args.{parse_args}

module _ ⦃host : Host⦄ where
  -- The length is in bytes.
  unfoldable pub prompt_password : Result AppError Text
  prompt_password = Result.◌>>=◌ (failing io host.first_prompt) λ p1.
      if ltb (len p1) 12
      then err (message (codes "password must be at least 12 characters"))
      else Result.◌>>=◌ (failing io host.second_prompt)
          (λ p2. if list_eq p1 p2 then ok p1 else err (message (codes "passwords do not match")))

  abbrev password_or_prompt : Option Text → Result AppError Text
  password_or_prompt (some p) = ok p
  password_or_prompt none = prompt_password

module _ ⦃os : Platform⦄ ⦃host : Host⦄ where
  unfoldable pub ensure_parent : Text → M World AppError Unit
  ensure_parent path = maybe (host.parent path) (pure tt) (λ dir. World.io io)

  unfoldable pub ensure_dirs : Config → M World AppError Unit
  unfolding ensure_parent
  ensure_dirs cfg = do
    ensure_parent cfg.kek_path
    ensure_parent cfg.db_path
    ensure_parent cfg.audit_log_path
    World.io io

  -- What follows the check for an old KEK.
  unfoldable pub bootstrap : Config → Text → Option Text → M World AppError User
  unfolding prompt_password
  bootstrap cfg admin_email admin_password = do
    kek ← within crypto Kek.init
    within storage (open_store (host.parent cfg.db_path))
    password ← lift (password_or_prompt admin_password)
    within storage (Users.create admin_email admin password)

  unfoldable pub init_with : Text → Option Text → M World AppError User
  unfolding ensure_dirs bootstrap
  init_with admin_email admin_password = do
    cfg ← lift (load_config config_path)
    ensure_dirs cfg
    exists ← gets (λ w. is_some w.kek_file)
    if exists then fail (kek_exists cfg.kek_path) else bootstrap cfg admin_email admin_password

  -- `run` of the arguments; the loop over them has the fuel that it takes.
  unfoldable pub init_run : List Text → M World AppError User
  unfolding init_with
  init_run args = do
    parsed ← or_panic (parse_args args)
    flags ← lift parsed
    init_with flags.0 flags.1
