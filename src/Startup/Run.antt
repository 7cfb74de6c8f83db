-- ===== src/Startup/Run.antt =====
-- `cuishare run` and the choice of a subcommand: crates/app/src/main.rs.
pub mod Checks
pub mod Starting
use fips_dropbox.Prelude.{
  ℕ, Bool, true, false, not, Option, none, some, List, [], ◌∷◌, ◌++◌, codes, is_some, list_eq, drop,
  get_elem?, if◌then◌else◌,
}
use fips_dropbox.Text.{Text, Bytes}
use fips_dropbox.Result
use fips_dropbox.Result.{Result, ok, err, panic}
use fips_dropbox.Effect.{M, pure, fail, lift, gets, within, ◌>>=◌, ◌>>◌}
use fips_dropbox.Platform.{Platform}
use fips_dropbox.World.{World}
use fips_dropbox.Crypto.{assert_fips_mode}
use fips_dropbox.Crypto.Kek
use fips_dropbox.Audit.{open_log}
use fips_dropbox.Storage.Open.{open_store}
use fips_dropbox.Notifier.{SmtpConfig, SmtpSender, NotifyError, Lettre, new_sender}
use fips_dropbox.Service.{App}
use fips_dropbox.Startup.{
  AppError, message, kek_missing, crypto, storage, audit, Config, Host, config_path, load_config,
}

-- What `main` does with the arguments of the process, the first of which names it.
pub data Command : Type 0 where
  initializes : List Text → Command
  runs : Command
  prints_usage : Command
  exits : (code : ℕ) → Command

abbrev named_command : List Text → Option Text → Command
named_command args none = runs
named_command args (some name) =
    if list_eq name (codes "init")
    then initializes (drop 2 args)
    else if list_eq name (codes "run")
    then runs
    else if list_eq name (codes "-h")
    then prints_usage
    else if list_eq name (codes "--help")
    then prints_usage
    else exits 2

unfoldable pub command_of : List Text → Command
command_of args = named_command args (get_elem? args 1)

-- The sender of mails: `none` is the Null sender.
abbrev sender_or_null : Result NotifyError SmtpSender → Result AppError (Option SmtpSender)
sender_or_null (ok s) = ok (some s)
sender_or_null (err e) = ok none
sender_or_null panic = panic

module _ ⦃lettre : Lettre⦄ where
  unfoldable pub sender_of : Option SmtpConfig → Result AppError (Option SmtpSender)
  sender_of none = ok none
  sender_of (some cfg) = sender_or_null (new_sender cfg)

module _ ⦃os : Platform⦄ ⦃host : Host⦄ where
  abbrev by_fips : {E A : Type 0} → Result E Unit → Result AppError A → A → A → Result AppError A
  by_fips (ok u) refused enabled disabled = ok enabled
  by_fips (err e) refused enabled disabled = if host.debug_assertions then ok disabled else refused
  by_fips panic refused enabled disabled = panic

  -- A release build refuses to run without the FIPS mode.
  unfoldable pub fips_mode_checked : Result AppError Bool
  fips_mode_checked =
      by_fips assert_fips_mode (err (message (codes "FIPS mode is required in release builds")))
        true false

module _ ⦃os : Platform⦄ ⦃host : Host⦄ ⦃lettre : Lettre⦄ where
  -- What is built before the listener is bound: the `App`, and the sender that it holds.
  unfoldable pub run_service : M World AppError (App × Option SmtpSender)
  unfolding fips_mode_checked sender_of
  run_service = do
    fips_mode_enabled ← lift fips_mode_checked
    cfg ← lift (load_config config_path)
    exists ← gets (λ w. is_some w.kek_file)
    if not exists then fail (kek_missing cfg.kek_path) else do
      kek ← within crypto Kek.load
      within storage (open_store (host.parent cfg.db_path))
      within audit open_log
      sender ← lift (sender_of cfg.smtp)
      pure (
        record {
          kek = kek;
          public_base_url = cfg.public_base_url;
          fips_mode_enabled = fips_mode_enabled;
          email_configured = is_some sender;
          sms_configured = false;
        },
        sender,
      )
