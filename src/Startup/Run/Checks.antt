-- ===== src/Startup/Run/Checks.antt =====
-- What a service that starts has checked.
use fips_dropbox.Prelude.{◌≡◌, true, false, Option, length, is_some}
use fips_dropbox.Result.{ok}
use fips_dropbox.Effect.Gives.{Gives}
use fips_dropbox.Platform.{Platform}
use fips_dropbox.World
use fips_dropbox.World.{World}
use fips_dropbox.Crypto.{assert_fips_mode}
use fips_dropbox.Crypto.Kek
use fips_dropbox.Notifier.{SmtpSender, Lettre}
use fips_dropbox.Service.{App}
use fips_dropbox.Startup.{Config, Host, config_path, load_config}
use fips_dropbox.Startup.Run.{sender_of}

module _ ⦃os : Platform⦄ ⦃host : Host⦄ ⦃lettre : Lettre⦄ where
  -- What the service that starts has.
  pub record Started (app : App) (sender : Option SmtpSender) : Type 0 where
    pub fips :
        host.debug_assertions ≡ false → (app.fips_mode_enabled ≡ true) × (assert_fips_mode ≡ ok tt)
    pub kek : length app.kek ≡ 32
    pub email : app.email_configured ≡ is_some sender
    pub settings :
        (cfg : Config) × (load_config config_path ≡ ok cfg)
        × (sender_of cfg.smtp ≡ ok sender)
        × (app.public_base_url ≡ cfg.public_base_url)
