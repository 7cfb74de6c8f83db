-- ===== src/Startup/Run/Starting.antt =====
-- A service that is set up starts.
use fips_dropbox.Prelude.{
  ℕ, ◌≡◌, refl, ap, ◌∙◌, Bool, true, false, Option, none, some, arith, length, is_some,
}
use fips_dropbox.Text.{Text, Bytes}
use fips_dropbox.Result.{Result, ok}
use fips_dropbox.Effect.{pure, maybe, ◌>>=◌, lift}
use fips_dropbox.Effect.Succeeds.{
  Succeeds, Succeeds-bind, Succeeds-pure, Succeeds-lift, Succeeds-gets, Succeeds-modify,
  Succeeds-unless, Succeeds-within,
}
use fips_dropbox.Platform.{Platform}
use fips_dropbox.World
use fips_dropbox.World.{World}
use fips_dropbox.World.Runs.{IsHealthy}
use fips_dropbox.Cng.{dpapi_unprotect_machine}
use fips_dropbox.Crypto.{assert_fips_mode}
use fips_dropbox.Crypto.Kek
use fips_dropbox.Crypto.Kek.{kek_dpapi_entropy}
use fips_dropbox.Errors.{AuditError, StorageError}
use fips_dropbox.Audit.{genesis_hash, last_line, hash_of_last, open_log, load_last_hash}
use fips_dropbox.Audit.Lines.{lines}
use fips_dropbox.Notifier.{SmtpSender, Lettre}
use fips_dropbox.Service.{App}
use fips_dropbox.Storage.Open.{open_store, initial_sql}
use fips_dropbox.Startup.{Config, Host, config_path, load_config, crypto, storage, audit}
use fips_dropbox.Startup.Run.{fips_mode_checked, sender_of, run_service}

module _ ⦃os : Platform⦄ where
  -- The hash that the log starts from, by its file.
  abbrev pub hash_of_file : Option Text → Result AuditError Text
  hash_of_file none = ok genesis_hash
  hash_of_file (some contents) = hash_of_last (last_line (lines contents))

  -- The KEK file, and a log whose last line can be read, if it has one.
  pub record IsReady (file : Bytes) (hash : Text) (w : World) : Type 0 where
    pub kek_file : w.kek_file ≡ some file
    pub audit_file : hash_of_file w.audit_file ≡ ok hash

module _ ⦃os : Platform⦄ (healthy : IsHealthy os) {file : Bytes} {hash : Text} where
  io-Succeeds :
      {E : Type 0} (wrap : ℕ → E)
      → Succeeds (IsReady file hash) (λ (u : Unit). Unit) (World.io wrap)
  unfolding World.io
  io-Succeeds wrap = record {
    at = λ w h. (
      tt,
      ground (arith, healthy.io w.calls),
      tt,
      record {
        kek_file = ground (arith, healthy.io w.calls, h.kek_file);
        audit_file = ground (arith, healthy.io w.calls, h.audit_file);
      },
    );
  }

  load-Succeeds :
      (kek : Bytes)
      → dpapi_unprotect_machine file kek_dpapi_entropy ≡ ok kek
      → length kek ≡ 32
      → Succeeds (IsReady file hash) (λ k. k ≡ kek) Kek.load
  unfolding Kek.load ◌>>=◌ World.io
  load-Succeeds kek opened long = record {
    at = λ w h. (
      kek,
      ground (arith, healthy.io w.calls, h.kek_file),
      refl,
      record {
        kek_file = ground (arith, healthy.io w.calls, h.kek_file);
        audit_file = ground (arith, healthy.io w.calls, h.kek_file, h.audit_file);
      },
    );
  }

  execute-Succeeds :
      Succeeds (IsReady file hash) (λ (u : Unit). Unit) (World.execute (λ db. ok (tt, db)))
  unfolding World.execute
  execute-Succeeds = record {
    at = λ w h. (
      tt,
      ground (arith, healthy.sqlite w.calls),
      tt,
      record {
        kek_file = ground (arith, healthy.sqlite w.calls, h.kek_file);
        audit_file = ground (arith, healthy.sqlite w.calls, h.audit_file);
      },
    );
  }

  parent-Succeeds :
      (parent : Option Text)
      → Succeeds
          (IsReady file hash)
          (λ (u : Unit). Unit)
          (maybe parent (pure tt) (λ dir. World.io StorageError.io))
  parent-Succeeds none = Succeeds-pure tt tt
  parent-Succeeds (some dir) = io-Succeeds StorageError.io

  open_store-Succeeds :
      (parent : Option Text) → Succeeds (IsReady file hash) (λ (u : Unit). Unit) (open_store parent)
  unfolding open_store initial_sql
  open_store-Succeeds parent = Succeeds-bind _ _ (io-Succeeds StorageError.io) λ u i.
      Succeeds-bind _ _ (parent-Succeeds parent) λ v j.
        Succeeds-bind _ _ (Succeeds-within StorageError.sqlite _ execute-Succeeds)
          λ x k. Succeeds-within StorageError.sqlite _ execute-Succeeds

  read_hash-Succeeds :
      (log_file : Option Text)
      → hash_of_file log_file ≡ ok hash
      → Succeeds
          (IsReady file hash)
          (λ h. h ≡ hash)
          (maybe log_file (pure genesis_hash) (λ contents.
            World.io AuditError.io >>= λ u. lift (hash_of_last (last_line (lines contents)))))
  read_hash-Succeeds none e = Succeeds-pure genesis_hash (ground arith)
  read_hash-Succeeds (some contents) e =
      Succeeds-bind _ _ (io-Succeeds AuditError.io) λ u i. Succeeds-lift _ hash e refl

  open_log-Succeeds : Succeeds (IsReady file hash) (λ (u : Unit). Unit) open_log
  unfolding open_log load_last_hash
  open_log-Succeeds = Succeeds-bind _ _ (io-Succeeds AuditError.io) λ u i.
      Succeeds-bind _ _
        (Succeeds-bind _ _ (Succeeds-gets (λ w. w.audit_file) (λ w h. h.audit_file))
          read_hash-Succeeds)
        λ prev_hash k.
          Succeeds-modify _ λ w h. record { kek_file = h.kek_file; audit_file = h.audit_file }

module _ ⦃os : Platform⦄ ⦃host : Host⦄ ⦃lettre : Lettre⦄ (healthy : IsHealthy os) where
  fips_mode_checked-ok : assert_fips_mode ≡ ok tt → fips_mode_checked ≡ ok true
  unfolding fips_mode_checked
  fips_mode_checked-ok on = rw on refl

  -- The `App` of the settings and the key.
  abbrev pub app_of : Config → Bytes → Option SmtpSender → App
  app_of cfg kek sender = record {
    kek = kek;
    public_base_url = cfg.public_base_url;
    fips_mode_enabled = true;
    email_configured = is_some sender;
    sms_configured = false;
  }

  same_app :
      {kek : Bytes} {cfg : Config} {sender : Option SmtpSender} (enabled : Bool) (settings : Config)
      (k : Bytes) (s : Option SmtpSender)
      → enabled ≡ true
      → settings ≡ cfg
      → k ≡ kek
      → s ≡ sender
      → ◌≡◌ {A = App × Option SmtpSender}
          (
            record {
              kek = k;
              public_base_url = settings.public_base_url;
              fips_mode_enabled = enabled;
              email_configured = is_some s;
              sms_configured = false;
            },
            s,
          )
          (app_of cfg kek sender, sender)
  same_app enabled settings k s e1 e2 e4 e5 = cc

  run_service-Succeeds :
      {file kek : Bytes} {hash : Text} {cfg : Config} {sender : Option SmtpSender}
      → assert_fips_mode ≡ ok tt
      → load_config config_path ≡ ok cfg
      → dpapi_unprotect_machine file kek_dpapi_entropy ≡ ok kek
      → length kek ≡ 32
      → sender_of cfg.smtp ≡ ok sender
      → Succeeds
          (IsReady file hash)
          (λ started. started ≡ (app_of cfg kek sender, sender))
          run_service
  unfolding run_service
  run_service-Succeeds {kek} {cfg} {sender} on loaded opened long chosen =
      Succeeds-bind {Q = λ enabled. enabled ≡ true} _ _
        (Succeeds-lift _ true (fips_mode_checked-ok on) refl)
        λ enabled e1.
          Succeeds-bind {Q = λ settings. settings ≡ cfg} _ _ (Succeeds-lift _ cfg loaded refl)
            λ settings e2.
              Succeeds-bind {Q = λ exists. exists ≡ true} _ _
                (Succeeds-gets (λ w. is_some w.kek_file) (λ w h. ap is_some h.kek_file))
                λ exists e3. Succeeds-unless exists _ _ e3 (
                  Succeeds-bind _ _
                    (Succeeds-within crypto _ (load-Succeeds healthy kek opened long))
                    λ k e4.
                      Succeeds-bind _ _
                        (Succeeds-within storage _
                          (open_store-Succeeds healthy (host.parent settings.db_path)))
                        λ u i.
                          Succeeds-bind _ _ (Succeeds-within audit _ (open_log-Succeeds healthy))
                            λ v j.
                              Succeeds-bind {Q = λ s. s ≡ sender} _ _
                                (Succeeds-lift _ sender (ap (λ c. sender_of c.smtp) e2 ∙ chosen)
                                  refl)
                                λ s e5. Succeeds-pure _ (same_app enabled settings k s e1 e2 e4 e5))

  -- Where no call of the file system or of the engine fails, the FIPS mode is on, the settings can
  -- be read, DPAPI opens the KEK file to 32 bytes, and the last line of the audit log can be read if
  -- it has one, the service starts, with that key and those settings.
  pub run_service-starts :
      {file kek : Bytes} {hash : Text} {cfg : Config} {sender : Option SmtpSender} (w : World)
      → IsReady file hash w
      → assert_fips_mode ≡ ok tt
      → load_config config_path ≡ ok cfg
      → dpapi_unprotect_machine file kek_dpapi_entropy ≡ ok kek
      → length kek ≡ 32
      → sender_of cfg.smtp ≡ ok sender
      → (run_service w).0 ≡ ok (app_of cfg kek sender, sender)
  run_service-starts w ready on loaded opened long chosen =
      let (started, answered, same, kept) =
        (run_service-Succeeds on loaded opened long chosen).at w ready in
      answered ∙ ap (λ s. ok s) same
