-- ===== src/Startup/Init/Once.antt =====
-- `init` runs once.
use fips_dropbox.Prelude.{
  ℕ, ◌≡◌, ◌≢◌, ap, Bool, true, false, Option, some, List, arith, is_some, if◌then◌else◌,
}
use fips_dropbox.Text.{Text, Bytes}
use fips_dropbox.Result.{Result, ok, err, panic}
use fips_dropbox.Effect.{M, gets, fail, ◌>>=◌, continue}
use fips_dropbox.Effect.Keeps.{Keeps, keeps_rules}
use fips_dropbox.Platform.{Platform}
use fips_dropbox.World
use fips_dropbox.World.{World}
use fips_dropbox.Storage.Rows.{Db}
use fips_dropbox.Storage.Records.{User}
use fips_dropbox.Startup.{AppError, kek_exists, Config, Host}
use fips_dropbox.Startup.Init.{ensure_parent, ensure_dirs, init_with, init_run}

-- The KEK file and the database are these.
pub record IsSetUp (file : Bytes) (rows : Db) (w : World) : Type 0 where
  pub kek_file : w.kek_file ≡ some file
  pub db : w.db ≡ rows

-- The action never succeeds where the invariant holds, and keeps it.
record Refuses {S E A : Type 0} (P : S → Type 0) (action : M S E A) : Type 0 where
  pub at : (s : S) → P s → ((a : A) → (action s).0 ≢ ok a) × P (action s).1

module _ {S E A B : Type 0} {P : S → Type 0} where
  after_continue :
      (rest : A → M S E B) (each : (a : A) → Refuses P (rest a)) (r : Result E A) (s : S)
      → P s
      → ((b : B) → (continue r rest s).0 ≢ ok b) × P (continue r rest s).1
  after_continue rest each panic s held = (λ b e. cc, held)
  after_continue rest each (err e) s held = (λ b e. cc, held)
  after_continue rest each (ok a) s held = (each a).at s held

  Refuses-bind :
      (first : M S E A) (rest : A → M S E B)
      → Keeps P first
      → ((a : A) → Refuses P (rest a))
      → Refuses P (first >>= rest)
  unfolding ◌>>=◌
  Refuses-bind first rest once each = record {
    at = λ s held. after_continue rest each (first s).0 (first s).1 (once.at s held);
  }

module _ ⦃os : Platform⦄ {file : Bytes} {rows : Db} where
  io-Keeps : {E : Type 0} (wrap : ℕ → E) → Keeps (IsSetUp file rows) (World.io wrap)
  unfolding World.io
  io-Keeps wrap = record {
    at = λ w h. record { kek_file = ground (arith, h.kek_file); db = ground (arith, h.db) };
  }

module _ ⦃os : Platform⦄ ⦃host : Host⦄ {file : Bytes} {rows : Db} where
  ensure_dirs-Keeps : (cfg : Config) → Keeps (IsSetUp file rows) (ensure_dirs cfg)
  unfolding ensure_dirs ensure_parent
  ensure_dirs-Keeps cfg = search (keeps_rules, io-Keeps) depth 10

  Refuses-old_kek :
      (cfg : Config) (rest : M World AppError User)
      → Refuses (IsSetUp file rows) (
          gets (λ w. is_some w.kek_file) >>= λ exists.
          if exists then fail (kek_exists cfg.kek_path) else rest)
  unfolding ◌>>=◌
  Refuses-old_kek cfg rest = record {
    at = λ w h. flagged w h (is_some w.kek_file) (ap is_some h.kek_file);
  }
    where
      flagged :
          (w : World)
          → IsSetUp file rows w
          → (exists : Bool) → exists ≡ true
          → ((user : User)
              → ((if exists then fail (kek_exists cfg.kek_path) else rest) w).0 ≢ ok user)
            × IsSetUp file rows ((if exists then fail (kek_exists cfg.kek_path) else rest) w).1
      flagged w h true e = (λ user found. cc, h)
      flagged w h false e = cc

  init_with-Refuses :
      (email : Text) (password : Option Text)
      → Refuses (IsSetUp file rows) (init_with email password)
  unfolding init_with
  init_with-Refuses email password =
      search (keeps_rules, Refuses-bind, ensure_dirs-Keeps, Refuses-old_kek) depth 10

  init_run-Refuses : (args : List Text) → Refuses (IsSetUp file rows) (init_run args)
  unfolding init_run
  init_run-Refuses args = search (keeps_rules, Refuses-bind, init_with-Refuses) depth 10

  -- Where there is a KEK file, `init` fails, whatever its arguments are, and leaves the file and the
  -- database as they were.
  pub init_run-once :
      (args : List Text) (w : World)
      → w.kek_file ≡ some file
      → w.db ≡ rows
      → ((user : User) → (init_run args w).0 ≢ ok user) × IsSetUp file rows (init_run args w).1
  init_run-once args w held stored =
      (init_run-Refuses args).at w (record { kek_file = held; db = stored })
