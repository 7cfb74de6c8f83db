-- ===== src/World/Runs.antt =====
-- The calls that leave the program, where they succeed.
use fips_dropbox.Prelude.{ℕ, ◌≡◌, none, arith}
use fips_dropbox.Text.{Bytes}
use fips_dropbox.Result.{ok}
use fips_dropbox.Effect.Runs.{Runs}
use fips_dropbox.Platform.{Platform}
use fips_dropbox.Storage.Rows.{Db}
use fips_dropbox.World.{World, Statement, called, execute, execute_with, io, io_write}

-- No call of the file system or of the engine fails.
pub record IsHealthy (os : Platform) : Type 0 where
  pub io : (call : ℕ) → os.io_fault call ≡ none
  pub sqlite : (call : ℕ) → os.sqlite_fault call ≡ none

module _ ⦃os : Platform⦄ {w : World} where
  pub io-Runs :
      {E : Type 0} (wrap : ℕ → E) → os.io_fault w.calls ≡ none → Runs (io wrap) w tt (called w)
  unfolding io
  io-Runs wrap sound = record { at = ground (arith, sound) }

  pub io_write-Runs :
      {E : Type 0} (wrap : ℕ → E) (store : Bytes → World → World) (bytes : Bytes)
      → os.io_fault w.calls ≡ none
      → Runs (io_write wrap store bytes) w tt (store bytes (called w))
  unfolding io_write
  io_write-Runs wrap store bytes sound = record { at = ground (arith, sound) }

  pub execute-Runs :
      {A : Type 0} (statement : Statement A) {a : A} {db : Db}
      → os.sqlite_fault w.calls ≡ none
      → statement w.db ≡ ok (a, db)
      → Runs (execute statement) w a (record (called w) { db = db })
  unfolding execute execute_with
  execute-Runs statement sound done = record { at = ground (arith, sound, done) }
