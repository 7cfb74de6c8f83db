-- ===== src/World.antt =====
-- The state that a running service shares: the SQLite database behind the store's mutex, the blob
-- directory, the audit log behind its own mutex, the KEK
-- file, and the messages handed to the senders. `calls` numbers the calls that
-- leave the program, so that each may have its own outcome.
pub mod Runs
pub mod Blobs
use fips_dropbox.Prelude.{ℕ, suc, Bool, Option, none, some, List, ◌∷◌, list_eq, take}
use fips_dropbox.Prelude.Table.{find, delete}
use fips_dropbox.Text.{Text, Bytes}
use fips_dropbox.Time.{Instant}
use fips_dropbox.Result.{Result, ok, err, panic}
use fips_dropbox.Effect.{M}
use fips_dropbox.Errors.{SqliteError, failure, CngError}
use fips_dropbox.Platform.{Platform}
use fips_dropbox.Event.{Log}
use fips_dropbox.Storage.Rows.{Db}
use fips_dropbox.Cng

-- What is handed to a sender; nothing but a log line depends on whether it arrives.
pub data Message : Type 0 where
  email : Text → Text → Text → Message
  sms : Text → Text → Message

pub record World : Type 0 where
  pub calls : ℕ
  pub db : Db
  pub blobs : List (Text × Bytes)
  pub audit_file : Option Text
  pub log : Log
  pub kek_file : Option Bytes
  pub store_poisoned : Bool
  pub audit_poisoned : Bool
  pub outbox : List Message

-- A statement fails with no effect, or yields a value and the tables after it.
abbrev pub Statement : Type 0 → Type 0
Statement A = Db → Result SqliteError (A × Db)

abbrev pub called : World → World
called w = record w { calls = suc w.calls }

abbrev pub commit :
    {A : Type 0} → Result SqliteError (A × Db) → World → Result SqliteError A × World
commit (ok (a, db)) w = (ok a, record w { db = db })
commit (err e) w = (err e, w)
commit panic w = (panic, w)

-- A statement, by the fault that the engine reports of its own.
unfoldable pub execute_with : {A : Type 0} → Option ℕ → Statement A → M World SqliteError A
execute_with (some code) statement w = (err (failure code), called w)
execute_with none statement w = commit (statement w.db) (called w)

module _ ⦃os : Platform⦄ where
  -- `Connection::execute` and `query_row`
  unfoldable pub execute : {A : Type 0} → Statement A → M World SqliteError A
  unfolding execute_with
  execute statement w = execute_with (os.sqlite_fault w.calls) statement w

  unfoldable pub now_utc : {E : Type 0} → M World E Instant
  now_utc w = (ok (os.now_utc w.calls), called w)

  unfoldable pub now_v7 : {E : Type 0} → M World E Bytes
  now_v7 w = (ok (os.now_v7 w.calls), called w)

  unfoldable pub random_bytes : ℕ → M World CngError Bytes
  random_bytes n w = (Cng.random_bytes w.calls n, called w)

  -- A file operation that only succeeds or fails.
  unfoldable pub io : {E : Type 0} → (ℕ → E) → M World E Unit
  io wrap w = elim (os.io_fault w.calls) [
    | some e ↦ (err (wrap e), called w)
    | none ↦ (ok tt, called w)
  ]

  -- `std::fs::write`: a failed write leaves the first bytes.
  unfoldable pub io_write :
      {E : Type 0} → (ℕ → E) → (Bytes → World → World) → Bytes → M World E Unit
  io_write wrap store bytes w = elim (os.io_fault w.calls) [
    | some n ↦ (err (wrap n), store (take n bytes) (called w))
    | none ↦ (ok tt, store bytes (called w))
  ]

-- The blob directory, by relative path.
unfoldable pub write_blob : Text → Bytes → World → World
write_blob path bytes w = record w {
  blobs = (path, bytes) ∷ delete (λ f. list_eq f.0 path) w.blobs;
}

unfoldable pub remove_blob : Text → World → World
remove_blob path w = record w { blobs = delete (λ f. list_eq f.0 path) w.blobs }

unfoldable pub read_blob : Text → World → Option Bytes
read_blob path w = elim (find (λ f. list_eq f.0 path) w.blobs) [ none ↦ none | some f ↦ some f.1 ]
