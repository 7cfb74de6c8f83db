-- ===== src/Storage/Queries.antt =====
-- How the storage functions run their statements: `query_row(…).optional()`, `query_map`, and the
-- conversions of the errors.
use fips_dropbox.Prelude.{ℕ, Option, List, ◌==◌, if◌then◌else◌}
use fips_dropbox.Result
use fips_dropbox.Result.{Result, ok}
use fips_dropbox.Effect.{M, pure, fail, within}
use fips_dropbox.Errors.{
  SqliteError, constraint_violation, StorageError, sqlite, not_found, conflict,
}
use fips_dropbox.Platform.{Platform}
use fips_dropbox.World.{World, Statement, execute}
use fips_dropbox.Storage.Rows.{Db}
use fips_dropbox.Storage.Decode.{optional, decode_all}

module _ {R A : Type 0} where
  unfoldable pub select : (Db → Option R) → (R → Result SqliteError A) → Statement (Option A)
  unfolding optional
  select query decode db = Result.◌>>=◌ (optional decode (query db)) λ found. ok (found, db)

  unfoldable pub select_all : (Db → List R) → (R → Result SqliteError A) → Statement (List A)
  unfolding decode_all
  select_all query decode db = Result.◌>>=◌ (decode_all decode (query db)) λ found. ok (found, db)

-- `conn.execute(…)?`
abbrev pub run : {A : Type 0} ⦃os : Platform⦄ → Statement A → M World StorageError A
run statement = within sqlite (execute statement)

-- users.rs `map_conflict`
unfoldable pub map_conflict : SqliteError → StorageError
map_conflict constraint_violation = conflict
map_conflict e = sqlite e

-- `if affected == 0 { Err(NotFound) } else { Ok(()) }`
unfoldable pub affected_some : ℕ → M World StorageError Unit
affected_some n = if n == 0 then fail not_found else pure tt
