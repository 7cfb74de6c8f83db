-- ===== src/Storage/Open.antt =====
-- `Store::open` of crates/storage/src/lib.rs.
use fips_dropbox.Prelude.{Option}
use fips_dropbox.Result.{ok}
use fips_dropbox.Effect.{M, within, maybe, pure, ◌>>◌}
use fips_dropbox.Errors.{StorageError, sqlite, io}
use fips_dropbox.Platform.{Platform}
use fips_dropbox.Text.{Text}
use fips_dropbox.World
use fips_dropbox.World.{World, Statement}

-- The schema is made of `CREATE … IF NOT EXISTS`: the rows stay.
unfoldable pub initial_sql : Statement Unit
initial_sql db = ok (tt, db)

module _ ⦃os : Platform⦄ where
  -- The directory of the database is its parent, if it has one.
  unfoldable pub open_store : Option Text → M World StorageError Unit
  unfolding initial_sql
  open_store parent = do
    World.io io
    maybe parent (pure tt) (λ dir. World.io io)
    within sqlite (World.execute (λ db. ok (tt, db)))
    within sqlite (World.execute initial_sql)
