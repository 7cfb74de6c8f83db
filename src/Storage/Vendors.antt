-- ===== src/Storage/Vendors.antt =====
-- crates/storage/src/vendors.rs: the outside parties that files are sent to.
use fips_dropbox.Prelude.{
  ℕ, Bool, true, false, not, ◌&&◌, ◌||◌, Option, none, some, List, [], ◌∷◌, ◌++◌, any, list_eq,
  is_some, filter_by, ltb, ◌==◌, if◌then◌else◌,
}
use fips_dropbox.Prelude.Table
use fips_dropbox.Text.{Text, Bytes, as_bytes}
use fips_dropbox.Time.{dt_to_millis}
use fips_dropbox.Result.{ok, err}
use fips_dropbox.Effect.{M, pure, ◌>>=◌, ◌>>◌}
use fips_dropbox.Errors.{constraint_violation, StorageError}
use fips_dropbox.Platform.{Platform}
use fips_dropbox.World.{World, Statement, now_utc, now_v7}
use fips_dropbox.Storage.Rows.{VendorRow}
use fips_dropbox.Storage.Records.{Vendor}
use fips_dropbox.Storage.Decode.{row_to_vendor}
use fips_dropbox.Storage.Queries.{select, select_all, run, affected_some}

unfoldable pub has_id : Bytes → VendorRow → Bool
has_id id v = list_eq v.id id

unfoldable pub is_enabled : VendorRow → Bool
is_enabled v = not (is_some v.disabled_at)

unfoldable pub insert_vendor : VendorRow → Statement Unit
unfolding has_id
insert_vendor row db =
    if any (has_id row.id) db.vendors || not (any (λ u. list_eq u.id row.created_by) db.users)
    then err constraint_violation
    else ok (tt, record db { vendors = db.vendors ++ row ∷ [] })

unfoldable pub disable_statement : Bytes → ℕ → Statement ℕ
unfolding has_id is_enabled
disable_statement id now db =
    let hit = λ (v : VendorRow). has_id id v && is_enabled v in
    ok (
      Table.count hit db.vendors,
      record db {
        vendors = Table.update hit (λ v. record v { disabled_at = some now }) db.vendors;
      },
    )

-- The default collation compares the bytes of the UTF-8 form.
bytes_before : Bytes → Bytes → Bool
bytes_before [] _ = true
bytes_before (x ∷ xs) [] = false
bytes_before (x ∷ xs) (y ∷ ys) = ltb x y || (x == y && bytes_before xs ys)

insert_by_name : VendorRow → List VendorRow → List VendorRow
unfolding bytes_before
insert_by_name v [] = v ∷ []
insert_by_name v (u ∷ rest) =
    let later = u ∷ insert_by_name v rest in
    if bytes_before (as_bytes v.display_name) (as_bytes u.display_name) then v ∷ u ∷ rest else later

unfoldable pub by_name : List VendorRow → List VendorRow
unfolding insert_by_name
by_name [] = []
by_name (v ∷ rest) = insert_by_name v (by_name rest)

module _ ⦃os : Platform⦄ where
  unfoldable pub create : Text → Text → Option Text → Bytes → M World StorageError Vendor
  create display_name email phone created_by = do
    id ← now_v7
    now ← now_utc
    run (
        insert_vendor (record {
          id = id;
          display_name = display_name;
          primary_email = email;
          primary_phone = phone;
          primary_user_id = none;
          created_by = created_by;
          created_at = dt_to_millis now;
          disabled_at = none;
        }))
    pure (record {
      id = id;
      display_name = display_name;
      primary_email = email;
      primary_phone = phone;
      primary_user_id = none;
      created_by = created_by;
      created_at = now;
      disabled_at = none;
    })

  unfoldable pub find_by_id : Bytes → M World StorageError (Option Vendor)
  find_by_id id = run (select (λ db. Table.find (has_id id) db.vendors) row_to_vendor)

  unfoldable pub find_by_email : Text → M World StorageError (Option Vendor)
  find_by_email email = run (
      select (λ db. Table.find (λ v. list_eq v.primary_email email && is_enabled v) db.vendors)
        row_to_vendor)

  unfoldable pub list_active : M World StorageError (List Vendor)
  list_active = run (select_all (λ db. by_name (filter_by is_enabled db.vendors)) row_to_vendor)

  unfoldable pub disable : Bytes → M World StorageError Unit
  unfolding disable_statement affected_some
  disable id = do
    now ← now_utc
    affected ← run (disable_statement id (dt_to_millis now))
    affected_some affected
