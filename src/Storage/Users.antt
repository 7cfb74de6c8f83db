-- ===== src/Storage/Users.antt =====
-- crates/storage/src/users.rs: admins and vendor accounts.
use fips_dropbox.Prelude.{
  ℕ, zero, Bool, not, ◌&&◌, ◌||◌, Option, none, some, [], ◌∷◌, ◌++◌, any, list_eq, replicate,
  is_some, if◌then◌else◌,
}
use fips_dropbox.Prelude.Table
use fips_dropbox.Text.{Text, Bytes}
use fips_dropbox.Time.{dt_to_millis}
use fips_dropbox.Result.{ok, err, convert}
use fips_dropbox.Effect.{M, pure, lift, within, maybe, ◌>>=◌, ◌>>◌}
use fips_dropbox.Errors.{constraint_violation, StorageError, crypto}
use fips_dropbox.Platform.{Platform}
use fips_dropbox.World.{World, Statement, execute, now_utc, now_v7}
use fips_dropbox.Crypto
use fips_dropbox.Crypto.{pbkdf2_min_iterations, derive_key_from_password}
use fips_dropbox.Crypto.Compare.{constant_time_eq}
use fips_dropbox.Storage.Rows.{UserRow}
use fips_dropbox.Storage.Records.{User, UserRole, as_str}
use fips_dropbox.Storage.Decode.{row_to_user}
use fips_dropbox.Storage.Queries.{select, run, map_conflict, affected_some}

abbrev pub pbkdf2_iterations : ℕ
pbkdf2_iterations = pbkdf2_min_iterations

abbrev pub salt_len : ℕ
salt_len = 16

unfoldable pub has_id : Bytes → UserRow → Bool
has_id id u = list_eq u.id id

unfoldable pub has_email : Text → UserRow → Bool
has_email email u = list_eq u.email email

-- PRIMARY KEY and UNIQUE of the schema; the role is one of the two that CHECK allows.
unfoldable pub insert_user : UserRow → Statement Unit
unfolding has_id has_email
insert_user row db =
    if any (λ u. has_id row.id u || has_email row.email u) db.users
    then err constraint_violation
    else ok (tt, record db { users = db.users ++ row ∷ [] })

unfoldable pub set_password : Bytes → Bytes → UserRow → UserRow
set_password hash salt u = record u {
  password_hash = hash;
  password_salt = salt;
  password_iters = pbkdf2_iterations;
}

unfoldable pub rotate_statement : Bytes → Bytes → Bytes → Statement ℕ
unfolding has_id set_password
rotate_statement id hash salt db = ok (
  Table.count (has_id id) db.users,
  record db { users = Table.update (has_id id) (set_password hash salt) db.users },
)

unfoldable pub is_enabled_with : Bytes → UserRow → Bool
unfolding has_id
is_enabled_with id u = has_id id u && not (is_some u.disabled_at)

unfoldable pub set_disabled : Option ℕ → UserRow → UserRow
set_disabled at u = record u { disabled_at = at }

unfoldable pub disable_statement : Bytes → ℕ → Statement ℕ
unfolding is_enabled_with set_disabled
disable_statement id now db = ok (
  Table.count (is_enabled_with id) db.users,
  record db { users = Table.update (is_enabled_with id) (set_disabled (some now)) db.users },
)

unfoldable pub enable_statement : Bytes → Statement ℕ
unfolding has_id set_disabled
enable_statement id db = ok (
  Table.count (has_id id) db.users,
  record db { users = Table.update (has_id id) (set_disabled none) db.users },
)

module _ ⦃os : Platform⦄ where
  unfoldable pub create : Text → UserRole → Text → M World StorageError User
  create email role password = do
    id ← now_v7
    salt ← within crypto (Crypto.bytes salt_len)
    hash ← lift (convert crypto (derive_key_from_password password salt pbkdf2_iterations))
    now ← now_utc
    within map_conflict (
        execute (
          insert_user (record {
            id = id;
            email = email;
            role = as_str role;
            password_hash = hash;
            password_salt = salt;
            password_iters = pbkdf2_iterations;
            totp_secret_wrapped = none;
            created_at = dt_to_millis now;
            disabled_at = none;
          })))
    pure (record {
      id = id;
      email = email;
      role = role;
      created_at = now;
      disabled_at = none;
      totp_secret_wrapped = none;
      password_hash = hash;
      password_salt = salt;
      password_iters = pbkdf2_iterations;
    })

  unfoldable pub find_by_email : Text → M World StorageError (Option User)
  find_by_email email = run (select (λ db. Table.find (has_email email) db.users) row_to_user)

  unfoldable pub find_by_id : Bytes → M World StorageError (Option User)
  find_by_id id = run (select (λ db. Table.find (has_id id) db.users) row_to_user)

  -- The part of `verify_password` after an account is found.
  unfoldable pub check_password : Text → User → M World StorageError (Option User)
  check_password password user = if is_some user.disabled_at then pure none else do
    candidate ←
        lift (
          convert crypto (derive_key_from_password password user.password_salt user.password_iters))
    pure (if constant_time_eq candidate user.password_hash then some user else none)

  unfoldable pub verify_password : Text → Text → M World StorageError (Option User)
  unfolding find_by_email check_password
  verify_password email password = do
    found ← find_by_email email
    maybe found
        (do
          unused ← lift (
              convert crypto
                (derive_key_from_password password (replicate salt_len zero) pbkdf2_iterations))
          pure none)
        (check_password password)

  unfoldable pub rotate_password : Bytes → Text → M World StorageError Unit
  unfolding rotate_statement affected_some
  rotate_password id new_password = do
    salt ← within crypto (Crypto.bytes salt_len)
    hash ← lift (convert crypto (derive_key_from_password new_password salt pbkdf2_iterations))
    affected ← run (rotate_statement id hash salt)
    affected_some affected

  unfoldable pub disable : Bytes → M World StorageError Unit
  unfolding disable_statement affected_some
  disable id = do
    now ← now_utc
    affected ← run (disable_statement id (dt_to_millis now))
    affected_some affected

  unfoldable pub enable : Bytes → M World StorageError Unit
  unfolding enable_statement affected_some
  enable id = do affected ← run (enable_statement id); affected_some affected
