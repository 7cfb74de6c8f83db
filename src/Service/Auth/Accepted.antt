-- ===== src/Service/Auth/Accepted.antt =====
-- Who is logged in by `login`, and whose session and whose API token count.
use fips_dropbox.Prelude.{
  ◌≡◌, refl, sym, ap, ◌∙◌, Bool, true, false, Option, none, some, arith, is_some, if◌then◌else◌,
}
use fips_dropbox.Prelude.Table
use fips_dropbox.Text.{Text, Bytes}
use fips_dropbox.Result.{Result, ok, err, panic, convert, convert-eq-ok}
use fips_dropbox.Effect.{M, pure, lift, fail, within, maybe, ◌>>=◌, >>=-eq-ok, within-eq-ok}
use fips_dropbox.Errors.{ServiceError, StorageError, storage, crypto, invalid_credentials}
use fips_dropbox.Platform.{Platform}
use fips_dropbox.World.{World, execute, execute_with}
use fips_dropbox.Crypto
use fips_dropbox.Crypto.Compare.{constant_time_eq, constant_time_eq_iff}
use fips_dropbox.Storage.Rows.{UserRow}
use fips_dropbox.Storage.Records.{User, IssuedSession}
use fips_dropbox.Storage.Decode.{row_to_user, bytes_of, optional}
use fips_dropbox.Storage.Queries.{select}
use fips_dropbox.Storage.Users
use fips_dropbox.Service.Inversion.{spawn_blocking-eq-ok, with_store-eq-ok, with_audit-eq-ok}
use fips_dropbox.Service.Auth.{LoginRequest, login, login_denied, login_accepted}

-- What a decoded user has of its row.
row_to_user-fields :
    (r : UserRow) {user : User}
    → row_to_user r ≡ ok user
    → (is_some user.disabled_at ≡ is_some r.disabled_at)
      × (user.password_hash ≡ r.password_hash)
      × (user.password_salt ≡ r.password_salt)
      × (user.password_iters ≡ r.password_iters)
unfolding row_to_user bytes_of
row_to_user-fields r h = ground arith

pure-value : {S E A : Type 0} (x : A) (s : S) {a : A} → (pure {E = E} x s).0 ≡ ok a → x ≡ a
unfolding ◌>>=◌
pure-value x s h = cc

module _ ⦃os : Platform⦄ where
  find_by_email-row :
      (email : Text) (w : World) {user : User}
      → (Users.find_by_email email w).0 ≡ ok (some user)
      → (r : UserRow) × (Table.find (Users.has_email email) w.db.users ≡ some r)
        × (row_to_user r ≡ ok user)
  unfolding Users.find_by_email execute execute_with ◌>>=◌ select optional
  find_by_email-row email w h = ground arith

  abbrev checks : Bool → Result StorageError Bytes → User → M World StorageError (Option User)
  checks disabled key user = if disabled then pure none else do
    candidate ← lift key
    pure (if constant_time_eq candidate user.password_hash then some user else none)

  right_password :
      (disabled : Bool) (key : Result StorageError Bytes) (user : User) (w : World) {found : User}
      → (checks disabled key user w).0 ≡ ok (some found)
      → (disabled ≡ false) × (key ≡ ok user.password_hash)
  unfolding ◌>>=◌
  right_password true key user w h = absurd (cc)
  right_password false (ok k) user w h =
      (refl, ap ok ((constant_time_eq_iff k user.password_hash).0 (ground arith)))
  right_password false (err e) user w h = absurd (cc)
  right_password false panic user w h = absurd (cc)

  check_password-some :
      (password : Text) (user : User) (w : World) {found : User}
      → (Users.check_password password user w).0 ≡ ok (some found)
      → (is_some user.disabled_at ≡ false)
        × (Crypto.derive_key_from_password password user.password_salt user.password_iters
            ≡ ok user.password_hash)
  unfolding Users.check_password
  check_password-some password user w h =
      let key = Crypto.derive_key_from_password password user.password_salt user.password_iters in
      let (on, right) = right_password (is_some user.disabled_at) (convert crypto key) user w h in
      (on, convert-eq-ok crypto key right)

  unknown_user :
      (r : Result StorageError Bytes) (w : World) {found : User} {t : World}
      → ¬ ((do unused ← lift r; pure none) w ≡ (ok (some found), t))
  unfolding ◌>>=◌
  unknown_user (ok k) w h = cc
  unknown_user (err e) w h = cc
  unknown_user panic w h = cc

  after_find :
      (found : Option User) (password : Text) (r : Result StorageError Bytes) (w : World)
      {user : User} {t : World}
      → maybe found (do unused ← lift r; pure none) (Users.check_password password) w
        ≡ (ok (some user), t)
      → (known : User) × (found ≡ some known)
        × ((Users.check_password password known w).0 ≡ ok (some user))
  after_find none password r w h = absurd (unknown_user r w h)
  after_find (some known) password r w h = (known, refl, ap (λ p. p.0) h)

  -- An account that is enabled, and whose stored hash is the key derived from this password with
  -- its own salt and number of iterations.
  pub record Accepts (email password : Text) (w : World) (r : UserRow) : Type 0 where
    pub stored : Table.find (Users.has_email email) w.db.users ≡ some r
    pub enabled : is_some r.disabled_at ≡ false
    pub password_right :
        Crypto.derive_key_from_password password r.password_salt r.password_iters
        ≡ ok r.password_hash

  -- If `verify_password` answers an account then one is stored under that address which is not
  -- disabled and whose stored hash is the key derived from the password given.
  pub verify_password-Accepts :
      (email password : Text) (w : World) {user : User} {t : World}
      → Users.verify_password email password w ≡ (ok (some user), t)
      → (r : UserRow) × Accepts email password w r
  unfolding Users.verify_password
  verify_password-Accepts email password w h =
      let (found, looked_up, rest) = >>=-eq-ok (Users.find_by_email email) _ w h in
      let (known, is_found, right) = after_find found password _ _ rest in
      let (r, stored, decoded) = find_by_email-row email w (looked_up ∙ ap ok is_found) in
      let (on, key) = check_password-some password known _ right in
      let (disabled, hash, salt, iters) = row_to_user-fields r decoded in
      (
        r,
        record {
          stored = stored;
          enabled = sym disabled ∙ on;
          password_right = rw (sym hash, sym salt, sym iters) key;
        },
      )

  fail-fails :
      {A : Type 0} (e : ServiceError) (w : World) {a : A} {t : World} → ¬ (fail e w ≡ (ok a, t))
  unfolding ◌>>=◌
  fail-fails e w h = cc

  login_denied-fails :
      (req : LoginRequest) (w : World) {issued : IssuedSession} {t : World}
      → ¬ (login_denied req w ≡ (ok issued, t))
  unfolding login_denied
  login_denied-fails req w h =
      let (u, first, last) = >>=-eq-ok _ _ w (with_audit-eq-ok _ w h) in
      fail-fails invalid_credentials _ last

  after_verify :
      (found : Option User) (req : LoginRequest) (w : World) {issued : IssuedSession} {t : World}
      → maybe found (login_denied req) (login_accepted req) w ≡ (ok issued, t)
      → (user : User) × (found ≡ some user)
  after_verify none req w h = absurd (login_denied-fails req w h)
  after_verify (some user) req w h = (user, refl)

  answered : {A : Type 0} (p : Result StorageError A × World) {a : A} → p.0 ≡ ok a → p ≡ (ok a, p.1)
  answered (r, s) h = cc

  -- If `login` opens a session then an account is stored under the address of the request, it is not
  -- disabled, and its stored hash is the key derived from the password of the request.
  pub login-Accepts :
      (req : LoginRequest) (w : World) {issued : IssuedSession} {t : World}
      → login req w ≡ (ok issued, t)
      → (r : UserRow) × Accepts req.email req.password w r
  unfolding login
  login-Accepts req w h =
      let (found, verified, rest) =
        >>=-eq-ok (within storage (Users.verify_password req.email req.password)) _ w
          (with_store-eq-ok _ w (spawn_blocking-eq-ok _ w h)) in
      let (user, is_user) = after_verify found req _ rest in
      let known = within-eq-ok storage (Users.verify_password req.email req.password) w verified in
      verify_password-Accepts req.email req.password w
        (answered (Users.verify_password req.email req.password w) (known ∙ ap ok is_user))
