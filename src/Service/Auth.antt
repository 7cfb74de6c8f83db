-- ===== src/Service/Auth.antt =====
-- `login`, `logout` and `find_authenticated` of crates/service/src/lib.rs.
pub mod Accepted
use fips_dropbox.Prelude.{Option, none, some, codes, is_some, if◌then◌else◌}
use mathlib.Core.Option
use fips_dropbox.Text.{Text, Bytes}
use fips_dropbox.Effect.{M, pure, fail, within, maybe, ◌>>=◌, ◌>>◌}
use fips_dropbox.Errors.{ServiceError, storage, invalid_credentials}
use fips_dropbox.Platform.{Platform}
use fips_dropbox.Event.{Outcome}
use fips_dropbox.World.{World}
use fips_dropbox.Storage.Records.{User, Session, IssuedSession}
use fips_dropbox.Storage.Users
use fips_dropbox.Storage.Sessions
use fips_dropbox.Service.{
  with_store, with_audit, spawn_blocking, json_field, json_empty, write_event,
}

pub record LoginRequest : Type 0 where
  pub email : Text
  pub password : Text
  pub ip : Text
  pub user_agent : Text

module _ ⦃os : Platform⦄ where
  -- The `None` arm: no account, a disabled one and a wrong password look alike.
  unfoldable pub login_denied : LoginRequest → M World ServiceError IssuedSession
  login_denied req = with_audit (do
    write_event (codes "auth.login") Outcome.denied none req.ip req.user_agent
        (json_field (codes "email") req.email)
        (json_field (codes "reason") (codes "invalid credentials"))
    fail invalid_credentials)

  unfoldable pub login_accepted : LoginRequest → User → M World ServiceError IssuedSession
  login_accepted req user = do
    issued ←
        within storage (Sessions.create user.id req.ip req.user_agent Sessions.default_ttl_hours)
    with_audit (do
      write_event (codes "auth.login") Outcome.success (some user.id) req.ip req.user_agent
          (json_field (codes "user_id") (os.uuid_to_string user.id)) json_empty
      pure issued)

  unfoldable pub login : LoginRequest → M World ServiceError IssuedSession
  unfolding login_denied login_accepted
  login req = spawn_blocking (
      with_store (do
        maybe_user ← within storage (Users.verify_password req.email req.password)
        maybe maybe_user (login_denied req) (login_accepted req)))

  unfoldable pub logout : Text → Text → Text → M World ServiceError Unit
  logout raw_token ip ua = spawn_blocking (
      with_store (do
        sess ← within storage (Sessions.find_valid raw_token)
        within storage (Sessions.revoke raw_token)
        let user_id = Option.map (λ (s : Session). s.user_id) sess
        with_audit (
            write_event (codes "auth.logout") Outcome.success user_id ip ua json_empty json_empty)))

  unfoldable pub find_authenticated : Text → M World ServiceError (Option (Session × User))
  find_authenticated raw_token = spawn_blocking (
      with_store (do
        found ← within storage (Sessions.find_valid raw_token)
        maybe found (pure none) λ sess. do
          owner ← within storage (Users.find_by_id sess.user_id)
          maybe owner (pure none)
              λ user. pure (if is_some user.disabled_at then none else some (sess, user))))
