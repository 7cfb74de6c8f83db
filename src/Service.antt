-- ===== src/Service.antt =====
-- crates/service/src/lib.rs: what every operation shares. A request is one closure of
-- `spawn_blocking`, which holds the store's mutex to its end; so operations follow one another.
pub mod Inversion
pub mod Running
pub mod Auth
pub mod Create
pub mod Redeem
pub mod View
pub mod Tokens
pub mod History
pub mod Poison
use fips_dropbox.Prelude.{Bool, true, false, Option, none, some, [], codes, if◌then◌else◌}
use mathlib.Core.Option
use fips_dropbox.Text.{Text, Bytes}
use fips_dropbox.Result.{Result, ok, err, panic}
use fips_dropbox.Effect.{M, within, ◌>>=◌, ◌>>◌}
use fips_dropbox.Errors.{ServiceError, audit, mutex_poisoned, join_error}
use fips_dropbox.Platform.{Platform}
use fips_dropbox.Event.{Event, Outcome, Value, Fields, str, obj, end, field}
use fips_dropbox.World.{World, now_utc}
use fips_dropbox.Audit

-- `App`, without the shared state.
pub record App : Type 0 where
  pub kek : Bytes
  pub public_base_url : Text
  pub fips_mode_enabled : Bool
  pub email_configured : Bool
  pub sms_configured : Bool

-- A panic while a mutex is held poisons it.
after_store : {A : Type 0} → Result ServiceError A → World → Result ServiceError A × World
after_store panic w = (panic, record w { store_poisoned = true })
after_store r w = (r, w)

after_audit : {A : Type 0} → Result ServiceError A → World → Result ServiceError A × World
after_audit panic w = (panic, record w { audit_poisoned = true })
after_audit r w = (r, w)

locked_store : {A : Type 0} → Bool → M World ServiceError A → M World ServiceError A
unfolding after_store
locked_store true body w = (err mutex_poisoned, w)
locked_store false body w = let (r, w') = body w in after_store r w'

-- `let s = store.lock().map_err(poisoned)?; …`
unfoldable pub with_store : {A : Type 0} → M World ServiceError A → M World ServiceError A
unfolding locked_store
with_store body w = locked_store w.store_poisoned body w

locked_audit : {A : Type 0} → Bool → M World ServiceError A → M World ServiceError A
unfolding after_audit
locked_audit true body w = (err mutex_poisoned, w)
locked_audit false body w = let (r, w') = body w in after_audit r w'

-- `let mut a = audit.lock().map_err(poisoned)?; …`
unfoldable pub with_audit : {A : Type 0} → M World ServiceError A → M World ServiceError A
unfolding locked_audit
with_audit body w = locked_audit w.audit_poisoned body w

join : {A : Type 0} → Result ServiceError A → Result ServiceError A
join panic = err join_error
join r = r

-- `spawn_blocking(…).await.map_err(Internal)`: a panic of the closure is an error of the caller.
unfoldable pub spawn_blocking : {A : Type 0} → M World ServiceError A → M World ServiceError A
unfolding join
spawn_blocking body w = let (r, w') = body w in (join r, w')

-- `json!({ "name": "text" })`
abbrev pub json_field : Text → Text → Value
json_field name value = obj (field name (str value) end)

abbrev pub json_empty : Value
json_empty = obj end

module _ ⦃os : Platform⦄ where
  unfoldable pub write_event :
      Text → Outcome → Option Bytes → Text → Text → Value → Value → M World ServiceError Unit
  write_event name outcome user_id ip ua target meta = do
    ts ← now_utc
    within audit (
        Audit.write (record {
          ts = ts;
          event = name;
          actor = record { user_id = Option.map os.uuid_to_string user_id; ip = ip; ua = ua };
          target = target;
          outcome = outcome;
          meta = meta;
          prev_hash = [];
          hash = [];
        }))
