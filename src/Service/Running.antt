-- ===== src/Service/Running.antt =====
-- What a request does whose closure succeeds, with no mutex poisoned.
use fips_dropbox.Prelude.{◌≡◌, false, Option, ap, ◌∙◌, refl}
use fips_dropbox.Text.{Text, Bytes}
use fips_dropbox.Effect.{M}
use fips_dropbox.Effect.Runs.{Runs, Runs-bind, Runs-within, Runs-of}
use fips_dropbox.Errors.{ServiceError}
use fips_dropbox.Platform.{Platform}
use fips_dropbox.Event.{Outcome, Value}
use fips_dropbox.World.{World, called, now_utc}
use fips_dropbox.Audit.Succeeding.{IsSound, write-Runs}
use fips_dropbox.Service.{
  join, after_store, after_audit, locked_store, locked_audit, with_store, with_audit,
  spawn_blocking, write_event,
}

module _ {A : Type 0} {a : A} {t : World} where
  pub spawn_blocking-Runs :
      (body : M World ServiceError A) (w : World)
      → Runs body w a t
      → Runs (spawn_blocking body) w a t
  unfolding spawn_blocking join
  spawn_blocking-Runs body w r = record { at = ap (λ p. (join p.0, p.1)) r.at }

  pub with_store-Runs :
      (body : M World ServiceError A) (w : World)
      → w.store_poisoned ≡ false
      → Runs body w a t
      → Runs (with_store body) w a t
  unfolding with_store locked_store after_store
  with_store-Runs body w clean r = record {
    at = ap (λ b. locked_store b body w) clean ∙ ap (λ p. after_store p.0 p.1) r.at;
  }

  pub with_audit-Runs :
      (body : M World ServiceError A) (w : World)
      → w.audit_poisoned ≡ false
      → Runs body w a t
      → Runs (with_audit body) w a t
  unfolding with_audit locked_audit after_audit
  with_audit-Runs body w clean r = record {
    at = ap (λ b. locked_audit b body w) clean ∙ ap (λ p. after_audit p.0 p.1) r.at;
  }

module _ ⦃os : Platform⦄ (sound : IsSound os) where
  -- Where nothing fails, an event is written.
  pub write_event-Runs :
      (name : Text) (outcome : Outcome) (user_id : Option Bytes) (ip ua : Text)
      (target meta : Value) (w : World)
      → (t : World) × Runs (write_event name outcome user_id ip ua target meta) w tt t
  unfolding write_event now_utc
  write_event-Runs name outcome user_id ip ua target meta w =
      let (t, r) = write-Runs sound _ (called w) in
      (t, Runs-bind _ _ (Runs-of now_utc w refl) (Runs-within _ _ r))
