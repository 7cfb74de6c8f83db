-- ===== src/Service/History/Keeping.antt =====
-- Every request keeps every stable property of the shares.
use fips_dropbox.Prelude.{none, some, ℕ, ◌≡◌, refl, Bool, true, false, Option}
use fips_dropbox.Text.{Text, Bytes}
use fips_dropbox.Result.{Result, ok, err, panic}
use fips_dropbox.Effect.{M, modify, ◌>>=◌}
use fips_dropbox.Effect.Keeps.{Keeps, Keeps-modify}
use fips_dropbox.Errors.{ServiceError, AuditError}
use fips_dropbox.Platform.{Platform}
use fips_dropbox.Event.{Event, Outcome, Value}
use fips_dropbox.World.{World, Message, called}
use fips_dropbox.Audit
use fips_dropbox.Audit.{contents_of}
use fips_dropbox.Storage.Shares
use fips_dropbox.Storage.Stable.{IsFramed}
use fips_dropbox.Storage.Stable.Kept.{IsKept}
use fips_dropbox.Storage.Stable.Functions.{storage_rules}
use fips_dropbox.Service.{
  after_store, after_audit, locked_store, locked_audit, with_store, with_audit, spawn_blocking,
  write_event,
}
use fips_dropbox.Service.Create
use fips_dropbox.Service.Create.{NewShareRequest}

module _ {I : World → Type 0} (framed : IsFramed I) where
  after_store-Keeps :
      {A : Type 0} (r : Result ServiceError A) (w : World) → I w → I (after_store r w).1
  unfolding after_store
  after_store-Keeps (ok a) w h = h
  after_store-Keeps (err e) w h = h
  after_store-Keeps panic w h = framed.same w _ refl refl refl h

  after_audit-Keeps :
      {A : Type 0} (r : Result ServiceError A) (w : World) → I w → I (after_audit r w).1
  unfolding after_audit
  after_audit-Keeps (ok a) w h = h
  after_audit-Keeps (err e) w h = h
  after_audit-Keeps panic w h = framed.same w _ refl refl refl h

  locked_store-Keeps :
      {A : Type 0} (poisoned : Bool) (body : M World ServiceError A)
      → Keeps I body
      → Keeps I (locked_store poisoned body)
  unfolding locked_store
  locked_store-Keeps true body k = record { at = λ w h. h }
  locked_store-Keeps false body k = record {
    at = λ w h. after_store-Keeps (body w).0 (body w).1 (k.at w h);
  }

  pub with_store-Keeps :
      {A : Type 0} (body : M World ServiceError A) → Keeps I body → Keeps I (with_store body)
  unfolding with_store
  with_store-Keeps body k = record {
    at = λ w h. (locked_store-Keeps w.store_poisoned body k).at w h;
  }

  locked_audit-Keeps :
      {A : Type 0} (poisoned : Bool) (body : M World ServiceError A)
      → Keeps I body
      → Keeps I (locked_audit poisoned body)
  unfolding locked_audit
  locked_audit-Keeps true body k = record { at = λ w h. h }
  locked_audit-Keeps false body k = record {
    at = λ w h. after_audit-Keeps (body w).0 (body w).1 (k.at w h);
  }

  pub with_audit-Keeps :
      {A : Type 0} (body : M World ServiceError A) → Keeps I body → Keeps I (with_audit body)
  unfolding with_audit
  with_audit-Keeps body k = record {
    at = λ w h. (locked_audit-Keeps w.audit_poisoned body k).at w h;
  }

  pub spawn_blocking-Keeps :
      {A : Type 0} (body : M World ServiceError A) → Keeps I body → Keeps I (spawn_blocking body)
  unfolding spawn_blocking
  spawn_blocking-Keeps body k = record { at = k.at }

  pub post-Keeps : (m : Message) → Keeps I (Create.post m)
  unfolding Create.post ◌>>=◌
  post-Keeps m = record { at = λ w h. framed.same w _ refl refl refl h }

module _ ⦃os : Platform⦄ {I : World → Type 0} (framed : IsFramed I) where
  -- An update of what the audit log keeps.
  modify-Keeps :
      {E : Type 0} (f : World → World)
      → ((w : World) → ((f w).calls ≡ w.calls) × ((f w).db ≡ w.db) × ((f w).blobs ≡ w.blobs))
      → Keeps I (modify {E = E} f)
  modify-Keeps f same =
      Keeps-modify f (λ w h. framed.same w (f w) (same w).0 (same w).1 (same w).2 h)

  open_append-Keeps : Keeps I Audit.open_append
  unfolding Audit.open_append
  open_append-Keeps = search (
    storage_rules,
    modify-Keeps (λ w. record w { audit_file = some (contents_of w) }) (λ w. (refl, refl, refl)),
  )

  appended :
      (line : Text) (fault : Option ℕ) (w : World)
      → os.io_fault w.calls ≡ fault
      → I w
      → I (Audit.append_line line w).1
  unfolding Audit.append_line
  appended line none w e h =
      rw (e, Audit.append_line) (framed.same (called w) _ refl refl refl (framed.after_call w h))
  appended line (some n) w e h =
      rw (e, Audit.append_line) (framed.same (called w) _ refl refl refl (framed.after_call w h))

  append_line-Keeps : (line : Text) → Keeps I (Audit.append_line line)
  append_line-Keeps line = record { at = λ w h. appended line (os.io_fault w.calls) w refl h }

  next_hash-Keeps :
      (h : Text)
      → Keeps I (modify {E = AuditError} (λ w. record w { log = record { prev_hash = h } }))
  next_hash-Keeps h =
      modify-Keeps (λ w. record w { log = record { prev_hash = h } }) (λ w. (refl, refl, refl))

  write-Keeps : (ev : Event) → Keeps I (Audit.write ev)
  unfolding Audit.write
  write-Keeps ev =
      search (storage_rules, open_append-Keeps, append_line-Keeps, next_hash-Keeps) depth 12

  pub read_all-Keeps : Keeps I Audit.read_all
  unfolding Audit.read_all
  read_all-Keeps = search storage_rules depth 12

  pub write_event-Keeps :
      (name : Text) (outcome : Outcome) (user_id : Option Bytes) (ip ua : Text)
      (target meta : Value)
      → Keeps I (write_event name outcome user_id ip ua target meta)
  unfolding write_event
  write_event-Keeps name outcome user_id ip ua target meta = search (storage_rules, write-Keeps)

pub ruleset service_rules = (
  storage_rules, with_store-Keeps, with_audit-Keeps, spawn_blocking-Keeps, post-Keeps,
  read_all-Keeps, write_event-Keeps,
)

module _ ⦃os : Platform⦄ {I : World → Type 0} (kept : IsKept I) where
  pub find_share-Keeps : (h : Bytes) → Keeps I (Shares.find_by_token_hash h)
  unfolding Shares.find_by_token_hash
  find_share-Keeps h = search (storage_rules, kept.framed)

  pub list_recent-Keeps : (limit : ℕ) → Keeps I (Shares.list_recent limit)
  unfolding Shares.list_recent
  list_recent-Keeps limit = search (storage_rules, kept.framed)

  pub create-Keeps :
      (print_id vendor_id : Bytes) (expires_at max_downloads : ℕ) (sender_note : Option Text)
      (by : Bytes)
      → Keeps I (Shares.create print_id vendor_id expires_at max_downloads sender_note by)
  unfolding Shares.create
  create-Keeps print_id vendor_id expires_at max_downloads sender_note by =
      search (storage_rules, kept.framed, kept.insert_share) depth 15

  pub try_consume-Keeps : (id : Bytes) → Keeps I (Shares.try_consume_download id)
  try_consume-Keeps = kept.consume

  pub revoke_share-Keeps : (id : Bytes) → Keeps I (Shares.revoke id)
  unfolding Shares.revoke
  revoke_share-Keeps id = search (storage_rules, kept.framed, kept.revoke) depth 10
