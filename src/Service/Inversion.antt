-- ===== src/Service/Inversion.antt =====
-- What a successful request says of the code inside it.
use fips_dropbox.Prelude.{◌≡◌, Bool, true, false}
use fips_dropbox.Result.{Result, ok, err, panic}
use fips_dropbox.Effect.{M}
use fips_dropbox.Errors.{ServiceError}
use fips_dropbox.World.{World}
use fips_dropbox.Service.{
  join, after_store, after_audit, locked_store, locked_audit, with_store, with_audit,
  spawn_blocking,
}

abbrev ended : {A : Type 0} → Result ServiceError A → World → Result ServiceError A × World
ended r u = (r, u)

module _ {A : Type 0} {a : A} {t : World} where
  join-eq-ok :
      (r : Result ServiceError A) (u : World) → ended (join r) u ≡ (ok a, t) → ended r u ≡ (ok a, t)
  unfolding join
  join-eq-ok (ok b) u h = h
  join-eq-ok (err e) u h = h
  join-eq-ok panic u h = cc

  pub spawn_blocking-eq-ok :
      (body : M World ServiceError A) (w : World)
      → spawn_blocking body w ≡ (ok a, t)
      → body w ≡ (ok a, t)
  unfolding spawn_blocking
  spawn_blocking-eq-ok body w h = join-eq-ok (body w).0 (body w).1 h

  after_store-eq-ok :
      (r : Result ServiceError A) (u : World) → after_store r u ≡ (ok a, t) → ended r u ≡ (ok a, t)
  unfolding after_store
  after_store-eq-ok (ok b) u h = h
  after_store-eq-ok (err e) u h = h
  after_store-eq-ok panic u h = cc

  locked_store-eq-ok :
      (poisoned : Bool) (body : M World ServiceError A) (w : World)
      → locked_store poisoned body w ≡ (ok a, t)
      → body w ≡ (ok a, t)
  unfolding locked_store
  locked_store-eq-ok true body w h = cc
  locked_store-eq-ok false body w h = after_store-eq-ok (body w).0 (body w).1 h

  pub with_store-eq-ok :
      (body : M World ServiceError A) (w : World)
      → with_store body w ≡ (ok a, t)
      → body w ≡ (ok a, t)
  unfolding with_store
  with_store-eq-ok body w h = locked_store-eq-ok w.store_poisoned body w h

  after_audit-eq-ok :
      (r : Result ServiceError A) (u : World) → after_audit r u ≡ (ok a, t) → ended r u ≡ (ok a, t)
  unfolding after_audit
  after_audit-eq-ok (ok b) u h = h
  after_audit-eq-ok (err e) u h = h
  after_audit-eq-ok panic u h = cc

  locked_audit-eq-ok :
      (poisoned : Bool) (body : M World ServiceError A) (w : World)
      → locked_audit poisoned body w ≡ (ok a, t)
      → body w ≡ (ok a, t)
  unfolding locked_audit
  locked_audit-eq-ok true body w h = cc
  locked_audit-eq-ok false body w h = after_audit-eq-ok (body w).0 (body w).1 h

  pub with_audit-eq-ok :
      (body : M World ServiceError A) (w : World)
      → with_audit body w ≡ (ok a, t)
      → body w ≡ (ok a, t)
  unfolding with_audit
  with_audit-eq-ok body w h = locked_audit-eq-ok w.audit_poisoned body w h
