-- ===== src/Service/Poison.antt =====
-- Panics of crates/service/src/lib.rs under its two mutexes.
use fips_dropbox.Prelude.{suc, ◌≡◌, refl, ap, ◌∙◌, true, false, none, List, [], ◌∷◌, arith, list_eq}
use fips_dropbox.Prelude.Table
use fips_dropbox.Text.{Bytes, as_bytes}
use fips_dropbox.Result.{ok, err, panic}
use fips_dropbox.Effect.{M, ◌>>=◌}
use fips_dropbox.Errors.{ServiceError, mutex_poisoned, join_error}
use fips_dropbox.Platform.{Platform}
use fips_dropbox.World.{World, called, execute, execute_with}
use fips_dropbox.Crypto
use fips_dropbox.Storage.Queries.{select}
use fips_dropbox.Storage.Decode.{optional}
use fips_dropbox.Storage.Shares
use fips_dropbox.Service.{
  App, join, after_store, after_audit, locked_store, locked_audit, with_store, with_audit,
  spawn_blocking,
}
use fips_dropbox.Service.Auth
use fips_dropbox.Service.Create
use fips_dropbox.Service.Redeem
use fips_dropbox.Service.Redeem.{RedeemRequest, short_token, redeem_share}
use fips_dropbox.Service.View
use fips_dropbox.Service.Tokens
use fips_dropbox.Service.History.{
  Request, logs_in, logs_out, authenticates, creates, redeems, lists_audit, mints_token,
  lists_tokens, revokes_token, verifies_token, lists_shares, revokes_share, step, serve,
}

module _ {A : Type 0} (body : M World ServiceError A) (w : World) where
  poisoned_store :
      w.store_poisoned ≡ true → spawn_blocking (with_store body) w ≡ (err mutex_poisoned, w)
  unfolding spawn_blocking join with_store locked_store
  poisoned_store h = ap (λ b. spawn_blocking {A = A} (λ v. locked_store b body v) w) h

  poisoned_audit :
      w.audit_poisoned ≡ true → spawn_blocking (with_audit body) w ≡ (err mutex_poisoned, w)
  unfolding spawn_blocking join with_audit locked_audit
  poisoned_audit h = ap (λ b. spawn_blocking {A = A} (λ v. locked_audit b body v) w) h

module _ ⦃os : Platform⦄ (app : App) (w : World) where
  poisoned_create :
      (req : Create.NewShareRequest)
      → w.store_poisoned ≡ true
      → Create.create_share app req w ≡ (err mutex_poisoned, w)
  unfolding Create.create_share ◌>>=◌
  poisoned_create req h = rw (poisoned_store (Create.store_share app req) w h) refl

  poisoned-step :
      (r : Request) → w.store_poisoned ≡ true → w.audit_poisoned ≡ true → step app r w ≡ w
  unfolding step Auth.login Auth.logout Auth.find_authenticated redeem_share View.list_audit_events
      Tokens.mint_api_token Tokens.list_api_tokens Tokens.revoke_api_token Tokens.verify_api_token
      View.list_recent_shares Create.revoke_share
  poisoned-step (logs_in req) h k = ap (λ p. p.1) (poisoned_store _ w h)
  poisoned-step (logs_out token ip ua) h k = ap (λ p. p.1) (poisoned_store _ w h)
  poisoned-step (authenticates token) h k = ap (λ p. p.1) (poisoned_store _ w h)
  poisoned-step (creates req) h k = ap (λ p. p.1) (poisoned_create req h)
  poisoned-step (redeems req) h k = ap (λ p. p.1) (poisoned_store _ w h)
  poisoned-step (lists_audit prefix limit) h k = ap (λ p. p.1) (poisoned_audit _ w k)
  poisoned-step (mints_token by label ip ua) h k = ap (λ p. p.1) (poisoned_store _ w h)
  poisoned-step (lists_tokens user) h k = ap (λ p. p.1) (poisoned_store _ w h)
  poisoned-step (revokes_token id by ip ua) h k = ap (λ p. p.1) (poisoned_store _ w h)
  poisoned-step (verifies_token token) h k = ap (λ p. p.1) (poisoned_store _ w h)
  poisoned-step (lists_shares limit) h k = ap (λ p. p.1) (poisoned_store _ w h)
  poisoned-step (revokes_share id by ip ua) h k = ap (λ p. p.1) (poisoned_store _ w h)

  -- Once both mutexes are poisoned no request changes anything: no row, no file, no event of the
  -- audit log and no message.
  pub serve-poisoned :
      (requests : List Request)
      → w.store_poisoned ≡ true
      → w.audit_poisoned ≡ true
      → serve app w requests ≡ w
  unfolding serve
  serve-poisoned [] h k = refl
  serve-poisoned (r ∷ requests) h k =
      ap (λ v. serve app v requests) (poisoned-step r h k) ∙ serve-poisoned requests h k

module _ {A : Type 0} (body : M World ServiceError A) (w : World) where
  open_store : w.store_poisoned ≡ false → with_store body w ≡ after_store (body w).0 (body w).1
  unfolding with_store locked_store
  open_store h = ap (λ b. locked_store b body w) h

  open_audit : w.audit_poisoned ≡ false → with_audit body w ≡ after_audit (body w).0 (body w).1
  unfolding with_audit locked_audit
  open_audit h = ap (λ b. locked_audit b body w) h

  panicked :
      {t : World}
      → body w ≡ (panic, t)
      → w.store_poisoned ≡ false
      → spawn_blocking (with_store body) w ≡ (err join_error, record t { store_poisoned = true })
  unfolding spawn_blocking join after_store
  panicked h fine = rw (open_store fine, h) refl

module _ ⦃os : Platform⦄ (app : App) (req : RedeemRequest) (w : World) where
  unknown_token-panics :
      {A : Type 0} (v : World)
      → v.audit_poisoned ≡ false
      → short_token req.token ≡ none
      → Redeem.unknown_token {A = A} req v ≡ (panic, record v { audit_poisoned = true })
  unfolding Redeem.unknown_token after_audit ◌>>=◌
  unknown_token-panics v fine cut = open_audit _ v fine ∙ rw cut refl

  looked_up :
      (h : Bytes)
      → os.sqlite_fault w.calls ≡ none
      → Table.find (λ s. list_eq s.token_hash h) w.db.shares ≡ none
      → Shares.find_by_token_hash h w ≡ (ok none, called w)
  unfolding Shares.find_by_token_hash execute execute_with ◌>>=◌ select optional
  looked_up h fine absent = ground arith

  -- A request to redeem a token that no share has, and whose first six bytes end inside a
  -- character, panics under both mutexes: the caller gets an internal error, and both are poisoned.
  pub redeem_share-poisons :
      {h : Bytes}
      → w.store_poisoned ≡ false
      → w.audit_poisoned ≡ false
      → Crypto.sha256 (as_bytes req.token) ≡ ok h
      → os.sqlite_fault w.calls ≡ none
      → Table.find (λ s. list_eq s.token_hash h) w.db.shares ≡ none
      → short_token req.token ≡ none
      → redeem_share app req w ≡ (
        err join_error,
        record w { calls = suc w.calls; audit_poisoned = true; store_poisoned = true },
      )
  unfolding redeem_share ◌>>=◌
  redeem_share-poisons {h} store_fine audit_fine hashed fine absent cut =
      panicked _ w {t = record w { calls = suc w.calls; audit_poisoned = true }}
        (rw (hashed, looked_up h fine absent, unknown_token-panics (called w) audit_fine cut) refl)
        store_fine
