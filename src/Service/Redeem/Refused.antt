-- ===== src/Service/Redeem/Refused.antt =====
-- A redemption that is refused for its access code.
use fips_dropbox.Prelude.{◌≡◌, ◌≢◌, Bool, true, false, Option, List, if◌then◌else◌}
use fips_dropbox.Result.{err}
use fips_dropbox.Effect.{M, within}
use fips_dropbox.Effect.Keeps.{Keeps, Keeps-lift}
use fips_dropbox.Storage.Stable.Functions.{storage_rules}
use fips_dropbox.Storage.Shares.{find_by_token_hash}
use fips_dropbox.Storage.Stable.{OfShares-IsFramed}
use fips_dropbox.Service.History.Operations.{denied-Keeps, unknown_token-Keeps}
use fips_dropbox.Errors.{
  StorageError, ServiceError, storage, audit, invalid_credentials, not_found, share_unavailable,
}
use fips_dropbox.Platform.{Platform}
use fips_dropbox.World.{World, now_utc}
use fips_dropbox.Storage.Rows.{ShareRow}
use fips_dropbox.Storage.Records.{Share}
use fips_dropbox.Text.{Text, Bytes}
use fips_dropbox.Event.{Outcome, Value}
use fips_dropbox.Service.{App, write_event}
use fips_dropbox.Service.Redeem.{RedeemRequest, denied, deliver, redeem_found, redeem_share}
use fips_dropbox.Service.Redeem.Sparing.{
  Never, Never-bind, Never-pure, Never-fail, Never-within, Never-maybe, Never-with_audit, Spares,
  Are, Spares-kept, Spares-Never, Spares-if, Spares-maybe, Spares-bind, Spares-with_store,
  Spares-spawn_blocking,
}

module _ ⦃os : Platform⦄ where
  Never-storage : {A : Type 0} (m : M World StorageError A) → Never (within storage m)
  Never-storage m = Never-within storage m (λ e same. cc)

  Never-now_utc : Never now_utc
  unfolding now_utc
  Never-now_utc = record { at = λ w same. cc }

  Never-write_event :
      (name : Text) (outcome : Outcome) (user : Option Bytes) (ip ua : Text) (target meta : Value)
      → Never (write_event name outcome user ip ua target meta)
  unfolding write_event
  Never-write_event name outcome user ip ua target meta =
      Never-bind _ _ Never-now_utc λ ts. Never-within audit _ (λ e same. cc)

  Never-denied :
      {A : Type 0} (req : RedeemRequest) (share : Share) (reason : Text) (e : ServiceError)
      → e ≢ invalid_credentials
      → Never {A = A} (denied req share reason e)
  unfolding denied
  Never-denied req share reason e other =
      Never-with_audit _ (Never-bind _ _ (Never-write_event _ _ _ _ _ _ _) λ u. Never-fail e other)

  Never-if :
      {A : Type 0} (b : Bool) (m n : M World ServiceError A)
      → Never m
      → Never n
      → Never (if b then m else n)
  Never-if true m n nm nn = nm
  Never-if false m n nm nn = nn

  Never-deliver : (app : App) (req : RedeemRequest) (share : Share) → Never (deliver app req share)
  unfolding deliver
  Never-deliver app req share = Never-bind _ _ (Never-storage _) λ found.
      Never-maybe found _ _ (Never-fail not_found (λ same. cc)) λ print.
        Never-bind _ _ (Never-storage _) λ content.
          Never-with_audit _ (Never-bind _ _ (Never-write_event _ _ _ _ _ _ _) λ u. Never-pure _)

module _ ⦃os : Platform⦄ where
  Spares-redeem_found :
      (app : App) (req : RedeemRequest) (share : Share) → Spares (redeem_found app req share)
  unfolding redeem_found
  Spares-redeem_found app req share =
      Spares-bind _ _ (λ rows. Keeps-lift _)
        λ right.
          Spares-if right _ _
            (Spares-Never _ (
              Never-bind _ _ (Never-storage _) λ consumed.
                Never-if consumed _ _ (Never-deliver app req share)
                  (Never-denied req share _ share_unavailable (λ same. cc))))
            (Spares-kept _ λ rows. denied-Keeps OfShares-IsFramed req share _ _)

  found_share-Keeps :
      (rows : List ShareRow) (token_hash : Bytes)
      → Keeps (Are rows) (within storage (find_by_token_hash token_hash))
  unfolding find_by_token_hash
  found_share-Keeps rows token_hash = search (storage_rules, OfShares-IsFramed)

  -- A redemption that is refused for its access code leaves every share as it was: nobody uses up
  -- the downloads of a link without its code.
  pub redeem_share-refused :
      (app : App) (req : RedeemRequest) (w : World)
      → (redeem_share app req w).0 ≡ err invalid_credentials
      → (redeem_share app req w).1.db.shares ≡ w.db.shares
  unfolding redeem_share
  redeem_share-refused app req =
      (Spares-spawn_blocking _ (
        Spares-with_store _ (
          Spares-bind _ _ (λ rows. Keeps-lift _)
            λ token_hash.
              Spares-bind _ _ (λ rows. found_share-Keeps rows token_hash)
                λ found.
                  Spares-maybe found _ _
                    (Spares-kept _ λ rows. unknown_token-Keeps OfShares-IsFramed req)
                    (Spares-redeem_found app req)))).at
